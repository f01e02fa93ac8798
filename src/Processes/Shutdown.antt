-- ===== src/Processes/Shutdown.antt =====
-- When a process exits with code 0.
use payment_sim.Processes.{close_all}
use payment_sim.Prelude.{String, ◌≡◌, refl, ap, ◌↔◌, List, [], ◌∷◌, arith, All, Result, throw, ok}

abbrev names_of : List (String × Result (Unit {0})) → List String
names_of [] = []
names_of ((name, r) ∷ rest) = name ∷ names_of rest

abbrev HasClosed : String × Result (Unit {0}) → Type 0
HasClosed p = p.1 ≡ ok tt

-- The exit code is 0 exactly if every part closes; then all are closed, in order.
pub close_all-code :
    (parts : List (String × Result (Unit {0}))) → ((close_all parts).code ≡ 0) ↔ All HasClosed parts
unfolding close_all
close_all-code [] = (λ e. tt, λ h. refl)
close_all-code ((name, throw error) ∷ rest) =
    (λ e. absurd (omega (arith, e)), λ h. absurd (cc (h.0)))
close_all-code ((name, ok u) ∷ rest) =
    let ih = close_all-code rest in (λ e. (refl, ih.0 e), λ h. ih.1 h.1)

pub close_all-closed :
    (parts : List (String × Result (Unit {0})))
    → (close_all parts).code ≡ 0
    → (close_all parts).closed ≡ names_of parts
unfolding close_all
close_all-closed [] e = refl
close_all-closed ((name, throw error) ∷ rest) e = absurd (omega (arith, e))
close_all-closed ((name, ok u) ∷ rest) e = ap (λ ns. name ∷ ns) (close_all-closed rest e)
