-- ===== src/Settlement/Width.antt =====
-- The width of a line.
use Prim.Native.String
use Prim.Native.String.append
use payment_sim.Settlement.{Settled, copies, pad_right, pad_left, settlement_line}
use payment_sim.Sensitive.{chars}
use payment_sim.Value.{Host}
use payment_sim.Value.Numbers.{of_ℕ}
use payment_sim.Prelude.{ℕ, zero, suc, ◌+◌, ◌-◌, ◌≤◌, String, ◌≡◌, refl, ap, ◌∙◌, arith}

chars-append : (s t : String) → chars (String.◌++◌ s t) ≡ chars s + chars t
unfolding chars
chars-append String.[] t =
    let same : String.◌++◌ "" t ≡ t = λ i. append.nil t i in ap chars same ∙ omega arith
chars-append (String.◌∷◌ c s) t =
    let same : String.◌++◌ (String.◌∷◌ c s) t ≡ String.◌∷◌ c (String.◌++◌ s t) =
      λ i. append.cons c s t i in
    ap chars same ∙ omega (arith, chars-append s t)

chars-copies : (n : ℕ) (s : String) → chars s ≡ 1 → chars (copies n s) ≡ n
unfolding copies
chars-copies zero s e = unfold chars in refl
chars-copies (suc n) s e = omega (arith, chars-append s (copies n s), chars-copies n s e, e)

chars-pad_right : (s : String) (n : ℕ) → chars s ≤ n → chars (pad_right s n) ≡ n
unfolding pad_right
chars-pad_right s n fits =
    let one : chars " " ≡ 1 = unfold chars in refl in
    omega
      (arith, chars-append s (copies (n - chars s) " "), chars-copies (n - chars s) " " one, fits)

chars-pad_left : (s : String) (n : ℕ) → chars s ≤ n → chars (pad_left s n) ≡ n
unfolding pad_left
chars-pad_left s n fits =
    let one : chars "0" ≡ 1 = unfold chars in refl in
    omega
      (arith, chars-append (copies (n - chars s) "0") s, chars-copies (n - chars s) "0" one, fits)

-- A line whose fields fit their columns has 44 characters.
pub chars-settlement_line :
    (h : Host) (txn : Settled)
    → chars txn.id ≤ 12
    → chars txn.type ≤ 12
    → chars (h.string_of_number (of_ℕ txn.cents)) ≤ 10
    → chars txn.status ≤ 10
    → chars (settlement_line h txn) ≡ 44
unfolding settlement_line
chars-settlement_line h txn a b c d =
    let amount = h.string_of_number (of_ℕ txn.cents) in
    omega (
      arith,
      chars-append (pad_right txn.id 12) (
          String.◌++◌ (pad_right txn.type 12)
            (String.◌++◌ (pad_left amount 10) (pad_right txn.status 10))),
      chars-append (pad_right txn.type 12)
          (String.◌++◌ (pad_left amount 10) (pad_right txn.status 10)),
      chars-append (pad_left amount 10) (pad_right txn.status 10),
      chars-pad_right txn.id 12 a,
      chars-pad_right txn.type 12 b,
      chars-pad_left amount 10 c,
      chars-pad_right txn.status 10 d,
    )
