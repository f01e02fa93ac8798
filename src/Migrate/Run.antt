-- ===== src/Migrate/Run.antt =====
-- What a run of the migrations leaves in the database, wherever it stops.
use payment_sim.Migrate.{
  Schema, list_migrations, unlock_after, migrate, no_change, migrate_all, migrate_one,
}
use payment_sim.Migrate.Script.{IsRecorded, IsApplied, One, committed-autocommit, migrate_one-One}
use payment_sim.Value.{Host}
use payment_sim.Store.Sql.{Connection, Call, autocommit, ◌>>◌}
use payment_sim.Store.Sql.Rules.{>>=-rule}
use payment_sim.Prelude.{
  String, ◌≡◌, sym, subst, ◌⊎◌, inl, inr, Bool, true, false, List, [], ◌∷◌, Result, throw, ok,
}
use payment_sim.Store.Save.Inserts.{ok_pair}

abbrev pub is_ok {ℓ} : {A : Type ℓ} → Result A → Bool
is_ok (ok a) = true
is_ok (throw e) = false

module _ {S : Type 0} (h : Host) (read : String → Result String)
    (run_sql : String → S → Result S) where
  -- The way from `s` to `t` along the list: each script is found recorded, or runs whole, up to the
  -- end, or up to one where the run stops.
  pub data Ran : List String → Bool → Schema S → Schema S → Type 0 where
    finished : {s : Schema S} → Ran [] true s s
    stopped : {vs : List String} {s : Schema S} → Ran vs false s s
    skipped :
        {v : String} {vs : List String} {b : Bool} {s t : Schema S}
        → IsRecorded h read run_sql v s
        → Ran vs b s t
        → Ran (v ∷ vs) b s t
    applied :
        {v : String} {vs : List String} {b : Bool} {s s' t : Schema S}
        → IsApplied h read run_sql v s s'
        → Ran vs b s' t
        → Ran (v ∷ vs) b s t

module _ {S : Type 0} (h : Host) (read : String → Result String)
    (run_sql : String → S → Result S) where
  -- After the error of a script the run stops; otherwise the rest follows.
  after_error :
      (v : String) (vs : List String) (s s' : Schema S)
      → (s' ≡ s) ⊎ IsApplied h read run_sql v s s'
      → Ran h read run_sql (v ∷ vs) false s s'
  after_error v vs s s' (inl p) = subst (Ran h read run_sql (v ∷ vs) false s) (sym p) stopped
  after_error v vs s s' (inr done) = applied done stopped

  after_success :
      (v : String) (vs : List String) (b : Bool) (s s' t : Schema S)
      → IsRecorded h read run_sql v s × (s' ≡ s) ⊎ IsApplied h read run_sql v s s'
      → Ran h read run_sql vs b s' t
      → Ran h read run_sql (v ∷ vs) b s t
  after_success v vs b s s' t (inl (known, p)) rest =
      skipped known (subst (λ d. Ran h read run_sql vs b d t) p rest)
  after_success v vs b s s' t (inr done) rest = applied done rest

  migrate_all-Ran :
      (vs : List String) (s : Connection (Schema S))
      → let (r, t) = migrate_all h read run_sql vs s in
        Ran h read run_sql vs (is_ok r) s.committed t.committed
  unfolding migrate_all
  migrate_all-Ran [] s = finished
  migrate_all-Ran (v ∷ vs) s =
      let s' : Connection (Schema S) = (migrate_one h read run_sql v s).1 in
      let one : (r : Result (Unit {0}))
          → (migrate_one h read run_sql v s).0 ≡ r
          → One h read run_sql v s.committed r s'.committed =
        λ r p.
          subst (λ r. One h read run_sql v s.committed r s'.committed) p
            (migrate_one-One h read run_sql v s) in
      >>=-rule (λ r t. Ran h read run_sql (v ∷ vs) (is_ok r) s.committed t.committed)
        (migrate_one h read run_sql v) _ s
        (λ e p. after_error v vs s.committed s'.committed (one (throw e) p))
        (λ u p.
          after_success v vs (is_ok (migrate_all h read run_sql vs s').0) s.committed s'.committed
            (migrate_all h read run_sql vs s').1.committed (one (ok u) p) (migrate_all-Ran vs s'))

  no_change-committed :
      (s : Connection (Schema S))
      → (autocommit (no_change h read run_sql) s).1.committed ≡ s.committed
  no_change-committed s =
      committed-autocommit h read run_sql (no_change h read run_sql) s (λ a db p. (ok_pair _ _ p).1)

  unlock_after-rule :
      {A : Type 0} (P : Result A → Schema S → Type 0) (m : Call (Schema S) A)
      (s : Connection (Schema S))
      → P (m s).0 (m s).1.committed
      → let (r, t) = unlock_after (autocommit (no_change h read run_sql)) m s in P r t.committed
  unlock_after-rule P m s p = subst (P (m s).0) (sym (no_change-committed (m s).1)) p

  -- A statement that changes nothing, before the rest.
  then-Ran :
      (vs : List String) (n : Call (Schema S) (Unit {0}))
      → ((s : Connection (Schema S))
          → Ran h read run_sql vs (is_ok (n s).0) s.committed (n s).1.committed)
      → (s : Connection (Schema S))
      → let (r, t) = (autocommit (no_change h read run_sql) >> n) s in
        Ran h read run_sql vs (is_ok r) s.committed t.committed
  then-Ran vs n ran s =
      let s' : Connection (Schema S) = (autocommit (no_change h read run_sql) s).1 in
      >>=-rule (λ r t. Ran h read run_sql vs (is_ok r) s.committed t.committed)
        (autocommit (no_change h read run_sql)) _ s
        (λ e _.
          subst (Ran h read run_sql vs false s.committed) (sym (no_change-committed s)) stopped)
        (λ u _.
          subst (λ d. Ran h read run_sql vs (is_ok (n s').0) d (n s').1.committed)
            (no_change-committed s) (ran s'))

-- Whatever fails on the way, and wherever, `migrate` leaves the database as the scripts of the
-- directory make it, up to one of them: in the order of the list each is found recorded with the
-- checksum of its file, or has run whole with its row added, and after one that fails none runs.
-- If `migrate` succeeds it came to the end of the list.
pub migrate-Ran :
    {S : Type 0} (h : Host) (read : String → Result String) (run_sql : String → S → Result S)
    (names : List String) (s : Connection (Schema S))
    → let (r, t) = migrate h read run_sql names s in
      Ran h read run_sql (list_migrations names) (is_ok r) s.committed t.committed
unfolding migrate
migrate-Ran {S} h read run_sql names s =
    let vs = list_migrations names in
    let quiet = autocommit (no_change h read run_sql) in
    let n : Call (Schema S) (Unit {0}) = quiet >> migrate_all h read run_sql vs in
    unlock_after-rule h read run_sql (λ r t. Ran h read run_sql vs (is_ok r) s.committed t)
      (quiet >> n) s
      (then-Ran h read run_sql vs n
        (then-Ran h read run_sql vs (migrate_all h read run_sql vs)
          (migrate_all-Ran h read run_sql vs))
        s)
