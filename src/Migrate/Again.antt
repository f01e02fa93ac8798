-- ===== src/Migrate/Again.antt =====
-- A second run of the migrations.
use Prim.Native.String
use mathlib.Core.List.{append-nil}
use payment_sim.Migrate.Script.{IsRecorded}
use payment_sim.Migrate.{
  Applied, Schema, list_migrations, has_version, checksum_of, recorded_checksum, select_checksum,
  migrate_one, migrate, unless_applied, migrate_all,
}
use payment_sim.Migrate.Run.{skipped, is_ok, Ran, finished, stopped, applied, migrate-Ran}
use payment_sim.Value.{Host}
use payment_sim.Store.Sql.{Connection, autocommit, ◌>>=◌}
use payment_sim.Store.Sql.Rules.{steady}
use payment_sim.Store.Tables.{first_where}
use payment_sim.Store.Save.Inserts.{first_where-append}
use payment_sim.Prelude.{
  String, ◌≡◌, refl, sym, ap, ◌∙◌, subst, ◌≢◌, inl, inr, Bool, true, false, none, some, List, [],
  ◌∷◌, ◌++◌, arith, ◌==◌, eq_iff, eq_refl, Bool-cases, Option-cases, all, All, Result, throw, ok,
}

-- The first row that fits, in a longer table.
first_where-append-some :
    (p : Applied → Bool) (xs ys : List Applied) (a : Applied)
    → first_where p xs ≡ some a
    → first_where p (xs ++ ys) ≡ some a
unfolding first_where
first_where-append-some p [] ys a e = cc
first_where-append-some p (x ∷ xs) ys a e =
    let ih = first_where-append-some p xs ys a in
    elim (Bool-cases (p x)) [ inl t ↦ ground arith | inr f ↦ rw f (ih (rw f at e)) ]

none-some : (c : String) → none ≡ some c → ⊥
none-some c e = cc

recorded_checksum-append :
    (v sum : String) (rows : List Applied) (row : Applied)
    → recorded_checksum v rows ≡ some sum
    → recorded_checksum v (rows ++ row ∷ []) ≡ some sum
recorded_checksum-append v sum rows row e = elim (Option-cases (first_where (has_version v) rows)) [
  | inl missing ↦ absurd (none-some sum (sym (ap checksum_of missing) ∙ e))
  | inr (a, found) ↦
      ap checksum_of (first_where-append-some (has_version v) rows (row ∷ []) a found)
      ∙ sym (ap checksum_of found)
      ∙ e
]

recorded_checksum-new :
    (v sum : String) (rows : List Applied)
    → recorded_checksum v rows ≡ none
    → recorded_checksum v (rows ++ record { version = v; checksum = sum } ∷ []) ≡ some sum
recorded_checksum-new v sum rows e = elim (Option-cases (first_where (has_version v) rows)) [
  | inl missing ↦ ap checksum_of (
      first_where-append (has_version v) rows (record { version = v; checksum = sum }) missing
        (eq_refl v))
  | inr (a, found) ↦ absurd (none-some a.checksum (sym e ∙ ap checksum_of found))
]

module _ {S : Type 0} (h : Host) (read : String → Result String)
    (run_sql : String → S → Result S) where
  -- A row that is there stays, whatever scripts run.
  recorded_stays :
      (v sum : String) (vs : List String) (b : Bool) (s t : Schema S)
      → Ran h read run_sql vs b s t
      → recorded_checksum v s.migrations ≡ some sum
      → recorded_checksum v t.migrations ≡ some sum
  recorded_stays v sum vs b s t finished e = e
  recorded_stays v sum vs b s t stopped e = e
  recorded_stays v sum vs b s t (skipped {vs = rest} known ran) e =
      recorded_stays v sum rest b s t ran e
  recorded_stays v sum vs b s t (applied {vs = rest} {s' = s'} one ran) e =
      recorded_stays v sum rest b s' t ran
        (rw one.row (recorded_checksum-append v sum s.migrations _ e))

  -- After a run to the end, all are recorded.
  Ran-IsRecorded :
      (vs : List String) (s t : Schema S)
      → Ran h read run_sql vs true s t
      → All (λ v. IsRecorded h read run_sql v t) vs
  Ran-IsRecorded vs s t finished = tt
  Ran-IsRecorded vs s t (skipped {v = v} {vs = rest} known ran) = (
    record {
      sql = known.sql;
      file = known.file;
      same = recorded_stays v (h.sha256 known.sql) rest true s t ran known.same;
    },
    Ran-IsRecorded rest s t ran,
  )
  Ran-IsRecorded vs s t (applied {v = v} {vs = rest} {s' = s'} one ran) = (
    record {
      sql = one.sql;
      file = one.file;
      same =
          recorded_stays v (h.sha256 one.sql) rest true s' t ran
            (rw one.row (recorded_checksum-new v (h.sha256 one.sql) s.migrations one.new));
    },
    Ran-IsRecorded rest s' t ran,
  )

module _ {S : Type 0} (h : Host) (read : String → Result String)
    (run_sql : String → S → Result S) where
  migrate_one-recorded :
      (v : String) (db w : Schema S)
      → IsRecorded h read run_sql v db
      → migrate_one h read run_sql v (steady db w) ≡ (ok tt, steady db db)
  unfolding migrate_one autocommit select_checksum unless_applied ◌>>=◌
  migrate_one-recorded v db w known = rw (known.file, known.same, eq_refl (h.sha256 known.sql)) refl

  migrate_one-modified :
      (v sql sum : String) (db w : Schema S)
      → read v ≡ ok sql
      → recorded_checksum v db.migrations ≡ some sum
      → sum ≢ h.sha256 sql
      → migrate_one h read run_sql v (steady db w)
        ≡ (throw (String.◌++◌ "Applied migration was modified: " v), steady db db)
  unfolding migrate_one autocommit select_checksum unless_applied ◌>>=◌
  migrate_one-modified v sql sum db w file found differ =
      let other : (sum == h.sha256 sql) ≡ false = ground (arith, eq_iff sum (h.sha256 sql)) in
      rw (file, found, other) refl

  migrate_all-recorded :
      (vs ws : List String) (db : Schema S)
      → All (λ v. IsRecorded h read run_sql v db) vs
      → migrate_all h read run_sql (vs ++ ws) (steady db db)
        ≡ migrate_all h read run_sql ws (steady db db)
  unfolding migrate_all ◌>>=◌
  migrate_all-recorded [] ws db all = refl
  migrate_all-recorded (v ∷ vs) ws db all =
      rw (migrate_one-recorded v db db all.0) (migrate_all-recorded vs ws db all.1)

  migrate_all-modified :
      (v sql sum : String) (vs : List String) (db : Schema S)
      → read v ≡ ok sql
      → recorded_checksum v db.migrations ≡ some sum
      → sum ≢ h.sha256 sql
      → migrate_all h read run_sql (v ∷ vs) (steady db db)
        ≡ (throw (String.◌++◌ "Applied migration was modified: " v), steady db db)
  unfolding migrate_all ◌>>=◌
  migrate_all-modified v sql sum vs db file found differ =
      rw (migrate_one-modified v sql sum db db file found differ) refl

  -- the two statements before the loop, and the unlock after it
  migrate-steady :
      (names : List String) (db w : Schema S) (r : Result (Unit {0}))
      → migrate_all h read run_sql (list_migrations names) (steady db db) ≡ (r, steady db db)
      → migrate h read run_sql names (steady db w) ≡ (r, steady db db)
  unfolding migrate autocommit ◌>>=◌
  migrate-steady names db w r e = rw e refl

-- After a run that succeeds, a run with the same files succeeds and changes nothing.
pub migrate-migrate :
    {S : Type 0} (h : Host) (read : String → Result String) (run_sql : String → S → Result S)
    (names : List String) (s : Connection (Schema S)) (w : Schema S)
    → (migrate h read run_sql names s).0 ≡ ok tt
    → let db = (migrate h read run_sql names s).1.committed in
      migrate h read run_sql names (steady db w) ≡ (ok tt, steady db db)
unfolding migrate_all
migrate-migrate {S} h read run_sql names s w done =
    let db = (migrate h read run_sql names s).1.committed in
    let vs = list_migrations names in
    let ran : Ran h read run_sql vs true s.committed db =
      subst (λ r. Ran h read run_sql vs (is_ok r) s.committed db) done
        (migrate-Ran h read run_sql names s) in
    migrate-steady h read run_sql names db w (ok tt) (
      subst (λ l. migrate_all h read run_sql l (steady db db) ≡ (ok tt, steady db db))
        (append-nil vs)
        (migrate_all-recorded h read run_sql vs [] db
          (Ran-IsRecorded h read run_sql vs s.committed db ran)))

-- When every script before it is recorded and its file unmodified, a recorded script whose file has
-- another checksum is an error that names it, and nothing changes: neither it nor a later script runs.
pub migrate-modified :
    {S : Type 0} (h : Host) (read : String → Result String) (run_sql : String → S → Result S)
    (names earlier later : List String) (v sql sum : String) (db w : Schema S)
    → list_migrations names ≡ earlier ++ v ∷ later
    → All (λ u. IsRecorded h read run_sql u db) earlier
    → read v ≡ ok sql
    → recorded_checksum v db.migrations ≡ some sum
    → sum ≢ h.sha256 sql
    → migrate h read run_sql names (steady db w)
      ≡ (throw (String.◌++◌ "Applied migration was modified: " v), steady db db)
migrate-modified h read run_sql names earlier later v sql sum db w split all file found differ =
    migrate-steady h read run_sql names db w _ (
      rw split (
        migrate_all-recorded h read run_sql earlier (v ∷ later) db all
        ∙ migrate_all-modified h read run_sql v sql sum later db file found differ))
