-- ===== src/Migrate/Script.antt =====
-- The transaction of one script of db/migrate.js: all of it, or nothing.
use payment_sim.Migrate.{
  Schema, recorded_checksum, select_checksum, run_script, insert_migration, unless_applied,
  migrate_one, apply_migration,
}
use payment_sim.Value.{Host}
use payment_sim.Store.Sql.{Connection, query, autocommit, begin, commit, lift}
use payment_sim.Store.Sql.Rules.{
  >>=-rule, committed-query, query-eq-ok, autocommit-eq-ok, autocommit-rule, committed-begin,
  begin-eq-ok, commit-eq-ok, committed-commit, or_rollback-rule,
}
use payment_sim.Store.Save.Inserts.{ok_pair}
use payment_sim.Prelude.{
  String, ◌≡◌, refl, sym, ap, ◌∙◌, subst, ◌⊎◌, inl, inr, Option, none, some, [], ◌∷◌, ◌++◌, arith,
  ◌==◌, eq_iff, Bool-cases, Result, throw, ok,
}

module _ {S : Type 0} (h : Host) (read : String → Result String)
    (run_sql : String → S → Result S) where
  -- The script of `v` ran, and its row was added.
  pub record IsApplied (v : String) (s t : Schema S) : Type 0 where
    pub sql : String
    pub file : read v ≡ ok sql
    pub new : recorded_checksum v s.migrations ≡ none
    pub ran : run_sql sql s.content ≡ ok t.content
    pub row : t.migrations ≡ s.migrations ++ record { version = v; checksum = h.sha256 sql } ∷ []

  -- The row of `v` has the checksum of the file.
  pub record IsRecorded (v : String) (s : Schema S) : Type 0 where
    pub sql : String
    pub file : read v ≡ ok sql
    pub same : recorded_checksum v s.migrations ≡ some (h.sha256 sql)

  -- one script: nothing, or all of it
  abbrev pub One : String → Schema S → Result (Unit {0}) → Schema S → Type 0
  One v s (ok u) t = IsRecorded v s × (t ≡ s) ⊎ IsApplied v s t
  One v s (throw e) t = (t ≡ s) ⊎ IsApplied v s t

module _ {S : Type 0} (h : Host) (read : String → Result String)
    (run_sql : String → S → Result S) where
  run_script-ran :
      (sql : String) (db db' : Schema S)
      → run_script h read run_sql sql db ≡ ok (tt, db')
      → (run_sql sql db.content ≡ ok db'.content) × (db'.migrations ≡ db.migrations)
  unfolding run_script
  run_script-ran sql db db' = ran (run_sql sql db.content)
    where
      ran :
          (r : Result S)
          → elim r as (λ _. Result (Unit {0} × Schema S)) [
            | throw e ↦ throw e
            | ok content ↦ ok (tt, record db { content = content })
          ]
            ≡ ok (tt, db')
          → (r ≡ ok db'.content) × (db'.migrations ≡ db.migrations)
      ran (throw e) p = cc
      ran (ok content) p = ground arith

  insert_migration-ran :
      (v sum : String) (db db' : Schema S)
      → insert_migration h read run_sql v sum db ≡ ok (tt, db')
      → (db'.migrations ≡ db.migrations ++ record { version = v; checksum = sum } ∷ [])
        × (db'.content ≡ db.content)
  unfolding insert_migration
  insert_migration-ran v sum db db' p = ground arith

  -- COMMIT, after all statements of the transaction.
  commit-One :
      (v : String) (old : Schema S) (s : Connection (Schema S))
      → s.committed ≡ old
      → IsApplied h read run_sql v old s.working
      → One h read run_sql v old (commit s).0 (commit s).1.committed
  commit-One v old s same done =
      go (commit s).0 (commit s).1.committed (commit-eq-ok s) (committed-commit s)
    where
      all_of : (db : Schema S) → db ≡ s.working → IsApplied h read run_sql v old db
      all_of db p = subst (IsApplied h read run_sql v old) (sym p) done

      go :
          (r : Result (Unit {0})) (db : Schema S)
          → (r ≡ ok tt → db ≡ s.working)
          → (db ≡ s.committed) ⊎ (db ≡ s.working)
          → One h read run_sql v old r db
      go (ok u) db took left = inr (all_of db (took refl))
      go (throw e) db took (inl p) = inl (p ∙ same)
      go (throw e) db took (inr p) = inr (all_of db p)

module _ {S : Type 0} (h : Host) (read : String → Result String) (run_sql : String → S → Result S)
    (v sql : String) (file : read v ≡ ok sql) (old : Schema S) where
  statements-IsApplied :
      (db1 db2 db3 : Schema S)
      → db1 ≡ old
      → recorded_checksum v old.migrations ≡ none
      → run_script h read run_sql sql db1 ≡ ok (tt, db2)
      → insert_migration h read run_sql v (h.sha256 sql) db2 ≡ ok (tt, db3)
      → IsApplied h read run_sql v old db3
  statements-IsApplied db1 db2 db3 began new q1 q2 =
      let (ran, rows1) = run_script-ran h read run_sql sql db1 db2 q1 in
      let (rows2, kept) = insert_migration-ran h read run_sql v (h.sha256 sql) db2 db3 q2 in
      record {
        sql = sql;
        file = file;
        new = new;
        ran = ap (λ (d : Schema S). run_sql sql d.content) (sym began) ∙ ran ∙ ap ok (sym kept);
        row =
            rows2
            ∙ ap (λ ms. ms ++ record { version = v; checksum = h.sha256 sql } ∷ [])
                (rows1 ∙ ap (λ (d : Schema S). d.migrations) began);
      }

  -- The transaction of one script, from BEGIN on.
  apply_migration-One :
      (s : Connection (Schema S))
      → s.committed ≡ old
      → recorded_checksum v old.migrations ≡ none
      → One h read run_sql v old
          (apply_migration h read run_sql v sql s).0
          (apply_migration h read run_sql v sql s).1.committed
  unfolding apply_migration
  apply_migration-One s same new =
      let P : Result (Unit {0}) → Connection (Schema S) → Type 0 =
        λ r t. One h read run_sql v old r t.committed in
      let script = run_script h read run_sql sql in
      let insert = insert_migration h read run_sql v (h.sha256 sql) in
      >>=-rule P begin _ s (λ e _. inl (committed-begin s ∙ same))
        λ u began.
          or_rollback-rule (λ r db. One h read run_sql v old r db) _ (begin s).1 (λ e e' db p. p)
            (let s1 : Connection (Schema S) = (begin s).1 in
              let kept : s1.committed ≡ old = committed-begin s ∙ same in
              >>=-rule P (query script) _ s1 (λ e _. inl (committed-query script s1 ∙ kept))
                λ u1 q1.
                  let s2 : Connection (Schema S) = (query script s1).1 in
                  let kept2 : s2.committed ≡ old = committed-query script s1 ∙ kept in
                  >>=-rule P (query insert) _ s2 (λ e _. inl (committed-query insert s2 ∙ kept2))
                    λ u2 q2.
                      commit-One h read run_sql v old (query insert s2).1
                        (committed-query insert s2 ∙ kept2)
                        (statements-IsApplied s1.working s2.working (query insert s2).1.working
                          (begin-eq-ok s began ∙ same) new (query-eq-ok script s1 tt q1)
                          (query-eq-ok insert s2 tt q2)))

  -- The recorded checksum decides.
  unless_applied-One :
      (s : Connection (Schema S)) (existing : Option String)
      → s.committed ≡ old
      → recorded_checksum v old.migrations ≡ existing
      → One h read run_sql v old
          (unless_applied h read run_sql v sql existing s).0
          (unless_applied h read run_sql v sql existing s).1.committed
  unfolding unless_applied
  unless_applied-One s none same found = apply_migration-One s same found
  unless_applied-One s (some sum) same found = elim (Bool-cases (sum == h.sha256 sql)) [
    | inl e ↦ rw e (
        inl (
          record {
            sql = sql;
            file = file;
            same = found ∙ ap some ((eq_iff sum (h.sha256 sql)).0 e);
          },
          same,
        ))
    | inr e ↦ rw e (inl same)
  ]

module _ {S : Type 0} (h : Host) (read : String → Result String)
    (run_sql : String → S → Result S) where
  pub committed-autocommit :
      {A : Type 0} (q : Schema S → Result (A × Schema S)) (s : Connection (Schema S))
      → ((a : A) (db : Schema S) → q s.committed ≡ ok (a, db) → db ≡ s.committed)
      → (autocommit q s).1.committed ≡ s.committed
  committed-autocommit q s keep = autocommit-rule (λ db. db ≡ s.committed) q s refl keep

  pub migrate_one-One :
      (v : String) (s : Connection (Schema S))
      → One h read run_sql v s.committed
          (migrate_one h read run_sql v s).0
          (migrate_one h read run_sql v s).1.committed
  unfolding migrate_one select_checksum
  migrate_one-One v s =
      let P : Result (Unit {0}) → Connection (Schema S) → Type 0 =
        λ r t. One h read run_sql v s.committed r t.committed in
      let look = select_checksum h read run_sql v in
      let kept : (autocommit look s).1.committed ≡ s.committed =
        committed-autocommit look s (λ a db p. cc) in
      >>=-rule P (lift (read v)) _ s (λ e _. inl refl)
        λ sql file.
          >>=-rule P (autocommit look) _ s (λ e _. inl kept)
            λ existing q.
              unless_applied-One h read run_sql v sql file s.committed (autocommit look s).1
                existing kept (sym (ok_pair _ _ (autocommit-eq-ok look s existing q)).0)
