-- ===== src/Tests/Migrations.antt =====
-- A directory of two scripts, whose effect is to add their text to a list.
use payment_sim.Migrate.{
  Applied, Schema, list_migrations, select_checksum, run_script, insert_migration, migrate,
}
use payment_sim.Migrate.Run.{Ran, migrate-Ran}
use payment_sim.Migrate.Again.{migrate-migrate, migrate-modified}
use payment_sim.Store.Sql.{
  no_fault, answer_lost, Connection, query, autocommit, begin, commit, rollback, ◌>>=◌, or_rollback,
}
use payment_sim.Store.Sql.Rules.{steady}
use payment_sim.Tests.Samples.{small_host, Differ}
use payment_sim.Prelude.{String, ◌≡◌, refl, false, List, [], ◌∷◌, ◌++◌, Result, throw, ok}
use payment_sim.Store.Tables.{first_where}

abbrev directory : List String
directory = "002_second.sql" ∷ "README.md" ∷ "001_first.sql" ∷ []

abbrev read_name : String → Result String
read_name name = ok name

abbrev add_line : String → List String → Result (List String)
add_line text lines = ok (lines ++ text ∷ [])

abbrev applied_row : String → Applied
applied_row name = record { version = name; checksum = "digest" }

abbrev new_schema : Schema (List String)
new_schema = record { migrations = []; content = [] }

abbrev first_applied : Schema (List String)
first_applied = record {
  migrations = applied_row "001_first.sql" ∷ [];
  content = "001_first.sql" ∷ [];
}

abbrev both_applied : Schema (List String)
both_applied = record {
  migrations = applied_row "001_first.sql" ∷ applied_row "002_second.sql" ∷ [];
  content = "001_first.sql" ∷ "002_second.sql" ∷ [];
}

-- The answer to the COMMIT of the first script is lost.
abbrev lost_commit : Connection (Schema (List String))
lost_commit = record {
  committed = new_schema;
  working = new_schema;
  faults = no_fault ∷ no_fault ∷ no_fault ∷ no_fault ∷ no_fault ∷ no_fault ∷ answer_lost ∷ [];
}

migrate-Ran_example :
    Ran small_host read_name add_line
      ("001_first.sql" ∷ "002_second.sql" ∷ [])
      false
      new_schema
      first_applied
unfolding migrate list_migrations run_script insert_migration select_checksum autocommit query begin
    commit ◌>>=◌ or_rollback first_where rollback
migrate-Ran_example = migrate-Ran small_host read_name add_line directory lost_commit

migrate-migrate_example :
    migrate small_host read_name add_line directory (steady both_applied new_schema)
    ≡ (ok tt, steady both_applied both_applied)
unfolding migrate list_migrations run_script insert_migration select_checksum autocommit query begin
    commit ◌>>=◌ or_rollback first_where
migrate-migrate_example =
    migrate-migrate small_host read_name add_line directory (steady new_schema new_schema)
      new_schema refl

abbrev changed_schema : Schema (List String)
changed_schema = record {
  migrations = record { version = "001_first.sql"; checksum = "another" } ∷ [];
  content = "001_first.sql" ∷ [];
}

digests-Differ : Differ "another" "digest"
digests-Differ = cc

migrate-modified_example :
    migrate small_host read_name add_line directory (steady changed_schema changed_schema)
    ≡ (throw "Applied migration was modified: 001_first.sql", steady changed_schema changed_schema)
unfolding list_migrations first_where
migrate-modified_example =
    migrate-modified small_host read_name add_line directory [] ("002_second.sql" ∷ [])
      "001_first.sql" "001_first.sql" "another" changed_schema changed_schema refl tt refl refl
      digests-Differ
