-- ===== src/Migrate.antt =====
-- db/migrate.js. What a script does to the schema is the database's; the files are given by their
-- names and contents.
pub mod Script
pub mod Run
pub mod Again
use payment_sim.Value.{Host}
use payment_sim.Sensitive.{is_digit}
use payment_sim.RequestHash.{key_le}
use payment_sim.Store.Sql.{Call, query, autocommit, begin, commit, lift, ◌>>=◌, ◌>>◌, or_rollback}
use payment_sim.Store.Tables.{first_where, is_some}
use payment_sim.Prelude.{
  ℕ, String, Bool, false, not, ◌&&◌, ◌||◌, Option, none, some, List, [], ◌∷◌, ◌++◌, map, ◌==◌, leb,
  eqb, if◌then◌else◌, all, select, Result, throw, ok, throw_if,
}
use Prim.Native.Char.{code}
use Prim.Native.String

-- A row of `schema_migrations`.
pub record Applied : Type 0 where
  pub version : String
  pub checksum : String

-- The table, which is empty until it is created, and all else in the database.
pub record Schema (S : Type 0) : Type 0 where
  pub migrations : List Applied
  pub content : S

-- `[a-z0-9_]`
abbrev pub is_name_char : ℕ → Bool
is_name_char n = leb b'a' n && leb n b'z' || leb b'0' n && leb n b'9' || eqb n b'_'

-- `[a-z0-9_]*\.sql$`
unfoldable pub is_name_end : String → Bool
is_name_end String.[] = false
is_name_end (String.◌∷◌ c s) =
    let rest = is_name_end s in if is_name_char (code c) then rest else String.◌∷◌ c s == ".sql"

-- `[a-z0-9_]+\.sql$`
unfoldable pub is_name : String → Bool
unfolding is_name_end
is_name String.[] = false
is_name (String.◌∷◌ c s) = is_name_char (code c) && is_name_end s

-- `\d*_[a-z0-9_]+\.sql$`
unfoldable pub is_numbered : String → Bool
unfolding is_name
is_numbered String.[] = false
is_numbered (String.◌∷◌ c s) =
    let rest = is_numbered s in if is_digit c then rest else eqb (code c) b'_' && is_name s

-- `/^\d+_[a-z0-9_]+\.sql$/.test(name)`
unfoldable pub is_migration : String → Bool
unfolding is_numbered
is_migration String.[] = false
is_migration (String.◌∷◌ c s) = is_digit c && is_numbered s

-- `names.sort()`
unfoldable pub insert_name : String → List String → List String
unfolding key_le
insert_name n [] = n ∷ []
insert_name n (m ∷ ms) = let rest = insert_name n ms in if key_le n m then n ∷ m ∷ ms else m ∷ rest

unfoldable pub sort_names : List String → List String
unfolding insert_name
sort_names [] = []
sort_names (n ∷ ns) = insert_name n (sort_names ns)

-- `listMigrations`, of the names in the directory
unfoldable pub list_migrations : List String → List String
unfolding is_migration sort_names
list_migrations names = sort_names (select is_migration names)

abbrev pub has_version : String → Applied → Bool
has_version v a = a.version == v

abbrev pub checksum_of : Option Applied → Option String
checksum_of none = none
checksum_of (some a) = some a.checksum

abbrev pub recorded_checksum : String → List Applied → Option String
recorded_checksum v rows = checksum_of (first_where (has_version v) rows)

-- `finally { await UNLOCK.catch(() => {}); }`: the error of the unlock is dropped
abbrev pub unlock_after : {D A : Type 0} → Call D (Unit {0}) → Call D A → Call D A
unlock_after unlock m s = let (r, s') = m s in (r, (unlock s').1)

module _ {S : Type 0} (h : Host) (read : String → Result String)
    (run_sql : String → S → Result S) where
  -- a statement that changes nothing that is modelled: the advisory lock, CREATE TABLE IF NOT EXISTS
  abbrev no_change : Schema S → Result (Unit {0} × Schema S)
  no_change db = ok (tt, db)

  -- SELECT checksum FROM schema_migrations WHERE version = $1
  unfoldable pub select_checksum : String → Schema S → Result (Option String × Schema S)
  select_checksum v db = ok (recorded_checksum v db.migrations, db)

  -- the statements of the script
  unfoldable pub run_script : String → Schema S → Result (Unit {0} × Schema S)
  run_script sql db = elim (run_sql sql db.content) [
    | throw e ↦ throw e
    | ok content ↦ ok (tt, record db { content = content })
  ]

  -- INSERT INTO schema_migrations; the version is its primary key
  unfoldable pub insert_migration : String → String → Schema S → Result (Unit {0} × Schema S)
  insert_migration v sum db =
      if is_some (first_where (has_version v) db.migrations)
      then throw "duplicate key value violates unique constraint \"schema_migrations_pkey\""
      else ok (
        tt,
        record db { migrations = db.migrations ++ record { version = v; checksum = sum } ∷ [] },
      )

  -- the transaction that applies one script
  apply_migration : String → String → Call (Schema S) (Unit {0})
  apply_migration v sql = do
    begin
    or_rollback (do query (run_script sql); query (insert_migration v (h.sha256 sql)); commit)

  -- what follows the look at the recorded checksum
  unless_applied : String → String → Option String → Call (Schema S) (Unit {0})
  unless_applied v sql none = apply_migration v sql
  unless_applied v sql (some sum) =
      lift (throw_if (not (sum == h.sha256 sql)) (String.◌++◌ "Applied migration was modified: " v))

  -- the body of the loop
  pub migrate_one : String → Call (Schema S) (Unit {0})
  migrate_one v = do
    sql ← lift (read v)
    existing ← autocommit (select_checksum v)
    unless_applied v sql existing

  migrate_all : List String → Call (Schema S) (Unit {0})
  migrate_all [] = lift (ok tt)
  migrate_all (v ∷ vs) = do migrate_one v; migrate_all vs

  -- `migrate`, for the names in the directory
  unfoldable pub migrate : List String → Call (Schema S) (Unit {0})
  unfolding migrate_all migrate_one unless_applied apply_migration
  migrate names =
      unlock_after (autocommit no_change)
        (do autocommit no_change; autocommit no_change; migrate_all (list_migrations names))
