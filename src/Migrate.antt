-- ===== src/Migrate.antt =====
-- src/db/migrate.ts: the migration runner over a database that keeps the ledger table, the advisory
-- lock and the log of what was executed. Whether MySQL grants the lock and whether a statement
-- succeeds are parameters; the checksum of a file is the one that `loadMigrationFiles` computed.
pub mod Script
pub mod Laws
use octo_docs_backend.Base.{
  ℕ, Bool, true, false, Option, none, some, List, [], ◌∷◌, ◌++◌, Text, text_eq, Result, ok, err,
  if◌then◌else◌,
}
use Script.{split_sql_statements}

-- A `MigrationFile`, without its path.
pub record MigrationFile : Type 0 where
  pub filename : Text
  pub checksum : Text
  pub sql : Text

-- A row of `schema_migrations`.
pub record LedgerRow : Type 0 where
  pub filename : Text
  pub checksum : Text

pub record Database : Type 0 where
  pub ledger : List LedgerRow
  pub executed : List Text
  pub locked : Bool

pub record MigrationResult : Type 0 where
  pub applied : List Text
  pub skipped : List Text

pub data MigrationError : Type 0 where
  lock_refused checksum_mismatch open_statement statement_failed : MigrationError

-- `getRecordedChecksum`.
unfoldable pub recorded_checksum : List LedgerRow → Text → Option Text
unfolding text_eq
recorded_checksum [] name = none
recorded_checksum (r ∷ ledger) name =
    if text_eq r.filename name then some r.checksum else recorded_checksum ledger name

-- `recordMigration`.
unfoldable pub record_migration : Database → MigrationFile → Database
record_migration db f = record db {
  ledger = db.ledger ++ (record { filename = f.filename; checksum = f.checksum } ∷ []);
}

abbrev pub applied_one : Text → MigrationResult → MigrationResult
applied_one name r = record r { applied = name ∷ r.applied }

abbrev pub skipped_one : Text → MigrationResult → MigrationResult
skipped_one name r = record r { skipped = name ∷ r.skipped }

abbrev pub noting :
    (MigrationResult → MigrationResult)
    → Database × Result MigrationError MigrationResult
    → Database × Result MigrationError MigrationResult
noting f (db, ok r) = (db, ok (f r))
noting f (db, err e) = (db, err e)

module _ (succeeds : Text → Bool) where
  -- The loop of `executeMigrationSql`: the statements run until one fails.
  unfoldable pub execute : Database → List Text → Database × Bool
  execute db [] = (db, true)
  execute db (s ∷ statements) = elim (succeeds s) [
    | true ↦ execute (record db { executed = db.executed ++ (s ∷ []) }) statements
    | false ↦ (db, false)
  ]

  -- `executeMigrationSql`.
  unfoldable pub execute_migration_sql : Database → MigrationFile → Database × Option MigrationError
  unfolding execute split_sql_statements
  execute_migration_sql db f = elim (split_sql_statements f.sql) [
    | none ↦ (db, some open_statement)
    | some statements ↦
        let r = execute db statements in (r.0, if r.1 then none else some statement_failed)
  ]

  -- The loop over the files, with the names that it pushes on the two lists.
  unfoldable pub migrate_files :
      Database → List MigrationFile → Database × Result MigrationError MigrationResult
  unfolding recorded_checksum record_migration execute_migration_sql text_eq
  migrate_files db [] = (db, ok (record { applied = []; skipped = [] }))
  migrate_files db (f ∷ files) = elim (recorded_checksum db.ledger f.filename) [
    | some recorded ↦ elim (text_eq recorded f.checksum) [
      | true ↦ noting (skipped_one f.filename) (migrate_files db files)
      | false ↦ (db, err checksum_mismatch)
    ]
    | none ↦
        let r = execute_migration_sql db f in
        elim (r.1) [
          | some e ↦ (r.0, err e)
          | none ↦ noting (applied_one f.filename) (migrate_files (record_migration r.0 f) files)
        ]
  ]

  -- `runMigrations`: the lock is released on every path.
  unfoldable pub run_migrations :
      Bool → Database → List MigrationFile → Database × Result MigrationError MigrationResult
  unfolding migrate_files
  run_migrations false db files = (db, err lock_refused)
  run_migrations true db files =
      let r = migrate_files (record db { locked = true }) files in
      (record (r.0) { locked = false }, r.1)
