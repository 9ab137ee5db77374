-- ===== src/Migrate/Laws.antt =====
-- What a run of src/db/migrate.ts leaves behind.
use mathlib.Core.Path.{subst}
use octo_docs_backend.Base.{
  ◌≡◌, ◌∙◌, ap, sym, refl, inl, inr, Bool, true, false, none, some, List, [], ◌∷◌, ◌++◌, map, Text,
  text_eq, text_eq_iff, text_eq_refl, Result, ok, err, Bool-cases, Option-cases, All, arith,
}
use octo_docs_backend.Migrate.Script.{split_sql_statements}
use octo_docs_backend.Migrate.{
  MigrationFile, LedgerRow, Database, MigrationResult, MigrationError, recorded_checksum,
  record_migration, execute, execute_migration_sql, migrate_files, run_migrations, noting,
  applied_one, skipped_one,
}

module _ (succeeds : Text → Bool) where
  execute-ledger :
      (db : Database) (statements : List Text)
      → (execute succeeds db statements).0.ledger ≡ db.ledger
  unfolding execute
  execute-ledger db [] = refl
  execute-ledger db (s ∷ statements) = elim (Bool-cases (succeeds s)) [
    | inl e ↦
        rw (e, execute)
          (execute-ledger (record db { executed = db.executed ++ (s ∷ []) }) statements)
    | inr e ↦ rw (e, execute) refl
  ]

  execute_migration_sql-ledger :
      (db : Database) (f : MigrationFile)
      → (execute_migration_sql succeeds db f).0.ledger ≡ db.ledger
  unfolding execute_migration_sql
  execute_migration_sql-ledger db f = elim (Option-cases (split_sql_statements f.sql)) [
    | inl e ↦ rw (e, execute_migration_sql) refl
    | inr (ss, e) ↦ rw (e, execute_migration_sql) (execute-ledger db ss)
  ]

  noting-db :
      (g : MigrationResult → MigrationResult) (r : Database × Result MigrationError MigrationResult)
      → (noting g r).0 ≡ r.0
  noting-db g (db, ok r) = refl
  noting-db g (db, err e) = refl

  recorded-append :
      (ledger : List LedgerRow) (row : LedgerRow) (name c : Text)
      → recorded_checksum ledger name ≡ some c
      → recorded_checksum (ledger ++ (row ∷ [])) name ≡ some c
  unfolding recorded_checksum
  recorded-append [] row name c h = cc
  recorded-append (r ∷ ledger) row name c h = ground (arith, h, recorded-append ledger row name c)

  recorded_appended :
      (ledger : List LedgerRow) (f : MigrationFile)
      → recorded_checksum ledger f.filename ≡ none
      → recorded_checksum
          (ledger ++ (record { filename = f.filename; checksum = f.checksum } ∷ []))
          f.filename
        ≡ some f.checksum
  unfolding recorded_checksum
  recorded_appended [] f h = rw (text_eq_refl f.filename) refl
  recorded_appended (r ∷ ledger) f h = ground (arith, h, recorded_appended ledger f)

  -- A recorded checksum stays as it is whatever files are migrated, and also when the run fails.
  pub migrate_files-keeps :
      (db : Database) (files : List MigrationFile) (name c : Text)
      → recorded_checksum db.ledger name ≡ some c
      → recorded_checksum (migrate_files succeeds db files).0.ledger name ≡ some c
  unfolding migrate_files record_migration
  migrate_files-keeps db [] name c h = h
  migrate_files-keeps db (f ∷ files) name c h =
      elim (Option-cases (recorded_checksum db.ledger f.filename)) [
        | inr (recorded, e) ↦ elim (Bool-cases (text_eq recorded f.checksum)) [
          | inl k ↦
              rw
                (
                  e,
                  k,
                  migrate_files,
                  noting-db (skipped_one f.filename) (migrate_files succeeds db files),
                )
                (migrate_files-keeps db files name c h)
          | inr k ↦ rw (e, k, migrate_files) h
        ]
        | inl e ↦
            let r = execute_migration_sql succeeds db f in
            let same = execute_migration_sql-ledger db f in
            elim (Option-cases (r.1)) [
              | inr (x, k) ↦ rw (e, k, migrate_files) (rw (same) h)
              | inl k ↦
                  rw
                    (
                      e,
                      k,
                      migrate_files,
                      noting-db (applied_one f.filename)
                          (migrate_files succeeds (record_migration r.0 f) files),
                    )
                    (migrate_files-keeps (record_migration r.0 f) files name c (
                      recorded-append r.0.ledger
                        (record { filename = f.filename; checksum = f.checksum }) name c
                        (rw (same) h)))
            ]
      ]

  -- Every file stands in the ledger with its own checksum.
  abbrev pub IsRecorded : List LedgerRow → List MigrationFile → Type 0
  IsRecorded ledger files = All (λ f. recorded_checksum ledger f.filename ≡ some f.checksum) files

  noting-ok :
      (g : MigrationResult → MigrationResult) (r : Database × Result MigrationError MigrationResult)
      (a : MigrationResult)
      → (noting g r).1 ≡ ok a
      → (b : MigrationResult) × (r.1 ≡ ok b)
  noting-ok g (db, ok r) a h = (r, refl)
  noting-ok g (db, err e) a h = cc

  migrate_files-IsRecorded :
      (db : Database) (files : List MigrationFile) (a : MigrationResult)
      → (migrate_files succeeds db files).1 ≡ ok a
      → IsRecorded ((migrate_files succeeds db files).0.ledger) files
  unfolding migrate_files record_migration
  migrate_files-IsRecorded db [] a h = tt
  migrate_files-IsRecorded db (f ∷ files) a h =
      elim (Option-cases (recorded_checksum db.ledger f.filename)) [
        | inr (recorded, e) ↦ elim (Bool-cases (text_eq recorded f.checksum)) [
          | inl k ↦
              let rest = migrate_files succeeds db files in
              let (b, g) =
                noting-ok (skipped_one f.filename) rest a (rw (e, k, migrate_files) at h) in
              let same_db : (migrate_files succeeds db (f ∷ files)).0 ≡ rest.0 =
                rw (e, k, migrate_files) (noting-db (skipped_one f.filename) rest) in
              subst (λ d. IsRecorded d.ledger (f ∷ files)) (sym same_db)
                (
                  migrate_files-keeps db files f.filename f.checksum
                      (e ∙ ap some ((text_eq_iff recorded f.checksum).0 k)),
                  migrate_files-IsRecorded db files b g,
                )
          | inr k ↦ cc (rw (e, k, migrate_files) at h)
        ]
        | inl e ↦
            let r = execute_migration_sql succeeds db f in
            let same = execute_migration_sql-ledger db f in
            elim (Option-cases (r.1)) [
              | inr (x, k) ↦ cc (rw (e, k, migrate_files) at h)
              | inl k ↦
                  let next = record_migration r.0 f in
                  let rest = migrate_files succeeds next files in
                  let (b, g) =
                    noting-ok (applied_one f.filename) rest a (rw (e, k, migrate_files) at h) in
                  let same_db : (migrate_files succeeds db (f ∷ files)).0 ≡ rest.0 =
                    rw (e, k, migrate_files) (noting-db (applied_one f.filename) rest) in
                  subst (λ d. IsRecorded d.ledger (f ∷ files)) (sym same_db)
                    (
                      migrate_files-keeps next files f.filename f.checksum
                          (recorded_appended r.0.ledger f (rw (same) e)),
                      migrate_files-IsRecorded next files b g,
                    )
            ]
      ]

  migrate_files-skip :
      (db : Database) (files : List MigrationFile)
      → IsRecorded db.ledger files
      → migrate_files succeeds db files
        ≡ (db, ok (record { applied = []; skipped = map (λ f. f.filename) files }))
  unfolding migrate_files
  migrate_files-skip db [] _ = refl
  migrate_files-skip db (f ∷ files) (h, hs) =
      rw (h, text_eq_refl f.checksum, migrate_files, migrate_files-skip db files hs) refl

  -- Once a run has succeeded, a second run of the same files, under a lock that is granted again,
  -- executes nothing: it leaves the database as it is and reports every file as skipped.
  pub run_migrations_again :
      (db : Database) (files : List MigrationFile) (a : MigrationResult)
      → (run_migrations succeeds true db files).1 ≡ ok a
      → let after = (run_migrations succeeds true db files).0 in
        run_migrations succeeds true after files
        ≡ (after, ok (record { applied = []; skipped = map (λ f. f.filename) files }))
  unfolding run_migrations
  run_migrations_again db files a h =
      let r = migrate_files succeeds (record db { locked = true }) files in
      let k = migrate_files-IsRecorded (record db { locked = true }) files a h in
      rw (migrate_files-skip (record (r.0) { locked = true }) files k) refl

  -- Whatever a run does, failures included, the advisory lock is free after it if it was free
  -- before, and no checksum in the ledger changes.
  pub run_migrations-keeps :
      (granted : Bool) (db : Database) (files : List MigrationFile) (name c : Text)
      → db.locked ≡ false
      → recorded_checksum db.ledger name ≡ some c
      → let after = (run_migrations succeeds granted db files).0 in
        (after.locked ≡ false) × (recorded_checksum after.ledger name ≡ some c)
  unfolding run_migrations
  run_migrations-keeps false db files name c h k = (h, k)
  run_migrations-keeps true db files name c h k =
      (refl, migrate_files-keeps (record db { locked = true }) files name c k)
