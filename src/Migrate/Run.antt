-- ===== src/Migrate/Run.antt =====
-- `Run`. The advisory lock stands for itself: one run at a time.
use ats_proxy_manager.Prelude.{
  ℕ, Bool, true, false, Option, none, some, List, [], ◌∷◌, if◌then◌else◌, Str, codes,
}
use ats_proxy_manager.Repository.Order.{PriorityOrder}
use ats_proxy_manager.Migrate.Conn.{
  Applied, Base, Postgres, Action, pure, ◌>>=◌, ◌>>◌, statement, read, transaction,
}
use ats_proxy_manager.Migrate.Files.{Migration, Entry, load_migrations}
use ats_proxy_manager.Migrate.Bootstrap.{
  has_version, record_version, get_applied_versions, create_tracking_table, table_exists,
  bootstrap_existing_db,
}

abbrev pub applied_row : Migration → Applied
applied_row m = record { version = m.version; filename = m.filename }

-- A missing value is an error.
unfoldable pub or_fail : {S A : Type 0} → Option A → Action S A
or_fail none c = (none, c)
or_fail (some a) c = (some a, c)

module _ {S : Type 0} (pg : Postgres S) where
  abbrev pub executed : Option S → Base S → Option (Unit {0} × Base S)
  executed none base = none
  executed (some schema) base = some (tt, record base { schema = schema })

  -- tx.Exec(m.SQL).
  unfoldable pub exec_sql : Str → Action S (Unit {0})
  exec_sql sql = statement λ base. executed (pg.exec sql base.schema) base

  -- One migration and its row, in one transaction.
  unfoldable pub apply_one : Migration → Action S (Unit {0})
  apply_one m = transaction (do exec_sql m.sql; record_version (applied_row m))

  -- The loop. What is applied already was read before it.
  unfoldable pub apply_pending : List Applied → List Migration → Action S (Unit {0})
  apply_pending applied [] = pure tt
  apply_pending applied (m ∷ ms) =
      if has_version m.version applied
      then apply_pending applied ms
      else (do apply_one m; apply_pending applied ms)

  -- A database that was there before the tracking table.
  abbrev pub bootstrap_if : Bool → List Migration → Action S (List Applied)
  bootstrap_if false migrations = pure []
  bootstrap_if true migrations = do bootstrap_existing_db pg migrations; get_applied_versions

  unfoldable pub or_bootstrap : List Applied → List Migration → Action S (List Applied)
  or_bootstrap [] migrations = do
    exists ← table_exists pg (codes "users")
    bootstrap_if exists migrations
  or_bootstrap (r ∷ rows) migrations = pure (r ∷ rows)

  unfoldable pub migrate : List Migration → Action S (Unit {0})
  migrate [] = pure tt
  migrate (m ∷ ms) = do
    applied ← get_applied_versions
    known ← or_bootstrap applied (m ∷ ms)
    apply_pending known (m ∷ ms)

  -- Acquire, lock, create the table, load the files, then migrate.
  unfoldable pub run : (Str → Option ℕ) → PriorityOrder → Option (List Entry) → Action S (Unit {0})
  run atoi order entries = do
    read (λ _. tt)
    read (λ _. tt)
    create_tracking_table
    migrations ← or_fail (load_migrations atoi order entries)
    migrate migrations
