-- ===== src/Migrate/Bootstrap.antt =====
-- The questions to the database, and `bootstrapExistingDB`.
use ats_proxy_manager.Prelude.{
  ℕ, Bool, true, false, Option, none, some, List, [], ◌∷◌, ◌++◌, leb, ◌==◌, ◌&&◌, not,
  if◌then◌else◌, Str, codes,
}
use ats_proxy_manager.Prelude.Table.{some_row}
use ats_proxy_manager.Migrate.Conn.{
  Applied, Base, Postgres, Action, pure, ◌>>=◌, ◌>>◌, statement, read,
}
use ats_proxy_manager.Migrate.Files.{Migration}

abbrev pub has_version : ℕ → List Applied → Bool
has_version v rows = some_row (λ r. r.version == v) rows

-- `version INTEGER PRIMARY KEY`: 32 bits with a sign.
abbrev pub fits_integer : ℕ → Bool
fits_integer v = leb v 2147483647

abbrev pub created : Option (List Applied) → Option (List Applied)
created none = some []
created (some rows) = some rows

-- What shows that a version was applied before the table was there.
pub record Footprint (S : Type 0) : Type 0 where
  pub version : ℕ
  pub check : Action S Bool

module _ {S : Type 0} where
  -- INSERT INTO schema_migrations.
  abbrev pub insert_row : Option (List Applied) → Applied → Base S → Option (Unit {0} × Base S)
  insert_row none row base = none
  insert_row (some rows) row base =
      if fits_integer row.version && not (has_version row.version rows)
      then some (tt, record base { tracking = some (rows ++ row ∷ []) })
      else none

  unfoldable pub record_version : Applied → Action S (Unit {0})
  record_version row = statement λ base. insert_row base.tracking row base

  -- INSERT ... ON CONFLICT DO NOTHING.
  abbrev pub insert_or_nothing :
      Option (List Applied) → Applied → Base S → Option (Unit {0} × Base S)
  insert_or_nothing none row base = none
  insert_or_nothing (some rows) row base =
      if has_version row.version rows then some (tt, base) else insert_row (some rows) row base

  unfoldable pub record_if_new : Applied → Action S (Unit {0})
  record_if_new row = statement λ base. insert_or_nothing base.tracking row base

  abbrev pub rows_of : Option (List Applied) → Base S → Option (List Applied × Base S)
  rows_of none base = none
  rows_of (some rows) base = some (rows, base)

  -- The map of versions is the list of rows, asked by `has_version`.
  unfoldable pub get_applied_versions : Action S (List Applied)
  get_applied_versions = statement λ base. rows_of base.tracking base

  -- CREATE TABLE IF NOT EXISTS schema_migrations.
  unfoldable pub create_tracking_table : Action S (Unit {0})
  create_tracking_table =
      statement λ base. some (tt, record base { tracking = created base.tracking })

module _ {S : Type 0} (pg : Postgres S) where
  unfoldable pub table_exists : Str → Action S Bool
  table_exists name = read λ base. pg.table_exists name base.schema

  unfoldable pub column_exists : Str → Str → Action S Bool
  column_exists table column = read λ base. pg.column_exists table column base.schema

  unfoldable pub footprints : List (Footprint S)
  unfolding table_exists column_exists
  footprints =
      record { version = 1; check = table_exists (codes "users") }
      ∷ record { version = 2; check = column_exists (codes "proxy_stats") (codes "total_requests") }
      ∷ record { version = 3; check = table_exists (codes "client_acl_rules") }
      ∷ record { version = 4; check = column_exists (codes "proxies") (codes "registered_ip") }
      ∷ record { version = 5; check = column_exists (codes "configs") (codes "default_action") }
      ∷ []

-- `filenames[version]`: a later file with the same version takes the place of an earlier one.
unfoldable pub filename_of : ℕ → List Migration → Option Str
filename_of v [] = none
filename_of v (m ∷ ms) = elim (filename_of v ms) [
  | some name ↦ some name
  | none ↦ if m.version == v then some m.filename else none
]

module _ {S : Type 0} where
  abbrev pub record_found : Bool → Applied → Action S (Unit {0})
  record_found true row = record_if_new row
  record_found false row = pure tt

  abbrev pub bootstrap_one : Option Str → Footprint S → Action S (Unit {0})
  bootstrap_one none fp = pure tt
  bootstrap_one (some filename) fp = do
    exists ← fp.check
    record_found exists (record { version = fp.version; filename = filename })

  unfoldable pub bootstrap_each : List (Footprint S) → List Migration → Action S (Unit {0})
  unfolding filename_of
  bootstrap_each [] migrations = pure tt
  bootstrap_each (fp ∷ fps) migrations = do
    bootstrap_one (filename_of fp.version migrations) fp
    bootstrap_each fps migrations

unfoldable pub bootstrap_existing_db :
    {S : Type 0} → Postgres S → List Migration → Action S (Unit {0})
bootstrap_existing_db pg migrations = bootstrap_each (footprints pg) migrations
