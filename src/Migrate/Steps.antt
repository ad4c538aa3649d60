-- ===== src/Migrate/Steps.antt =====
-- What backend/internal/migrate/migrate.go may do to a database, and that a run does no more.
use ats_proxy_manager.Prelude.{
  ℕ, Bool, true, false, not, Option, none, some, List, [], ◌∷◌, ◌++◌, ◌&&◌, ◌≡◌, refl, arith, subst,
  sym, ◌∙◌, Str, Bool-cases, inl, inr, if◌then◌else◌,
}
use ats_proxy_manager.Repository.Order.{PriorityOrder}
use ats_proxy_manager.Laws.Validation.{Each}
use ats_proxy_manager.Migrate.Conn.{Applied, Base, Conn, Postgres, Action}
use ats_proxy_manager.Migrate.Files.{Migration, Entry}
use ats_proxy_manager.Migrate.Bootstrap.{
  Footprint, has_version, fits_integer, insert_row, insert_or_nothing, record_version,
  record_if_new, record_found, bootstrap_one, bootstrap_each, bootstrap_existing_db, footprints,
  table_exists, column_exists, filename_of, get_applied_versions, create_tracking_table, rows_of,
  created,
}
use ats_proxy_manager.Migrate.Run.{
  applied_row, exec_sql, executed, apply_one, apply_pending, or_bootstrap, bootstrap_if, migrate,
  run, or_fail,
}
use ats_proxy_manager.Migrate.Conn.{read}
use ats_proxy_manager.Migrate.Logic.{
  Answer, Holds, Holds-pure, Holds-statement, Holds-transaction, Holds-bind, Holds-both,
}

-- One step: the tracking table is created; a migration that has no row is executed and gets its row
-- at once; or a version that has no row gets one.
pub data Step {S : Type 0} (pg : Postgres S) (b : Base S) (b' : Base S) : Type 0 where
  table_created : b.tracking ≡ none → b' ≡ record b { tracking = some [] } → Step pg b b'
  migrated :
      (m : Migration) (rows : List Applied) (schema : S)
      → b.tracking ≡ some rows
      → has_version m.version rows ≡ false
      → pg.exec m.sql b.schema ≡ some schema
      → b' ≡ record { schema = schema; tracking = some (rows ++ applied_row m ∷ []) }
      → Step pg b b'
  noted :
      (row : Applied) (rows : List Applied)
      → b.tracking ≡ some rows
      → has_version row.version rows ≡ false
      → b' ≡ record b { tracking = some (rows ++ row ∷ []) }
      → Step pg b b'

pub data Steps {S : Type 0} (pg : Postgres S) (from : Base S) : Base S → Type 0 where
  here : Steps pg from from
  next : {b b' : Base S} → Steps pg from b → Step pg b b' → Steps pg from b'

new_of : (b c : Bool) → (b && not c) ≡ true → c ≡ false
new_of b c h = ground arith

module _ {S : Type 0} (pg : Postgres S) (from : Base S) where
  -- After the file, before its row.
  abbrev Executed : Str → Base S → Type 0
  Executed sql b =
      (b0 : Base S) × (Steps pg from b0
        × ((pg.exec sql b0.schema ≡ some b.schema) × (b.tracking ≡ b0.tracking)))

  exec-Executed :
      (sql : Str) → Holds (Steps pg from) (exec_sql pg sql) (λ _. Unit {0}) (λ _. Executed sql)
  unfolding exec_sql
  exec-Executed sql =
      Holds-statement _ (λ b s. tt) (λ b s. of_schema b s (pg.exec sql b.schema) refl)
    where
      of_schema :
          (b : Base S)
          → Steps pg from b
          → (o : Option S) → pg.exec sql b.schema ≡ o
          → Answer (λ _. Executed sql) (executed pg o b)
      of_schema b s none e = tt
      of_schema b s (some schema) e = (b, (s, (e, refl)))

  row-Steps :
      (m : Migration)
      → Holds (Executed m.sql) (record_version (applied_row m)) (λ _. Unit {0}) (λ _. Steps pg from)
  unfolding record_version
  row-Steps m = Holds-statement _ (λ b s. tt) (λ b s. of_rows b s b.tracking refl)
    where
      of_rows :
          (b : Base S)
          → Executed m.sql b
          → (o : Option (List Applied)) → b.tracking ≡ o
          → Answer (λ _. Steps pg from) (insert_row o (applied_row m) b)
      of_rows b s none e = tt
      of_rows b (b0, (s, (x, t))) (some rows) e =
          elim (Bool-cases (fits_integer m.version && not (has_version m.version rows))) [
            | inl fine ↦ rw fine (
                next s (
                  migrated m rows b.schema (sym t ∙ e) (new_of (fits_integer m.version) _ fine) x
                    refl))
            | inr refused ↦ rw refused tt
          ]

  apply_one-Steps :
      (m : Migration) → Holds (Steps pg from) (apply_one pg m) (Steps pg from) (λ _. Steps pg from)
  unfolding apply_one
  apply_one-Steps m =
      Holds-transaction _ (λ b s. s) (Holds-bind _ _ (exec-Executed m.sql) λ _. row-Steps m)

  apply_pending-Steps :
      (applied : List Applied) (ms : List Migration)
      → Holds (Steps pg from) (apply_pending pg applied ms) (Steps pg from) (λ _. Steps pg from)
  unfolding apply_pending
  apply_pending-Steps applied [] = Holds-pure tt (λ b s. s)
  apply_pending-Steps applied (m ∷ ms) = elim (Bool-cases (has_version m.version applied)) [
    | inl old ↦ rw old (apply_pending-Steps applied ms)
    | inr new ↦ rw new (Holds-bind _ _ (apply_one-Steps m) λ _. apply_pending-Steps applied ms)
  ]

  noted-Steps :
      (row : Applied)
      → Holds (Steps pg from) (record_if_new row) (Steps pg from) (λ _. Steps pg from)
  unfolding record_if_new
  noted-Steps row = Holds-statement _ (λ b s. s) (λ b s. of_rows b s b.tracking refl)
    where
      of_new :
          (b : Base S)
          → Steps pg from b
          → (rows : List Applied) → b.tracking ≡ some rows
          → has_version row.version rows ≡ false
          → (fits : Bool)
          → Answer
              (λ _. Steps pg from)
              (if fits then some (tt, record b { tracking = some (rows ++ row ∷ []) }) else none)
      of_new b s rows e n true = next s (noted row rows e n refl)
      of_new b s rows e n false = tt

      of_rows :
          (b : Base S)
          → Steps pg from b
          → (o : Option (List Applied)) → b.tracking ≡ o
          → Answer (λ _. Steps pg from) (insert_or_nothing o row b)
      of_rows b s none e = tt
      of_rows b s (some rows) e = elim (Bool-cases (has_version row.version rows)) [
        | inl old ↦ rw old s
        | inr new ↦ rw new (of_new b s rows e new (fits_integer row.version && not false))
      ]

  -- An action that only reads.
  abbrev Quiet : {A : Type 0} → Action S A → Type 0
  Quiet m = Holds (Steps pg from) m (Steps pg from) (λ _. Steps pg from)

  read-Quiet : {A : Type 0} (g : Base S → A) → Quiet (read g)
  unfolding read
  read-Quiet g = Holds-statement _ (λ b s. s) (λ b s. s)

  bootstrap_each-Steps :
      (fps : List (Footprint S)) (ms : List Migration)
      → Each (λ fp. Quiet fp.check) fps
      → Quiet (bootstrap_each fps ms)
  unfolding bootstrap_each
  bootstrap_each-Steps [] ms h = Holds-pure tt (λ b s. s)
  bootstrap_each-Steps (fp ∷ fps) ms h =
      Holds-bind _ _ (of_name (filename_of fp.version ms)) λ _. bootstrap_each-Steps fps ms h.1
    where
      of_found : (found : Bool) (row : Applied) → Quiet (record_found found row)
      of_found true row = noted-Steps row
      of_found false row = Holds-pure tt (λ b s. s)

      of_name : (o : Option Str) → Quiet (bootstrap_one o fp)
      of_name none = Holds-pure tt (λ b s. s)
      of_name (some filename) = Holds-bind _ _ h.0 λ found. of_found found _

  bootstrap-Steps : (ms : List Migration) → Quiet (bootstrap_existing_db pg ms)
  unfolding bootstrap_existing_db footprints table_exists column_exists
  bootstrap-Steps ms =
      bootstrap_each-Steps (footprints pg) ms
        (read-Quiet _, (read-Quiet _, (read-Quiet _, (read-Quiet _, (read-Quiet _, tt)))))

  applied-Quiet : Quiet get_applied_versions
  unfolding get_applied_versions
  applied-Quiet = Holds-statement _ (λ b s. s) (λ b s. of_rows b s b.tracking)
    where
      of_rows :
          (b : Base S)
          → Steps pg from b
          → (o : Option (List Applied)) → Answer (λ _. Steps pg from) (rows_of o b)
      of_rows b s none = tt
      of_rows b s (some rows) = s

  or_bootstrap-Steps :
      (applied : List Applied) (ms : List Migration) → Quiet (or_bootstrap pg applied ms)
  unfolding or_bootstrap table_exists
  or_bootstrap-Steps (r ∷ rows) ms = Holds-pure _ (λ b s. s)
  or_bootstrap-Steps [] ms = Holds-bind _ _ (read-Quiet _) λ exists. of_exists exists
    where
      of_exists : (exists : Bool) → Quiet (bootstrap_if pg exists ms)
      of_exists false = Holds-pure _ (λ b s. s)
      of_exists true = Holds-bind _ _ (bootstrap-Steps ms) λ _. applied-Quiet

  migrate-Steps : (ms : List Migration) → Quiet (migrate pg ms)
  unfolding migrate
  migrate-Steps [] = Holds-pure tt (λ b s. s)
  migrate-Steps (m ∷ ms) = Holds-bind _ _ applied-Quiet λ applied.
      Holds-bind _ _ (or_bootstrap-Steps applied (m ∷ ms))
        λ known. apply_pending-Steps known (m ∷ ms)

  table-Steps : Quiet create_tracking_table
  unfolding create_tracking_table
  table-Steps = Holds-statement _ (λ b s. s) (λ b s. of_tracking b s b.tracking refl)
    where
      of_tracking :
          (b : Base S)
          → Steps pg from b
          → (o : Option (List Applied)) → b.tracking ≡ o
          → Steps pg from (record b { tracking = created o })
      of_tracking b s none e = next s (table_created e refl)
      of_tracking b s (some rows) e = subst (λ o. Steps pg from (record b { tracking = o })) e s

  loaded-Quiet : (o : Option (List Migration)) → Quiet (or_fail o)
  unfolding or_fail
  loaded-Quiet none = record { at = λ c s. s }
  loaded-Quiet (some ms) = record { at = λ c s. s }

-- Whatever fails in a run, all that it has done to the database is a sequence of steps: a migration is
-- executed only while its version has no row, and together with its row.
pub run-Steps :
    {S : Type 0} (pg : Postgres S) (atoi : Str → Option ℕ) (order : PriorityOrder)
    (entries : Option (List Entry)) (c : Conn S)
    → Steps pg c.base (run pg atoi order entries c).1.base
unfolding run
run-Steps pg atoi order entries c =
    Holds-both (run pg atoi order entries) c
      (Holds-bind _ _ (read-Quiet pg c.base _) λ _. Holds-bind _ _ (read-Quiet pg c.base _) λ _.
        Holds-bind _ _ (table-Steps pg c.base)
          λ _. Holds-bind _ _ (loaded-Quiet pg c.base _) λ ms. migrate-Steps pg c.base ms)
      here
