-- ===== src/Tests/Migrations.antt =====
-- Migrations of two files on a new database whose schema is the list of the files executed.
use ats_proxy_manager.Prelude.{
  ℕ, ◌+◌, ◌*◌, ◌-◌, true, false, Option, none, some, List, [], ◌∷◌, ◌++◌, ◌≡◌, refl, Str, codes,
}
use ats_proxy_manager.Prelude.Table.{some_row}
use ats_proxy_manager.Migrate.Conn.{Applied, Conn, Postgres, pure, ◌>>=◌, read, transaction}
use ats_proxy_manager.Migrate.Bootstrap.{
  create_tracking_table, get_applied_versions, table_exists, record_version,
}
use ats_proxy_manager.Migrate.Files.{Migration, Entry, load_migrations}
use ats_proxy_manager.Migrate.Run.{
  run, or_fail, migrate, or_bootstrap, apply_pending, apply_one, exec_sql,
}
use ats_proxy_manager.Migrate.Tracking.{run-tracked, tracked}
use ats_proxy_manager.Migrate.Again.{run_twice}
use ats_proxy_manager.Migrate.Steps.{Steps, run-Steps}
use ats_proxy_manager.Tests.Samples.{insertion}

abbrev decimal_from : ℕ → Str → ℕ
decimal_from n [] = n
decimal_from n (c ∷ s) = decimal_from (10 * n + (c - 48)) s

abbrev atoi : Str → Option ℕ
atoi s = some (decimal_from 0 s)

abbrev server : Postgres (List Str)
server = record {
  exec = λ sql done. some (done ++ sql ∷ []);
  table_exists = λ name done. false;
  column_exists = λ table column done. false;
}

abbrev entry : Str → Entry
entry name = record { name = name; is_dir = false; contents = some (codes "sql") }

abbrev directory : Option (List Entry)
directory = some (entry (codes "2_b.sql") ∷ entry (codes "x.sql") ∷ entry (codes "1_a.sql") ∷ [])

abbrev first_file : Migration
first_file = record { version = 1; filename = codes "1_a.sql"; sql = codes "sql" }

abbrev second_file : Migration
second_file = record { version = 2; filename = codes "2_b.sql"; sql = codes "sql" }

abbrev new_server : Conn (List Str)
new_server = record { base = record { schema = []; tracking = none }; faults = [] }

abbrev migrated : Option (Unit {0}) × Conn (List Str)
migrated = run server atoi insertion directory new_server

abbrev row : Migration → Applied
row m = record { version = m.version; filename = m.filename }

loaded : load_migrations atoi insertion directory ≡ some (first_file ∷ second_file ∷ [])
unfolding load_migrations insertion
loaded = refl

-- What the two files leave.
abbrev after : Conn (List Str)
after = record {
  base = record {
    schema = codes "sql" ∷ codes "sql" ∷ [];
    tracking = some (row first_file ∷ row second_file ∷ []);
  };
  faults = [];
}

both_run : migrated ≡ (some tt, after)
unfolding load_migrations insertion run ◌>>=◌ read create_tracking_table or_fail migrate
    get_applied_versions or_bootstrap table_exists pure apply_pending some_row apply_one transaction
    exec_sql record_version
both_run = refl

run-tracked_example : tracked 2 after.base ≡ true
unfolding some_row
run-tracked_example =
    run-tracked server atoi insertion directory (first_file ∷ second_file ∷ []) new_server after
      loaded both_run 2 refl

run_twice_example :
    ((run server atoi insertion directory (record after { faults = false ∷ true ∷ [] })).1.base
      ≡ after.base)
    × (run server atoi insertion directory after ≡ (some tt, after))
run_twice_example =
    run_twice server atoi insertion directory first_file (second_file ∷ []) new_server after
      (false ∷ true ∷ []) loaded both_run

run-Steps_example :
    Steps server new_server.base
      (run server atoi insertion directory
        (record new_server { faults = false ∷ false ∷ true ∷ [] })).1.base
run-Steps_example =
    run-Steps server atoi insertion directory
      (record new_server { faults = false ∷ false ∷ true ∷ [] })
