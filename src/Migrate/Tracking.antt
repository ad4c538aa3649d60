-- ===== src/Migrate/Tracking.antt =====
-- A run that succeeds has recorded every migration, and a later run leaves the database alone.
use ats_proxy_manager.Prelude.{
  ℕ, Bool, true, false, not, Option, none, some, List, [], ◌∷◌, ◌==◌, ◌&&◌, ◌||◌, ◌≡◌, refl, sym,
  ◌∙◌, subst, arith, Bool-cases, inl, inr, Str, ==_sound,
}
use ats_proxy_manager.Prelude.Table.{some_row, some_row-append}
use ats_proxy_manager.Repository.Order.{PriorityOrder}
use ats_proxy_manager.Migrate.Conn.{Applied, Base, Conn, Postgres}
use ats_proxy_manager.Migrate.Files.{Migration, Entry, load_migrations}
use ats_proxy_manager.Migrate.Bootstrap.{
  has_version, fits_integer, insert_row, record_version, get_applied_versions, rows_of,
}
use ats_proxy_manager.Migrate.Run.{
  applied_row, exec_sql, executed, apply_one, apply_pending, or_bootstrap, bootstrap_if, migrate,
  run,
}
use ats_proxy_manager.Migrate.Logic.{
  Answer, Holds, Holds-pure, Holds-statement, Holds-transaction, Holds-bind, Holds-some, Holds-post,
  Holds-any, Holds-fact, or_fail-Holds,
}

abbrev pub tracked_in : ℕ → Option (List Applied) → Bool
tracked_in v none = false
tracked_in v (some rows) = has_version v rows

-- The version has a row.
abbrev pub tracked : {S : Type 0} → ℕ → Base S → Bool
tracked v b = tracked_in v b.tracking

-- Every version that passes the test has a row.
abbrev pub Tracks : {S : Type 0} → (ℕ → Bool) → Base S → Type 0
Tracks f b = (v : ℕ) → f v ≡ true → tracked v b ≡ true

abbrev pub is_version_of : List Migration → ℕ → Bool
is_version_of ms v = some_row (λ m. m.version == v) ms

module _ {S : Type 0} where
  -- A new row.
  insert-Tracks :
      (f : ℕ → Bool) (row : Applied) (o : Option (List Applied)) (b : Base S)
      → b.tracking ≡ o
      → Tracks f b
      → Answer (λ _. Tracks (λ v. f v || row.version == v)) (insert_row o row b)
  insert-Tracks f row none b e h = tt
  insert-Tracks f row (some rows) b e h =
      elim (Bool-cases (fits_integer row.version && not (has_version row.version rows))) [
        | inl fine ↦ rw fine (λ v t.
            let old : f v ≡ true → has_version v rows ≡ true =
              λ q. subst (λ o. tracked_in v o ≡ true) e (h v q) in
            some_row-append (λ r. r.version == v) rows row ∙ ground (arith, old, t))
        | inr refused ↦ rw refused tt
      ]

  record-Tracks :
      (f : ℕ → Bool) (row : Applied)
      → Holds
          (Tracks f)
          (record_version row)
          (λ _. Unit {0})
          (λ _. Tracks {S = S} (λ v. f v || row.version == v))
  unfolding record_version
  record-Tracks f row =
      Holds-statement _ (λ b h. tt) (λ b h. insert-Tracks f row b.tracking b refl h)

  -- A test that asks for less.
  Tracks-weaken :
      (f g : ℕ → Bool) (b : Base S) → ((v : ℕ) → g v ≡ true → f v ≡ true) → Tracks f b → Tracks g b
  Tracks-weaken f g b h t v e = t v (h v e)

module _ {S : Type 0} (pg : Postgres S) where
  exec-Tracks :
      (f : ℕ → Bool) (sql : Str)
      → Holds (Tracks f) (exec_sql pg sql) (λ _. Unit {0}) (λ _. Tracks f)
  unfolding exec_sql
  exec-Tracks f sql = Holds-statement _ (λ b h. tt) (λ b h. of_schema b h (pg.exec sql b.schema))
    where
      of_schema :
          (b : Base S) → Tracks f b → (o : Option S) → Answer (λ _. Tracks f) (executed pg o b)
      of_schema b h none = tt
      of_schema b h (some schema) = h

  apply_one-Tracks :
      (f : ℕ → Bool) (m : Migration)
      → Holds (Tracks f) (apply_one pg m) (λ _. Unit {0}) (λ _. Tracks (λ v. f v || m.version == v))
  unfolding apply_one
  apply_one-Tracks f m =
      Holds-transaction _ (λ b h. tt)
        (Holds-bind _ _ (exec-Tracks f m.sql) λ _. record-Tracks f (applied_row m))

  apply_pending-Tracks :
      (f : ℕ → Bool) (applied : List Applied) (ms : List Migration)
      → ((v : ℕ) → has_version v applied ≡ true → f v ≡ true)
      → Holds
          (Tracks f)
          (apply_pending pg applied ms)
          (λ _. Unit {0})
          (λ _. Tracks (λ v. f v || is_version_of ms v))
  unfolding apply_pending some_row
  apply_pending-Tracks f applied [] h =
      Holds-pure tt (λ b t. Tracks-weaken f (λ v. f v || false) b (λ v e. ground arith) t)
  apply_pending-Tracks f applied (m ∷ ms) h = elim (Bool-cases (has_version m.version applied)) [
    | inl old ↦ rw old (
        Holds-post _
          (λ _ b t.
            Tracks-weaken (λ v. f v || is_version_of ms v)
              (λ v. f v || (m.version == v || is_version_of ms v)) b (λ v e. of_old v old e) t)
          (apply_pending-Tracks f applied ms h))
    | inr new ↦ rw new (
        Holds-bind _ _ (apply_one-Tracks f m) λ _.
          Holds-post _
            (λ _ b t.
              Tracks-weaken (λ v. (f v || m.version == v) || is_version_of ms v)
                (λ v. f v || (m.version == v || is_version_of ms v)) b (λ v e. ground arith) t)
            (apply_pending-Tracks (λ v. f v || m.version == v) applied ms
              (λ v e. ground (arith, h v e))))
  ]
    where
      of_old :
          (v : ℕ)
          → has_version m.version applied ≡ true
          → (f v || (m.version == v || is_version_of ms v)) ≡ true
          → (f v || is_version_of ms v) ≡ true
      of_old v old e = elim (Bool-cases (m.version == v)) [
        | inl same ↦
            ground (
              arith,
              h v (subst (λ k. has_version k applied ≡ true) (==_sound m.version v same) old),
            )
        | inr other ↦ ground (arith, e, other)
      ]

  get_applied-Tracks :
      {P : Base S → Type 0}
      → Holds P get_applied_versions (λ _. Unit {0}) (λ rows. Tracks (λ v. has_version v rows))
  unfolding get_applied_versions
  get_applied-Tracks = Holds-statement _ (λ b h. tt) (λ b h. of_rows b b.tracking refl)
    where
      of_rows :
          (b : Base S) (o : Option (List Applied))
          → b.tracking ≡ o
          → Answer (λ rows. Tracks (λ v. has_version v rows)) (rows_of o b)
      of_rows b none e = tt
      of_rows b (some rows) e = λ v h. subst (λ o. tracked_in v o ≡ true) (sym e) h

  or_bootstrap-Tracks :
      (applied : List Applied) (ms : List Migration)
      → Holds
          (Tracks (λ v. has_version v applied))
          (or_bootstrap pg applied ms)
          (λ _. Unit {0})
          (λ rows. Tracks (λ v. has_version v rows))
  unfolding or_bootstrap some_row
  or_bootstrap-Tracks (r ∷ rows) ms = Holds-pure _ (λ b t. t)
  or_bootstrap-Tracks [] ms = Holds-bind _ _ (Holds-any _) λ exists. of_exists exists
    where
      of_exists :
          (exists : Bool)
          → Holds
              (λ _. Unit {0})
              (bootstrap_if pg exists ms)
              (λ _. Unit {0})
              (λ rows. Tracks (λ v. has_version v rows))
      of_exists false = Holds-pure _ (λ b t v e. cc e)
      of_exists true = Holds-bind _ _ (Holds-any _) λ _. get_applied-Tracks

  migrate-Tracks :
      (ms : List Migration)
      → Holds (λ _. Unit {0}) (migrate pg ms) (λ _. Unit {0}) (λ _. Tracks (is_version_of ms))
  unfolding migrate some_row
  migrate-Tracks [] = Holds-pure _ (λ b t v e. cc e)
  migrate-Tracks (m ∷ ms) = Holds-bind _ _ get_applied-Tracks λ applied.
      Holds-bind _ _ (or_bootstrap-Tracks applied (m ∷ ms)) λ known.
        Holds-post _
          (λ _ b t.
            Tracks-weaken (λ v. has_version v known || is_version_of (m ∷ ms) v)
              (is_version_of (m ∷ ms)) b (λ v e. ground (arith, e)) t)
          (apply_pending-Tracks (λ v. has_version v known) known (m ∷ ms) (λ v e. e))

  run-Tracks :
      (atoi : Str → Option ℕ) (order : PriorityOrder) (entries : Option (List Entry))
      (ms : List Migration)
      → load_migrations atoi order entries ≡ some ms
      → Holds
          (λ _. Unit {0})
          (run pg atoi order entries)
          (λ _. Unit {0})
          (λ _. Tracks (is_version_of ms))
  unfolding run
  run-Tracks atoi order entries ms e = Holds-bind _ _ (Holds-any _) λ _.
      Holds-bind _ _ (Holds-any _) λ _. Holds-bind _ _ (Holds-any _) λ _.
        Holds-bind _ _ (or_fail-Holds {P = λ _. Unit {0}} (load_migrations atoi order entries) ms e)
          λ loaded. Holds-fact _ λ is. rw is (migrate-Tracks ms)

-- A run that succeeds leaves a row of schema_migrations for the version of every migration file.
pub run-tracked :
    {S : Type 0} (pg : Postgres S) (atoi : Str → Option ℕ) (order : PriorityOrder)
    (entries : Option (List Entry)) (ms : List Migration) (c c' : Conn S)
    → load_migrations atoi order entries ≡ some ms
    → run pg atoi order entries c ≡ (some tt, c')
    → (v : ℕ) → is_version_of ms v ≡ true
    → tracked v c'.base ≡ true
run-tracked pg atoi order entries ms c c' e h =
    Holds-some (run pg atoi order entries) c c' tt (run-Tracks pg atoi order entries ms e) tt h
