-- ===== src/Migrate/Again.antt =====
-- A second run of backend/internal/migrate/migrate.go.
use ats_proxy_manager.Prelude.{
  ℕ, Bool, true, Option, none, some, List, [], ◌∷◌, ◌≡◌, refl, sym, ◌∙◌, ap, subst, arith, Str,
  ==_refl,
}
use ats_proxy_manager.Prelude.Table.{some_row}
use ats_proxy_manager.Repository.Order.{PriorityOrder}
use ats_proxy_manager.Migrate.Conn.{Applied, Base, Conn, Postgres, pure, ◌>>=◌, statement, read}
use ats_proxy_manager.Migrate.Files.{Migration, Entry, load_migrations}
use ats_proxy_manager.Migrate.Bootstrap.{has_version, get_applied_versions, create_tracking_table}
use ats_proxy_manager.Migrate.Run.{apply_pending, or_bootstrap, migrate, run, or_fail}
use ats_proxy_manager.Migrate.Logic.{
  Holds, Holds-pure, Holds-statement, Holds-bind, Holds-both, Holds-fact, or_fail-Holds,
}
use ats_proxy_manager.Migrate.Tracking.{tracked, tracked_in, is_version_of, run-tracked}

-- The database after a run: the rows are there.
abbrev settled : {S : Type 0} → S → Applied → List Applied → Base S
settled schema r rows = record { schema = schema; tracking = some (r ∷ rows) }

module _ {S : Type 0} (pg : Postgres S) (schema : S) (r : Applied) (rows : List Applied) where
  skip :
      (ms : List Migration)
      → ((v : ℕ) → is_version_of ms v ≡ true → has_version v (r ∷ rows) ≡ true)
      → apply_pending pg (r ∷ rows) ms ≡ pure tt
  unfolding apply_pending some_row
  skip [] h = refl
  skip (m ∷ ms) h =
      rw (h m.version (ground (arith, ==_refl m.version)))
        (skip ms (λ v e. h v (ground (arith, e))))

  abbrev Same : Base S → Type 0
  Same b = b ≡ settled schema r rows

  migrate-Same :
      (ms : List Migration)
      → ((v : ℕ) → is_version_of ms v ≡ true → has_version v (r ∷ rows) ≡ true)
      → Holds Same (migrate pg ms) Same (λ _. Same)
  unfolding migrate get_applied_versions or_bootstrap pure
  migrate-Same [] h = Holds-pure tt (λ b e. e)
  migrate-Same (m ∷ ms) h =
      Holds-bind _ _
        (Holds-statement {Q = λ rs b. (rs ≡ r ∷ rows) × Same b} _ (λ b e. e)
          (λ b e. rw e (refl, refl)))
        λ rs. Holds-fact _ λ is. rw is (of_rows m ms h)
    where
      of_rows :
          (m : Migration) (ms : List Migration)
          → ((v : ℕ) → is_version_of (m ∷ ms) v ≡ true → has_version v (r ∷ rows) ≡ true)
          → Holds Same
              (or_bootstrap pg (r ∷ rows) (m ∷ ms) >>= λ known. apply_pending pg known (m ∷ ms))
              Same
              (λ _. Same)
      of_rows m ms h =
          Holds-bind _ _
            (Holds-pure {Q = λ known b. (known ≡ r ∷ rows) × Same b} (r ∷ rows) (λ b e. (refl, e)))
            λ known. Holds-fact _ λ is. rw is (rw (skip (m ∷ ms) h) (Holds-pure tt (λ b e. e)))

  run-Same :
      (atoi : Str → Option ℕ) (order : PriorityOrder) (entries : Option (List Entry))
      (ms : List Migration)
      → load_migrations atoi order entries ≡ some ms
      → ((v : ℕ) → is_version_of ms v ≡ true → has_version v (r ∷ rows) ≡ true)
      → Holds Same (run pg atoi order entries) Same (λ _. Same)
  unfolding run read create_tracking_table
  run-Same atoi order entries ms e h =
      Holds-bind _ _ (Holds-statement {Q = λ _. Same} _ (λ b s. s) (λ b s. s)) λ _.
        Holds-bind _ _ (Holds-statement {Q = λ _. Same} _ (λ b s. s) (λ b s. s)) λ _.
          Holds-bind _ _ (Holds-statement {Q = λ _. Same} _ (λ b s. s) (λ b s. rw s refl)) λ _.
            Holds-bind _ _ (or_fail-Holds (load_migrations atoi order entries) ms e)
              λ loaded. Holds-fact _ λ is. rw is (migrate-Same ms h)

  -- Without failures it succeeds.
  run_succeeds :
      (atoi : Str → Option ℕ) (order : PriorityOrder) (entries : Option (List Entry))
      (m : Migration) (ms : List Migration)
      → load_migrations atoi order entries ≡ some (m ∷ ms)
      → ((v : ℕ) → is_version_of (m ∷ ms) v ≡ true → has_version v (r ∷ rows) ≡ true)
      → run pg atoi order entries (record { base = settled schema r rows; faults = [] })
        ≡ (some tt, record { base = settled schema r rows; faults = [] })
  unfolding run read create_tracking_table migrate get_applied_versions or_bootstrap or_fail
      statement pure ◌>>=◌
  run_succeeds atoi order entries m ms e h = rw e (rw (skip (m ∷ ms) h) refl)

-- A database where the first version is tracked.
settled_of :
    {S : Type 0} (v : ℕ) (b : Base S)
    → tracked v b ≡ true
    → (r : Applied) × ((rows : List Applied) × (b ≡ settled b.schema r rows))
unfolding some_row
settled_of {S} v b h = of_tracking b.tracking refl
  where
    of_tracking :
        (o : Option (List Applied))
        → b.tracking ≡ o
        → (r : Applied) × ((rows : List Applied) × (b ≡ settled b.schema r rows))
    of_tracking none e = cc (subst (λ o. tracked_in v o ≡ true) e h)
    of_tracking (some []) e = cc (subst (λ o. tracked_in v o ≡ true) e h)
    of_tracking (some (r ∷ rows)) e =
        (r, (rows, ap (λ o. record { schema = b.schema; tracking = o }) e))

-- After a run that succeeded, with a migration file at least, another run of the same files changes
-- nothing, whatever fails in it; and where nothing fails, it succeeds.
pub run_twice :
    {S : Type 0} (pg : Postgres S) (atoi : Str → Option ℕ) (order : PriorityOrder)
    (entries : Option (List Entry)) (m : Migration) (ms : List Migration) (c c' : Conn S)
    (faults : List Bool)
    → load_migrations atoi order entries ≡ some (m ∷ ms)
    → run pg atoi order entries c ≡ (some tt, c')
    → ((run pg atoi order entries (record c' { faults = faults })).1.base ≡ c'.base)
      × (run pg atoi order entries (record c' { faults = [] })
          ≡ (some tt, record c' { faults = [] }))
unfolding some_row
run_twice {S} pg atoi order entries m ms c c' faults e h =
    let all = run-tracked pg atoi order entries (m ∷ ms) c c' e h in
    let (r, (rows, is)) =
      settled_of m.version c'.base (all m.version (ground (arith, ==_refl m.version))) in
    let known : (v : ℕ) → is_version_of (m ∷ ms) v ≡ true → has_version v (r ∷ rows) ≡ true =
      λ v t. subst (λ (b : Base S). tracked v b ≡ true) is (all v t) in
    (
      Holds-both (run pg atoi order entries) (record c' { faults = faults })
            (run-Same pg c'.base.schema r rows atoi order entries (m ∷ ms) e known) is
          ∙ sym is,
      subst
          (λ (b : Base S).
            run pg atoi order entries (record { base = b; faults = [] })
            ≡ (some tt, record { base = b; faults = [] }))
          (sym is) (run_succeeds pg c'.base.schema r rows atoi order entries m ms e known),
    )
