-- ===== src/Repository/Sat.antt =====
-- Rules for the shapes of statement that the repositories use.
use ats_proxy_manager.Prelude.{ℕ, Bool, true, false, Option, none, some, List, [], ◌≡◌, refl, ◌∙◌}
use ats_proxy_manager.Domain.Enums.{Error}
use ats_proxy_manager.Store.{
  Db, World, M, statement, query, send_query, fetch, broken_off, abort, is_aborted, next_fault,
  later_faults, guard, or_raise, ◌>>=◌,
}
use ats_proxy_manager.Store.Sat.{
  Sat, Post, Answer, Sat-statement, Sat-bind, Sat-guard, Sat-or_raise,
}
use ats_proxy_manager.Repository.Keys.{checked}

module _ {A : Type 0} where
  checked-Answer :
      (Q : A → Db → Type 0) (b : Bool) (a : A) (db : Db)
      → (b ≡ true → Q a db)
      → Answer Q (checked b (a, db))
  checked-Answer Q true a db h = h refl
  checked-Answer Q false a db h = tt

  -- A statement that a constraint may refuse.
  pub Sat-checked :
      {P I : Db → Type 0} {Q : A → Db → Type 0} (b : ℕ → Db → Bool) (g : ℕ → Db → A)
      (h : ℕ → Db → Db)
      → ((db : Db) → P db → I db)
      → ((now : ℕ) (db : Db) → P db → b now db ≡ true → Q (g now db) (h now db))
      → Sat P (statement (λ now db. checked (b now db) (g now db, h now db))) I Q
  Sat-checked {Q} b g h hi hq =
      Sat-statement _ hi
        (λ now db p. checked-Answer Q (b now db) (g now db) (h now db) (hq now db p))

  -- A statement that only reads.
  pub Sat-read :
      {P I : Db → Type 0} (g : ℕ → Db → A)
      → ((db : Db) → P db → I db)
      → Sat P (statement (λ now db. some (g now db, db))) I (λ _. P)
  Sat-read g h = Sat-statement _ h (λ now db p. p)

  -- A query for one row, which fails if there is none.
  pub Sat-get :
      {P I : Db → Type 0} (g : Db → Option A) (e : Error)
      → ((db : Db) → P db → I db)
      → Sat P
          (statement (λ now db. some (g db, db)) >>= λ found. or_raise found e)
          I
          (λ a db. P db × (g db ≡ some a))
  Sat-get {P} {I} g e h =
      Sat-bind _ _
        (Sat-statement {Q = λ found db. P db × (g db ≡ found)} _ h (λ now db p. (p, refl)))
        λ found. Sat-or_raise found e (λ db pq. h db pq.0) (λ a db is pq. (pq.0, pq.1 ∙ is))

-- A query keeps what holds of the tables, whether it fails or not.
pub Sat-query :
    {A : Type 0} {P : Db → Type 0} (cut : List Bool → Option ℕ) (rows : Db → List A)
    → Sat P (query cut rows) P (λ _. P)
unfolding query
Sat-query {A} {P} cut rows = record { at = λ w p. of_send w p (is_aborted w.tx) }
  where
    of_broken :
        (o : Option ℕ) (xs : List A) (w : World) → P w.db → Post P (λ _. P) (broken_off o xs w)
    of_broken none xs w p = p
    of_broken (some k) xs w p = p

    of_fetch : (w : World) → P w.db → (b : Bool) (o : Option ℕ) → Post P (λ _. P) (fetch b o rows w)
    of_fetch w p true o = of_broken o (rows w.db) (record w { tx = abort w.tx }) p
    of_fetch w p false o = p

    of_send : (w : World) → P w.db → (b : Bool) → Post P (λ _. P) (send_query b cut rows w)
    of_send w p true = of_broken (cut w.faults) [] w p
    of_send w p false =
        of_fetch (record w { faults = later_faults w.faults }) p (next_fault w.faults)
          (cut (later_faults w.faults))

-- Where no query breaks off, its answer has all the rows.
pub Sat-rows :
    {A : Type 0} {P I : Db → Type 0} (cut : List Bool → Option ℕ) (rows : Db → List A)
    → ((left : List Bool) → cut left ≡ none)
    → ((db : Db) → P db → I db)
    → Sat P (query cut rows) I (λ xs db. (xs ≡ rows db) × P db)
unfolding query
Sat-rows {A} {P} {I} cut rows whole hi = record { at = λ w p. of_send w p (is_aborted w.tx) }
  where
    All : List A → Db → Type 0
    All xs db = (xs ≡ rows db) × P db

    of_fetch : (w : World) → P w.db → (b : Bool) → Post I All (fetch b none rows w)
    of_fetch w p true = hi w.db p
    of_fetch w p false = (refl, p)

    of_send : (w : World) → P w.db → (b : Bool) → Post I All (send_query b cut rows w)
    of_send w p true = rw (whole w.faults) (hi w.db p)
    of_send w p false =
        rw (whole (later_faults w.faults))
          (of_fetch (record w { faults = later_faults w.faults }) p (next_fault w.faults))

-- An update that fails if it touches no row.
pub Sat-affected :
    {P I : Db → Type 0} (m : M Bool) (e : Error)
    → Sat P m I (λ _. I)
    → Sat P (m >>= λ affected. guard affected e) I (λ _. I)
Sat-affected m e h = Sat-bind m _ h (λ b. Sat-guard b e (λ db i. i) (λ db _ i. i))
