-- ===== src/Prelude/Table.antt =====
-- A database table is the list of its rows, in order of insertion. The operations are the SQL
-- statements that the repositories issue: a `WHERE` clause is a test on rows.
use Prim.Native.Nat.{ℕ}
use mathlib.Core.Path.{◌≡◌, refl, subst}
use mathlib.Core.Logic.{◌⊎◌, inl, inr}
use mathlib.Core.Bool.{Bool, true, false, ◌&&◌, ◌||◌}
use mathlib.Core.Option
use mathlib.Core.Option.{Option, none, some}
use mathlib.Core.List.{List, [], ◌∷◌, ◌++◌}
use native.Mathlib.Omega.{arith}
use ats_proxy_manager.Prelude.Tests.{◌==◌, if◌then◌else◌, Bool-cases, some_unique}

module _ {ℓ} {A : Type ℓ} where
  -- SELECT ... WHERE p, the first row.
  unfoldable pub select_first : (A → Bool) → List A → Option A
  select_first p [] = none
  select_first p (x ∷ xs) = if p x then some x else select_first p xs

  -- SELECT ... WHERE p.
  unfoldable pub select_all : (A → Bool) → List A → List A
  select_all p [] = []
  select_all p (x ∷ xs) = let rest = select_all p xs in if p x then x ∷ rest else rest

  -- EXISTS (SELECT ... WHERE p).
  unfoldable pub some_row : (A → Bool) → List A → Bool
  some_row p [] = false
  some_row p (x ∷ xs) = p x || some_row p xs

  -- UPDATE ... SET f WHERE p.
  unfoldable pub update_where : (A → Bool) → (A → A) → List A → List A
  update_where p f [] = []
  update_where p f (x ∷ xs) = (if p x then f x else x) ∷ update_where p f xs

  -- DELETE ... WHERE p.
  unfoldable pub delete_where : (A → Bool) → List A → List A
  delete_where p [] = []
  delete_where p (x ∷ xs) = let rest = delete_where p xs in if p x then rest else x ∷ rest

  pub some_row-append :
      (p : A → Bool) (xs : List A) (y : A) → some_row p (xs ++ y ∷ []) ≡ (some_row p xs || p y)
  unfolding some_row
  some_row-append p [] y = ground arith
  some_row-append p (x ∷ xs) y = ground (arith, some_row-append p xs y)

  -- A row that is left after a deletion was there before, and was not selected.
  pub some_row-delete_where :
      (p q : A → Bool) (xs : List A) → some_row p (delete_where q xs) ≡ true → some_row p xs ≡ true
  unfolding some_row delete_where
  some_row-delete_where p q [] h = h
  some_row-delete_where p q (x ∷ xs) h = ground (arith, some_row-delete_where p q xs)

  -- Where every row that `p` selects is deleted, none is left.
  pub some_row-delete_where_none :
      (p q : A → Bool) (xs : List A)
      → ((x : A) → p x ≡ true → q x ≡ true)
      → some_row p (delete_where q xs) ≡ false
  unfolding some_row delete_where
  some_row-delete_where_none p q [] h = refl
  some_row-delete_where_none p q (x ∷ xs) h =
      ground (arith, h x, some_row-delete_where_none p q xs h)

  pub some_row_mono :
      (p q : A → Bool) (xs : List A)
      → ((x : A) → p x ≡ true → q x ≡ true)
      → some_row p xs ≡ true
      → some_row q xs ≡ true
  unfolding some_row
  some_row_mono p q [] h e = e
  some_row_mono p q (x ∷ xs) h e = ground (arith, h x, some_row_mono p q xs h)

  -- No row touched, no row changed.
  pub update_where_none :
      (p : A → Bool) (f : A → A) (xs : List A) → some_row p xs ≡ false → update_where p f xs ≡ xs
  unfolding some_row update_where
  update_where_none p f [] h = refl
  update_where_none p f (x ∷ xs) h = ground (arith, update_where_none p f xs)

-- Rows with a primary key.
module _ {ℓ} {A : Type ℓ} (key : A → ℕ) where
  -- SELECT ... WHERE key = k.
  unfoldable pub find : ℕ → List A → Option A
  find k [] = none
  find k (x ∷ xs) = if key x == k then some x else find k xs

  pub find-update_where :
      (k : ℕ) (p : A → Bool) (f : A → A) (xs : List A)
      → ((x : A) → key (f x) ≡ key x)
      → find k (update_where p f xs) ≡ Option.map (λ x. if p x then f x else x) (find k xs)
  unfolding find update_where
  find-update_where k p f [] h = refl
  find-update_where k p f (x ∷ xs) h = ground (arith, h x, find-update_where k p f xs h)

  pub find-delete_where :
      (k i : ℕ) (xs : List A)
      → find k (delete_where (λ x. key x == i) xs) ≡ (if k == i then none else find k xs)
  unfolding find delete_where
  find-delete_where k i [] = ground arith
  find-delete_where k i (x ∷ xs) = ground (arith, find-delete_where k i xs)

  pub find-append :
      (k : ℕ) (xs : List A) (y : A)
      → find k (xs ++ y ∷ [])
        ≡ elim (find k xs) [ some x ↦ some x | none ↦ if key y == k then some y else none ]
  unfolding find
  find-append k [] y = refl
  find-append k (x ∷ xs) y = ground (arith, find-append k xs y)

  pub find_key : (k : ℕ) (xs : List A) {x : A} → find k xs ≡ some x → key x ≡ k
  unfolding find
  find_key k [] h = ground arith
  find_key k (y ∷ xs) {x} h = ground (arith, find_key k xs {x = x})

  -- A row found after an update comes from the row found before it.
  pub find-update_where_inv :
      (k : ℕ) (p : A → Bool) (f : A → A) (xs : List A) (y : A)
      → ((x : A) → key (f x) ≡ key x)
      → find k (update_where p f xs) ≡ some y
      → (x : A) × (find k xs ≡ some x) × (y ≡ (if p x then f x else x))
  unfolding find update_where
  find-update_where_inv k p f [] y h e = cc
  find-update_where_inv k p f (x ∷ xs) y h e = elim (Bool-cases (key x == k)) [
    | inl here ↦ (x, rw here, ground (arith, h x))
    | inr there ↦ rw there (find-update_where_inv k p f xs y h (ground (arith, h x)))
  ]

  pub find-append_inv :
      (k : ℕ) (xs : List A) (y z : A)
      → find k (xs ++ y ∷ []) ≡ some z
      → (find k xs ≡ some z) ⊎ ((key y ≡ k) × (z ≡ y))
  unfolding find
  find-append_inv k [] y z e = ground arith
  find-append_inv k (x ∷ xs) y z e = elim (Bool-cases (key x == k)) [
    | inl here ↦ inl (ground arith)
    | inr there ↦ rw there (find-append_inv k xs y z (ground arith))
  ]

-- The row that is found passes the test.
pub select_first-holds :
    {A : Type 0} (p : A → Bool) (xs : List A) (x : A)
    → select_first p xs ≡ some x
    → (p x ≡ true) × (some_row p xs ≡ true)
unfolding select_first some_row
select_first-holds p [] x e = cc
select_first-holds p (y ∷ xs) x e = elim (Bool-cases (p y)) [
  | inl hit ↦
      let same : y ≡ x =
        some_unique y x refl
          (subst (λ b. (if b then some y else select_first p xs) ≡ some x) hit e) in
      (subst (λ z. p z ≡ true) same hit, rw hit refl)
  | inr miss ↦
      let (a, b) =
        select_first-holds p xs x
          (subst (λ b. (if b then some y else select_first p xs) ≡ some x) miss e) in
      (a, rw miss b)
]

-- A row that is found satisfies every test that it passes.
pub select_first-row :
    {A : Type 0} (p q : A → Bool) (xs : List A) (x : A)
    → select_first p xs ≡ some x
    → q x ≡ true
    → some_row q xs ≡ true
unfolding select_first some_row
select_first-row p q [] x e h = cc
select_first-row p q (y ∷ xs) x e h = ground (arith, select_first-row p q xs x)

pub some_row-find :
    {A : Type 0} (key : A → ℕ) (id : ℕ) (p : A → Bool) (cs : List A)
    → some_row (λ r. key r == id && p r) cs ≡ true
    → (c : A) × (find key id cs ≡ some c)
unfolding some_row find
some_row-find key id p [] h = cc
some_row-find key id p (x ∷ cs) h = elim (Bool-cases (key x == id)) [
  | inl here ↦ (x, rw here refl)
  | inr there ↦ let (c, e) = some_row-find key id p cs (ground (arith, there, h)) in (c, rw there e)
]

pub some_row-update_where :
    {A : Type 0} (p q : A → Bool) (f : A → A) (xs : List A)
    → ((x : A) → p (f x) ≡ p x)
    → some_row p (update_where q f xs) ≡ some_row p xs
unfolding some_row update_where
some_row-update_where p q f [] h = refl
some_row-update_where p q f (x ∷ xs) h = ground (arith, h x, some_row-update_where p q f xs h)
