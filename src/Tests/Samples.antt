-- ===== src/Tests/Samples.antt =====
-- A runtime to run the model with: an insertion sort, and stand-ins for the libraries that are
-- good enough for the inputs of the tests.
use mathlib.Core.List.{Perm}
use mathlib.Core.List.Perm
use ats_proxy_manager.Prelude.{
  ℕ, ◌+◌, ◌*◌, ◌%◌, true, false, Option, none, some, List, [], ◌∷◌, ◌≡◌, arith, refl, Bool-cases,
  inl, inr, if◌then◌else◌, ℤ, ltb_ℤ, Str, codes,
}
use ats_proxy_manager.Repository.Order.{AllFrom, IsOrdered, PriorityOrder, HostnameOrder}
use ats_proxy_manager.Runtime.{Runtime, Ip, v4}

module _ {A : Type 0} (key : A → ℤ) where
  insert_by : A → List A → List A
  insert_by x [] = x ∷ []
  insert_by x (y ∷ ys) =
      let rest = insert_by x ys in if ltb_ℤ (key y) (key x) then y ∷ rest else x ∷ y ∷ ys

  pub sort_by : List A → List A
  unfolding insert_by
  sort_by [] = []
  sort_by (x ∷ xs) = insert_by x (sort_by xs)

  insert_by-perm : (x : A) (ys : List A) → Perm (insert_by x ys) (x ∷ ys)
  unfolding insert_by
  insert_by-perm x [] = Perm.refl (x ∷ [])
  insert_by-perm x (y ∷ ys) = elim (Bool-cases (ltb_ℤ (key y) (key x))) [
    | inl e ↦ rw e (Perm.trans (Perm.cons y (insert_by-perm x ys)) (Perm.swap x y ys))
    | inr e ↦ rw e (Perm.refl (x ∷ y ∷ ys))
  ]

  pub sort_by-perm : (xs : List A) → Perm (sort_by xs) xs
  unfolding sort_by
  sort_by-perm [] = Perm.refl []
  sort_by-perm (x ∷ xs) = Perm.trans (insert_by-perm x (sort_by xs)) (Perm.cons x (sort_by-perm xs))

  not_lt_trans : (a b c : ℤ) → ltb_ℤ b a ≡ false → ltb_ℤ c b ≡ false → ltb_ℤ c a ≡ false
  not_lt_trans a b c h k = ground arith

  not_lt_of_lt : (a b : ℤ) → ltb_ℤ a b ≡ true → ltb_ℤ b a ≡ false
  not_lt_of_lt a b h = ground arith

  AllFrom-weaken : (a b : ℤ) (xs : List A) → ltb_ℤ b a ≡ false → AllFrom key b xs → AllFrom key a xs
  AllFrom-weaken a b [] h all = tt
  AllFrom-weaken a b (x ∷ xs) h all =
      (not_lt_trans a b (key x) h all.0, AllFrom-weaken a b xs h all.1)

  insert_by-AllFrom :
      (k : ℤ) (x : A) (ys : List A)
      → ltb_ℤ (key x) k ≡ false
      → AllFrom key k ys
      → AllFrom key k (insert_by x ys)
  unfolding insert_by
  insert_by-AllFrom k x [] h all = (h, tt)
  insert_by-AllFrom k x (y ∷ ys) h all = elim (Bool-cases (ltb_ℤ (key y) (key x))) [
    | inl e ↦ rw e (all.0, insert_by-AllFrom k x ys h all.1)
    | inr e ↦ rw e (h, all)
  ]

  insert_by-IsOrdered : (x : A) (ys : List A) → IsOrdered key ys → IsOrdered key (insert_by x ys)
  unfolding insert_by
  insert_by-IsOrdered x [] h = (tt, tt)
  insert_by-IsOrdered x (y ∷ ys) h = elim (Bool-cases (ltb_ℤ (key y) (key x))) [
    | inl e ↦ rw e (
      insert_by-AllFrom (key y) x ys (not_lt_of_lt (key y) (key x) e) h.0,
      insert_by-IsOrdered x ys h.1,
    )
    | inr e ↦ rw e ((e, AllFrom-weaken (key x) (key y) ys e h.0), h)
  ]

  pub sort_by-IsOrdered : (xs : List A) → IsOrdered key (sort_by xs)
  unfolding sort_by
  sort_by-IsOrdered [] = tt
  sort_by-IsOrdered (x ∷ xs) = insert_by-IsOrdered x (sort_by xs) (sort_by-IsOrdered xs)

unfoldable pub insertion : PriorityOrder
unfolding sort_by
insertion = record {
  sort = λ A key xs. sort_by key xs;
  sort-perm = λ A key xs. sort_by-perm key xs;
  sort-IsOrdered = λ A key xs. sort_by-IsOrdered key xs;
}

as_stored : HostnameOrder
as_stored = record { sort = λ xs. xs; sort-perm = λ xs. Perm.refl xs }

-- Any text but the empty one stands for an address, and none for a network.
some_address : Str → Option Ip
some_address [] = none
some_address (c ∷ s) = some (v4 (10 ∷ 0 ∷ 0 ∷ 7 ∷ []))

-- A UUID's text is its number.
first_byte : Str → Option ℕ
first_byte [] = none
first_byte (n ∷ s) = some n

-- A checksum in place of a hash.
checksum : Str → ℕ
checksum [] = 7
checksum (c ∷ s) = (c + 31 * checksum s) % 65521

unfoldable pub sample : Runtime
unfolding insertion as_stored some_address checksum first_byte
sample = record {
  parse_ip = some_address;
  parse_cidr = λ s. none;
  itoa = λ n. codes "3128";
  quote = λ s. s;
  sha256_hex = λ s. checksum s ∷ [];
  uuid_string = λ n. n ∷ [];
  uuid_parse = first_byte;
  rows_before_error = λ left. none;
  row_order = insertion;
  hostname_order = as_stored;
  slice_order = insertion;
}

pub sample_uuid : (id : ℕ) → sample.uuid_parse (sample.uuid_string id) ≡ some id
unfolding sample
sample_uuid id = refl
