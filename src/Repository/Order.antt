-- ===== src/Repository/Order.antt =====
-- `ORDER BY priority` of the database and `sort.Slice` by priority of Go: both put rows in order
-- of priority and say nothing of rows that share one, so each is a parameter with these two laws.
use mathlib.Core.List.{Perm}
use ats_proxy_manager.Prelude.{false, ◌≡◌, List, [], ◌∷◌, ℤ, ltb_ℤ}
use ats_proxy_manager.Domain.Models.{Proxy}

-- No later row has a smaller key than an earlier one.
abbrev pub AllFrom : {A : Type 0} → (A → ℤ) → ℤ → List A → Type 0
AllFrom key k [] = Unit
AllFrom key k (x ∷ xs) = (ltb_ℤ (key x) k ≡ false) × AllFrom key k xs

abbrev pub IsOrdered : {A : Type 0} → (A → ℤ) → List A → Type 0
IsOrdered key [] = Unit
IsOrdered key (x ∷ xs) = AllFrom key (key x) xs × IsOrdered key xs

pub record PriorityOrder : Type 1 where
  pub sort : (A : Type 0) → (A → ℤ) → List A → List A
  pub sort-perm : (A : Type 0) (key : A → ℤ) (xs : List A) → Perm (sort A key xs) xs
  pub sort-IsOrdered : (A : Type 0) (key : A → ℤ) (xs : List A) → IsOrdered key (sort A key xs)

-- `ORDER BY hostname`, in the collation of the database.
pub record HostnameOrder : Type 0 where
  pub sort : List Proxy → List Proxy
  pub sort-perm : (xs : List Proxy) → Perm (sort xs) xs
