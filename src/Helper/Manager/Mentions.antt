-- ===== src/Helper/Manager/Mentions.antt =====
-- What `strings.Contains` and the filter of `CaptureLogs` of helper/internal/ats/manager.go say of a
-- line.
use ats_proxy_manager.Prelude.{
  true, false, List, [], ◌∷◌, ◌++◌, ◌≡◌, ◌⊎◌, inl, inr, refl, ap, ◌∙◌, ==_refl, Bool-cases, arith,
  Str, codes,
}
use ats_proxy_manager.Helper.Manager.Logs.{starts_with, contains, is_relevant}

-- The text p stands somewhere in s.
abbrev pub Occurs : Str → Str → Type 0
Occurs p s = (before : Str) × (after : Str) × (s ≡ before ++ (p ++ after))

abbrev pub Mentions : Str → Type 0
Mentions line = Occurs (codes "Result for") line ⊎ Occurs (codes "parent") line

-- The lines that mention one of the two texts, in their order, and no others.
abbrev pub Picked : List Str → List Str → Type 0
Picked [] picked = picked ≡ []
Picked (l ∷ ls) picked =
    (Mentions l × ((rest : List Str) × (picked ≡ l ∷ rest) × Picked ls rest))
    ⊎ ((Mentions l → false ≡ true) × Picked ls picked)

starts_with-inv : (p s : Str) → starts_with p s ≡ true → (after : Str) × (s ≡ p ++ after)
starts_with-inv [] s h = (s, refl)
starts_with-inv (c ∷ p) [] h = cc h
starts_with-inv (c ∷ p) (d ∷ s) h =
    let (after, e) = starts_with-inv p s (ground (arith, h)) in (after, ground (arith, h, e))

starts_with-append : (p after : Str) → starts_with p (p ++ after) ≡ true
starts_with-append [] after = refl
starts_with-append (c ∷ p) after = rw (==_refl c) (starts_with-append p after)

contains-Occurs : (p s : Str) → contains p s ≡ true → Occurs p s
unfolding contains
contains-Occurs p [] h = let (after, e) = starts_with-inv p [] h in ([], after, e)
contains-Occurs p (c ∷ s) h = elim (Bool-cases (starts_with p (c ∷ s))) [
  | inl here ↦ let (after, e) = starts_with-inv p (c ∷ s) here in ([], after, e)
  | inr there ↦
      let (before, after, e) = contains-Occurs p s (ground (arith, h, there)) in
      (c ∷ before, after, ap (λ t. c ∷ t) e)
]

contains-append : (p before after : Str) → contains p (before ++ (p ++ after)) ≡ true
unfolding contains
contains-append p [] after = at_front (p ++ after) (starts_with-append p after)
  where
    at_front : (s : Str) → starts_with p s ≡ true → contains p s ≡ true
    at_front [] h = h
    at_front (c ∷ s) h = rw h refl
contains-append p (c ∷ before) after = ground (arith, contains-append p before after)

Occurs-contains : (p s : Str) → Occurs p s → contains p s ≡ true
Occurs-contains p s (before, after, e) = ap (contains p) e ∙ contains-append p before after

-- The filter keeps exactly these lines.
pub is_relevant-Mentions : (line : Str) → is_relevant line ≡ true → Mentions line
is_relevant-Mentions line h = elim (Bool-cases (contains (codes "Result for") line)) [
  | inl yes_case ↦ inl (contains-Occurs (codes "Result for") line yes_case)
  | inr no_case ↦ inr (contains-Occurs (codes "parent") line (ground (arith, h, no_case)))
]

pub not_relevant-Mentions : (line : Str) → is_relevant line ≡ false → Mentions line → false ≡ true
not_relevant-Mentions line h (inl o) =
    ground (arith, h, Occurs-contains (codes "Result for") line o)
not_relevant-Mentions line h (inr o) = ground (arith, h, Occurs-contains (codes "parent") line o)
