-- ===== src/Handler/Response/Pages.antt =====
-- The pages of backend/internal/handler/response.go cover a list.
use native.Mathlib.Nat.{mod-lt, mod-eq_of_lt, mod-add-div', mul-le-mul_right, suc-mul}
use ats_proxy_manager.Prelude.{
  ℕ, ◌+◌, ◌-◌, ◌*◌, ◌/◌, ◌%◌, suc, ltb, ltb→lt, ◌⊎◌, ◌↔◌, inl, inr, Bool-cases, ◌≤◌, ◌<◌, Option,
  none, some, [], ◌∷◌, ◌≡◌, arith, ℤ, pos, negsuc, Str,
}
use ats_proxy_manager.Handler.Response.{
  parse_pagination, pagination_offset, total_pages, page_or_default, limit_or_default,
}

page_positive : (o : Option ℤ) → 1 ≤ page_or_default o
page_positive none = omega arith
page_positive (some (pos v)) = ground arith
page_positive (some (negsuc v)) = omega arith

limit_in_range : (o : Option ℤ) → (1 ≤ limit_or_default o) × (limit_or_default o ≤ 100)
limit_in_range none = omega arith
limit_in_range (some (pos v)) = (ground arith, ground arith)
limit_in_range (some (negsuc v)) = omega arith

-- Whatever the query says, the page is at least 1 and the limit from 1 to 100.
pub parse_pagination_bounds :
    (atoi : Str → Option ℤ) (page limit : Str)
    → (1 ≤ (parse_pagination atoi page limit).0)
      × (1 ≤ (parse_pagination atoi page limit).1)
      × ((parse_pagination atoi page limit).1 ≤ 100)
unfolding parse_pagination
parse_pagination_bounds atoi page limit = (page_at page, (limit_at limit).0, (limit_at limit).1)
  where
    page_at : (s : Str) → 1 ≤ (parse_pagination atoi s []).0
    page_at [] = omega arith
    page_at (c ∷ s) = page_positive (atoi (c ∷ s))

    limit_at :
        (s : Str) → (1 ≤ (parse_pagination atoi [] s).1) × ((parse_pagination atoi [] s).1 ≤ 100)
    limit_at [] = omega arith
    limit_at (c ∷ s) = limit_in_range (atoi (c ∷ s))

-- A remainder makes one page more.
pages_cases :
    (total limit : ℕ)
    → 1 ≤ limit
    → ((1 ≤ total % limit) × (total_pages total limit ≡ total / limit + 1))
      ⊎ ((total % limit ≡ 0) × (total_pages total limit ≡ total / limit))
unfolding total_pages
pages_cases total limit l = elim (Bool-cases (ltb 0 (total % limit))) [
  | inl more ↦ inl (ltb→lt 0 (total % limit) more, ground (arith, l, more))
  | inr even ↦ inr (ground (arith, even), ground (arith, l, even))
]

division : (total limit : ℕ) → total / limit * limit + total % limit ≡ total
division total limit = omega (arith, mod-add-div' total limit)

-- Pages counted from 0: those before the last start before the end of the list.
starts_before : (total limit k : ℕ) → 1 ≤ limit → k < total_pages total limit → k * limit < total
starts_before total limit k l h = elim (pages_cases total limit l) [
  | inl (more, e) ↦
      let le : k ≤ total / limit = omega (arith, h, e) in
      omega (arith, mul-le-mul_right limit le, division total limit, more)
  | inr (even, e) ↦
      let le : suc k ≤ total / limit = omega (arith, h, e) in
      omega (arith, mul-le-mul_right limit le, suc-mul k limit, division total limit, even, l)
]

-- And the one after the last does not.
ends_by : (total limit k : ℕ) → 1 ≤ limit → total_pages total limit ≤ k → total ≤ k * limit
ends_by total limit k l h = elim (pages_cases total limit l) [
  | inl (more, e) ↦
      let le : suc (total / limit) ≤ k = omega (arith, h, e) in
      omega (
        arith,
        mul-le-mul_right limit le,
        suc-mul (total / limit) limit,
        division total limit,
        mod-lt total l,
      )
  | inr (even, e) ↦
      let le : total / limit ≤ k = omega (arith, h, e) in
      omega (arith, mul-le-mul_right limit le, division total limit, even)
]

-- With a positive limit, and where the offset fits in 63 bits, the pages up to the last one are
-- exactly those that start before the end of the list.
pub total_pages-pagination_offset :
    (total limit page : ℕ)
    → 1 ≤ limit
    → 1 ≤ page
    → (page - 1) * limit < 9223372036854775808
    → (pagination_offset page limit < total) ↔ (page ≤ total_pages total limit)
unfolding pagination_offset
total_pages-pagination_offset total limit page l p fits =
    let exact : (page - 1) * limit % 18446744073709551616 ≡ (page - 1) * limit =
      mod-eq_of_lt (omega (arith, fits)) in
    (
      λ before. elim (le_or_gt page (total_pages total limit)) [
        | inl le ↦ le
        | inr gt ↦
            absurd
              (omega (arith, before, exact, ends_by total limit (page - 1) l (omega (arith, gt))))
      ],
      λ le. omega (arith, exact, starts_before total limit (page - 1) l (omega (arith, le, p))),
    )
  where
    le_or_gt : (a b : ℕ) → (a ≤ b) ⊎ (b < a)
    le_or_gt a b = omega arith
