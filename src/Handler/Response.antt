-- ===== src/Handler/Response.antt =====
-- backend/internal/handler/response.go: the answer to an error, and the pages of a list.
pub mod Pages
use ats_proxy_manager.Prelude.{
  ℕ, ◌+◌, ◌-◌, ◌*◌, ◌/◌, ◌%◌, Option, none, some, [], ltb, ◌==◌, ◌&&◌, not, if◌then◌else◌, ◌∷◌, ℤ,
  pos, negsuc, Str, codes,
}
use ats_proxy_manager.Domain.Enums.{
  Error, not_found, forbidden, unauthorized, invalid_status, conflict, bad_request, internal,
}

-- The status code and the `error` field of the answer; the message is left out.
unfoldable pub respond_domain_error : Error → ℕ × Str
respond_domain_error not_found = (404, codes "not_found")
respond_domain_error forbidden = (403, codes "forbidden")
respond_domain_error unauthorized = (401, codes "unauthorized")
respond_domain_error invalid_status = (400, codes "invalid_status")
respond_domain_error conflict = (409, codes "conflict")
respond_domain_error bad_request = (400, codes "bad_request")
respond_domain_error internal = (500, codes "internal_error")

-- `v > 0` of a number that was read.
abbrev pub page_or_default : Option ℤ → ℕ
page_or_default (some (pos v)) = if ltb 0 v then v else 1
page_or_default _ = 1

-- `v > 0 && v <= 100`.
abbrev pub limit_or_default : Option ℤ → ℕ
limit_or_default (some (pos v)) = if ltb 0 v && not (ltb 100 v) then v else 20
limit_or_default _ = 20

-- `strconv.Atoi` is a parameter. An empty text is not read.
unfoldable pub parse_pagination : (Str → Option ℤ) → Str → Str → ℕ × ℕ
parse_pagination atoi page limit = (
  elim page [ [] ↦ 1 | c ∷ s ↦ page_or_default (atoi (c ∷ s)) ],
  elim limit [ [] ↦ 20 | c ∷ s ↦ limit_or_default (atoi (c ∷ s)) ],
)

-- On 64 bits: the product of a page beyond 2^56 or so wraps around.
unfoldable pub pagination_offset : ℕ → ℕ → ℕ
pagination_offset page limit = (page - 1) * limit % 18446744073709551616

unfoldable pub total_pages : ℕ → ℕ → ℕ
total_pages total limit =
    if limit == 0 then 0 else if ltb 0 (total % limit) then total / limit + 1 else total / limit
