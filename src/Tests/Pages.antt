-- ===== src/Tests/Pages.antt =====
-- A list of 45 items, 20 on a page.
use ats_proxy_manager.Prelude.{
  ◌≤◌, ◌<◌, ◌↔◌, Option, none, some, ℤ, pos, Str, codes, arith, [], ◌∷◌,
}
use ats_proxy_manager.Handler.Response.{parse_pagination, pagination_offset, total_pages}
use ats_proxy_manager.Handler.Response.Pages.{
  parse_pagination_bounds, total_pages-pagination_offset,
}

abbrev reads_seven : Str → Option ℤ
reads_seven [] = none
reads_seven (c ∷ s) = some (pos 7)

parse_pagination_bounds_example :
    (1 ≤ (parse_pagination reads_seven (codes "7") (codes "7")).0)
    × (1 ≤ (parse_pagination reads_seven (codes "7") (codes "7")).1)
    × ((parse_pagination reads_seven (codes "7") (codes "7")).1 ≤ 100)
parse_pagination_bounds_example = parse_pagination_bounds reads_seven (codes "7") (codes "7")

total_pages-pagination_offset_example : (pagination_offset 3 20 < 45) ↔ (3 ≤ total_pages 45 20)
total_pages-pagination_offset_example =
    total_pages-pagination_offset 45 20 3 (omega arith) (omega arith) (omega arith)
