-- ===== src/Regex.antt =====
-- Regular expressions over bytes, as Go's `regexp` matches them against a whole text: what
-- `domainPattern` of backend/internal/service/config_service.go uses.
pub mod Alphabet
use ats_proxy_manager.Prelude.{ℕ, Bool, true, false, List, [], ◌∷◌, ◌&&◌, ◌||◌, if◌then◌else◌, Str}

pub data Regex : Type 0 where
  nothing : Regex
  empty : Regex
  one_of : (ℕ → Bool) → Regex
  seq : Regex → Regex → Regex
  alt : Regex → Regex → Regex
  star : Regex → Regex

-- `r?` and `r+`.
abbrev pub optional : Regex → Regex
optional r = alt empty r

abbrev pub plus : Regex → Regex
plus r = seq r (star r)

-- Whether the empty text matches.
unfoldable pub nullable : Regex → Bool
nullable nothing = false
nullable empty = true
nullable (one_of p) = false
nullable (seq r s) = nullable r && nullable s
nullable (alt r s) = nullable r || nullable s
nullable (star r) = true

-- What must follow after the byte `c`.
unfoldable pub derivative : ℕ → Regex → Regex
unfolding nullable
derivative c nothing = nothing
derivative c empty = nothing
derivative c (one_of p) = if p c then empty else nothing
derivative c (seq r s) =
    let first = seq (derivative c r) s in
    let second = derivative c s in if nullable r then alt first second else first
derivative c (alt r s) = alt (derivative c r) (derivative c s)
derivative c (star r) = seq (derivative c r) (star r)

-- `MatchString` of a pattern between `^` and `$`.
unfoldable pub accepts : Regex → Str → Bool
unfolding nullable derivative
accepts r [] = nullable r
accepts r (c ∷ s) = accepts (derivative c r) s
