-- ===== src/Migrate/Files.antt =====
-- `migration` and `loadMigrations`.
use ats_proxy_manager.Prelude.{
  ℕ, Bool, Option, none, some, List, [], ◌∷◌, leb, not, ◌==◌, ◌&&◌, if◌then◌else◌, pos, Str,
}
use ats_proxy_manager.Regex.{Regex, one_of, seq, plus, accepts}
use ats_proxy_manager.Repository.Order.{PriorityOrder}

pub record Migration : Type 0 where
  pub version : ℕ
  pub filename : Str
  pub sql : Str

-- An entry of the embedded directory; `contents` is none where it cannot be read.
pub record Entry : Type 0 where
  pub name : Str
  pub is_dir : Bool
  pub contents : Option Str

abbrev is_digit : ℕ → Bool
is_digit c = leb b'0' c && leb c b'9'

-- ^\d+_.+\.sql$, where `.` is any byte but a newline
unfoldable pub migration_file_re : Regex
migration_file_re = seq (plus (one_of is_digit)) (
    seq (one_of (λ c. c == b'_')) (
      seq (plus (one_of (λ c. not (c == 10)))) (
        seq (one_of (λ c. c == b'.')) (
          seq (one_of (λ c. c == b's'))
            (seq (one_of (λ c. c == b'q')) (one_of (λ c. c == b'l')))))))

-- The group (\d+): the digits before the first other byte, which is the `_`.
unfoldable pub leading_digits : Str → Str
leading_digits [] = []
leading_digits (c ∷ s) = let rest = leading_digits s in if is_digit c then c ∷ rest else []

module _ (atoi : Str → Option ℕ) where
  abbrev with_data : Option Str → ℕ → Str → Option (List Migration) → Option (List Migration)
  with_data (some sql) version name (some rest) =
      some (record { version = version; filename = name; sql = sql } ∷ rest)
  with_data _ version name _ = none

  abbrev with_version : Option ℕ → Entry → Option (List Migration) → Option (List Migration)
  with_version none e rest = rest
  with_version (some version) e rest = with_data e.contents version e.name rest

  -- The loop: directories, other names and numbers out of range are passed over; a file that cannot
  -- be read is an error.
  unfoldable pub collect_migrations : List Entry → Option (List Migration)
  unfolding leading_digits migration_file_re accepts
  collect_migrations [] = some []
  collect_migrations (e ∷ es) =
      let rest = collect_migrations es in
      if e.is_dir
      then rest
      else if accepts migration_file_re e.name
      then with_version (atoi (leading_digits e.name)) e rest
      else rest

  abbrev sorted_migrations : PriorityOrder → Option (List Migration) → Option (List Migration)
  sorted_migrations order none = none
  sorted_migrations order (some ms) = some (order.sort Migration (λ m. pos m.version) ms)

  -- `entries` is none where the directory cannot be read.
  unfoldable pub load_migrations : PriorityOrder → Option (List Entry) → Option (List Migration)
  unfolding collect_migrations
  load_migrations order none = none
  load_migrations order (some entries) = sorted_migrations order (collect_migrations entries)
