-- ===== src/Runtime.antt =====
-- What the program takes from its libraries: `net`, `fmt`, `strconv`, `sort` and `crypto/sha256`
-- of Go, `google/uuid`, and the sorting of the database. All of it is one parameter.
use ats_proxy_manager.Prelude.{ℕ, Bool, Option, List, ℤ, Str}
use ats_proxy_manager.Repository.Order.{PriorityOrder, HostnameOrder}

-- `net.IP`: four bytes where `To4` answers, sixteen otherwise.
pub data Ip : Type 0 where
  v4 : List ℕ → Ip
  v6 : List ℕ → Ip

-- `*net.IPNet`: the address with its host bits cleared, the mask's bytes, and their leading ones.
pub record IpNet : Type 0 where
  pub ip : Ip
  pub mask : List ℕ
  pub ones : ℕ

pub record Runtime : Type 1 where
  -- `net.ParseIP` and `net.ParseCIDR`
  pub parse_ip : Str → Option Ip
  pub parse_cidr : Str → Option IpNet
  -- `strconv.Itoa` and `%d`
  pub itoa : ℤ → Str
  -- `%q`
  pub quote : Str → Str
  -- the SHA-256 of a text, in hexadecimal
  pub sha256_hex : Str → Str
  -- `uuid.UUID.String` and `uuid.Parse`
  pub uuid_string : ℕ → Str
  pub uuid_parse : Str → Option ℕ
  -- how a query for rows fails, by the failures still to come: none where `Query` itself answers
  -- with the error, or the rows that come before only `rows.Err` has it
  pub rows_before_error : List Bool → Option ℕ
  -- `ORDER BY priority`, `ORDER BY hostname` and `sort.Slice` by priority
  pub row_order : PriorityOrder
  pub hostname_order : HostnameOrder
  pub slice_order : PriorityOrder
