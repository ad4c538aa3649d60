-- ===== src/Store.antt =====
-- The database and the statements sent to it: backend/internal/repository/db.go over the tables
-- of backend/migrations.
--
-- A repository call is an action of `M`: it takes the world and returns a result and the next
-- world. `faults` is the schedule of failures outside the program (a lost connection, a timeout,
-- a constraint that the model leaves out): each statement takes one entry, and fails if it is
-- `true`. As in PostgreSQL, a statement that fails inside a transaction aborts it: every later
-- statement of the transaction fails, and its commit rolls back. The clock stands still during
-- one request and moves between requests.
pub mod Sat
pub mod Outcomes
pub mod Total
use ats_proxy_manager.Prelude.{ℕ, zero, suc, Bool, true, false, Option, none, some, List, [], ◌∷◌}
use ats_proxy_manager.Domain.Enums.{Error, internal}
use ats_proxy_manager.Domain.Models.{
  User, Session, Config, DomainRule, IpRangeRule, ClientAclRule, ParentProxy, Proxy, ConfigProxy,
  ProxyStat, ProxyLog, AuditLog,
}

-- `serial` is where the next UUID comes from: the values handed out are all different, which is
-- what `uuid_generate_v4` promises.
pub record Db : Type 0 where
  pub users : List User
  pub sessions : List Session
  pub configs : List Config
  pub domain_rules : List DomainRule
  pub ip_range_rules : List IpRangeRule
  pub parent_proxies : List ParentProxy
  pub client_acl_rules : List ClientAclRule
  pub proxies : List Proxy
  pub config_proxies : List ConfigProxy
  pub proxy_stats : List ProxyStat
  pub proxy_logs : List ProxyLog
  pub audit_logs : List AuditLog
  pub serial : ℕ

pub data Tx : Type 0 where
  -- outside a transaction, in one, in one that a failed statement has aborted
  idle running aborted : Tx

pub record World : Type 0 where
  pub db : Db
  pub faults : List Bool
  pub now : ℕ
  pub tx : Tx

pub data Result (A : Type 0) : Type 0 where
  ok : A → Result A
  err : Error → Result A

abbrev pub M : Type 0 → Type 0
M A = World → Result A × World

unfoldable pub pure : {A : Type 0} → A → M A
pure a w = (ok a, w)

unfoldable pub raise : {A : Type 0} → Error → M A
raise e w = (err e, w)

abbrev pub continue : {A B : Type 0} → Result A → (A → M B) → M B
continue (ok a) f w = f a w
continue (err e) f w = (err e, w)

infixl 5 ◌>>=◌ ◌>>◌
unfoldable pub ◌>>=◌ : {A B : Type 0} → M A → (A → M B) → M B
◌>>=◌ m f w = let (r, w') = m w in continue r f w'

abbrev pub ◌>>◌ : {A B : Type 0} → M A → M B → M B
m >> k = m >>= λ _. k

-- `if !b { return e }`.
unfoldable pub guard : Bool → Error → M (Unit {0})
guard true e w = (ok tt, w)
guard false e w = (err e, w)

-- A value that is missing is the error `e`.
unfoldable pub or_raise : {A : Type 0} → Option A → Error → M A
or_raise none e w = (err e, w)
or_raise (some a) e w = (ok a, w)

-- `time.Now()` and `NOW()`.
unfoldable pub get_now : M ℕ
get_now w = (ok w.now, w)

-- `_ = f()`: the error is dropped, what was done stays.
abbrev pub dropped : {A : Type 0} → Result A × World → Result (Unit {0}) × World
dropped (r, w) = (ok tt, w)

unfoldable pub ignore : {A : Type 0} → M A → M (Unit {0})
ignore m w = dropped (m w)

-- What a failed statement does to the transaction it stands in.
abbrev pub abort : Tx → Tx
abort idle = idle
abort running = aborted
abort aborted = aborted

-- A statement answers with rows and the next tables, or is refused by a constraint (`none`).
abbrev pub Statement : Type 0 → Type 0
Statement A = ℕ → Db → Option (A × Db)

abbrev pub answer : {A : Type 0} → Option (A × Db) → M A
answer none w = (err internal, record w { tx = abort w.tx })
answer (some (a, db')) w = (ok a, record w { db = db' })

abbrev pub attempt : {A : Type 0} → Bool → Statement A → M A
attempt true f w = (err internal, record w { tx = abort w.tx })
attempt false f w = answer (f w.now w.db) w

abbrev pub next_fault : List Bool → Bool
next_fault [] = false
next_fault (b ∷ bs) = b

abbrev pub later_faults : List Bool → List Bool
later_faults [] = []
later_faults (b ∷ bs) = bs

abbrev pub is_aborted : Tx → Bool
is_aborted aborted = true
is_aborted _ = false

abbrev pub send : {A : Type 0} → Bool → Statement A → M A
send true f w = (err internal, w)
send false f w = attempt (next_fault w.faults) f (record w { faults = later_faults w.faults })

-- One statement, sent to the pool or to the transaction.
unfoldable pub statement : {A : Type 0} → Statement A → M A
statement f w = send (is_aborted w.tx) f w

-- `rows.Next` until it is false. `rows.Err` is never asked, so a query that breaks off after some
-- rows looks like one that had only these.
abbrev pub first_rows : {A : Type 0} → ℕ → List A → List A
first_rows zero xs = []
first_rows (suc k) [] = []
first_rows (suc k) (x ∷ xs) = x ∷ first_rows k xs

-- A query that fails: in `Query` itself, or after these many rows.
abbrev pub broken_off : {A : Type 0} → Option ℕ → List A → World → Result (List A) × World
broken_off none rows w = (err internal, w)
broken_off (some k) rows w = (ok (first_rows k rows), w)

abbrev pub fetch : {A : Type 0} → Bool → Option ℕ → (Db → List A) → M (List A)
fetch true cut rows w = broken_off cut (rows w.db) (record w { tx = abort w.tx })
fetch false cut rows w = (ok (rows w.db), w)

-- An aborted transaction has no row for a query.
abbrev pub send_query : {A : Type 0} → Bool → (List Bool → Option ℕ) → (Db → List A) → M (List A)
send_query true cut rows w = broken_off (cut w.faults) [] w
send_query false cut rows w =
    fetch (next_fault w.faults) (cut (later_faults w.faults)) rows
      (record w { faults = later_faults w.faults })

-- A query for any number of rows. How it fails, where the schedule lets it fail, is said by `cut`,
-- from the schedule that is left.
unfoldable pub query : {A : Type 0} → (List Bool → Option ℕ) → (Db → List A) → M (List A)
query cut rows w = send_query (is_aborted w.tx) cut rows w

-- `tx.Commit`: an aborted transaction is rolled back, and so is one whose commit fails.
abbrev pub commit : {A : Type 0} → Bool → Tx → Db → A → World → Result A × World
commit true t before a w = (err internal, record w { db = before; tx = idle })
commit false aborted before a w = (err internal, record w { db = before; tx = idle })
commit false _ before a w = (ok a, record w { tx = idle })

abbrev pub finish : {A : Type 0} → Db → Result A × World → Result A × World
finish before (err e, w) = (err e, record w { db = before; tx = idle })
finish before (ok a, w) =
    commit (next_fault w.faults) w.tx before a (record w { faults = later_faults w.faults })

abbrev pub begin : {A : Type 0} → Bool → M A → M A
begin true m w = (err internal, w)
begin false m w = finish w.db (m (record w { tx = running }))

-- `WithTx`: `Begin`, the body, then `Rollback` on an error and `Commit` otherwise.
unfoldable pub with_tx : {A : Type 0} → M A → M A
with_tx m w = begin (next_fault w.faults) m (record w { faults = later_faults w.faults })
