-- ===== src/Repository/Keys.antt =====
-- Primary and foreign keys: the tests behind the constraints of backend/migrations.
use ats_proxy_manager.Prelude.{ℕ, Bool, true, Option, none, some, ◌==◌, ◌&&◌, if◌then◌else◌}
use ats_proxy_manager.Prelude.Table.{find, some_row}
use ats_proxy_manager.Domain.Models.{Config, Proxy, User, Session}
use ats_proxy_manager.Store.{Db}

abbrev pub find_config : ℕ → Db → Option Config
find_config id db = find (λ (c : Config). c.id) id db.configs

abbrev pub find_proxy : ℕ → Db → Option Proxy
find_proxy id db = find (λ (p : Proxy). p.id) id db.proxies

abbrev pub find_user : ℕ → Db → Option User
find_user id db = find (λ (u : User). u.id) id db.users

abbrev pub find_session : ℕ → Db → Option Session
find_session id db = find (λ (s : Session). s.id) id db.sessions

abbrev pub has_config : ℕ → Db → Bool
has_config id db = some_row (λ c. c.id == id) db.configs

abbrev pub has_proxy : ℕ → Db → Bool
has_proxy id db = some_row (λ p. p.id == id) db.proxies

abbrev pub has_user : ℕ → Db → Bool
has_user id db = some_row (λ u. u.id == id) db.users

-- A nullable column with a foreign key: NULL refers to nothing.
abbrev pub has_user? : Option ℕ → Db → Bool
has_user? none db = true
has_user? (some id) db = has_user id db

abbrev pub has_config? : Option ℕ → Db → Bool
has_config? none db = true
has_config? (some id) db = has_config id db

-- `column = id` on a nullable column.
abbrev pub is_value : ℕ → Option ℕ → Bool
is_value id none = Bool.false
is_value id (some v) = v == id

-- `config_proxies` has the pair.
abbrev pub is_assigned : ℕ → ℕ → Db → Bool
is_assigned config_id proxy_id db =
    some_row (λ r. r.config_id == config_id && r.proxy_id == proxy_id) db.config_proxies

-- A statement that a constraint may refuse.
abbrev pub checked : {A : Type 0} → Bool → A × Db → Option (A × Db)
checked b r = if b then some r else none
