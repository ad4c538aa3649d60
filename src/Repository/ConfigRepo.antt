-- ===== src/Repository/ConfigRepo.antt =====
-- backend/internal/repository/config_repo.go.
use ats_proxy_manager.Prelude.{
  ℕ, ◌+◌, Bool, not, Option, none, some, [], ◌∷◌, ◌++◌, ◌==◌, ◌&&◌, Str, str_eq,
}
use ats_proxy_manager.Prelude.Table.{select_first, some_row, update_where, delete_where}
use ats_proxy_manager.Domain.Enums.{
  RuleAction, not_found, invalid_status, draft, pending_approval, approved, active, status_eq,
}
use ats_proxy_manager.Domain.Models.{Config}
use ats_proxy_manager.Store.{Db, M, guard, or_raise, statement, ◌>>=◌}
use ats_proxy_manager.Repository.Keys.{
  find_config, has_config, has_user, has_user?, is_value, is_assigned, checked,
}

-- What the caller of `Create` fills in.
pub record NewConfig : Type 0 where
  pub name : Str
  pub description : Option Str
  pub default_action : RuleAction
  pub created_by : Option ℕ

unfoldable pub get_by_id : ℕ → M Config
get_by_id id = do
  found ← statement (λ now db. some (find_config id db, db))
  or_raise found not_found

-- `proxies.config_id` refers to configs without a cascade; the rules and `config_proxies` have one.
unfoldable pub delete_config : ℕ → Db → Db
delete_config id db = record db {
  configs = delete_where (λ c. c.id == id) db.configs;
  domain_rules = delete_where (λ r. r.config_id == id) db.domain_rules;
  ip_range_rules = delete_where (λ r. r.config_id == id) db.ip_range_rules;
  parent_proxies = delete_where (λ r. r.config_id == id) db.parent_proxies;
  client_acl_rules = delete_where (λ r. r.config_id == id) db.client_acl_rules;
  config_proxies = delete_where (λ r. r.config_id == id) db.config_proxies;
}

unfoldable pub delete : ℕ → M (Unit {0})
unfolding delete_config
delete id = do
  affected ← statement (λ now db.
      checked (not (some_row (λ p. is_value id p.config_id) db.proxies))
        (has_config id db, delete_config id db))
  guard affected not_found

-- The row that an INSERT adds.
unfoldable pub inserted : NewConfig → ℕ → ℕ → Db → Config
inserted c version now db = record {
  id = db.serial;
  name = c.name;
  description = c.description;
  status = draft;
  version = version;
  default_action = c.default_action;
  created_by = c.created_by;
  created_at = now;
  modified_by = c.created_by;
  modified_at = now;
  submitted_by = none;
  submitted_at = none;
  approved_by = none;
  approved_at = none;
  config_hash = none;
}

-- The caller's struct gets the columns that RETURNING names; `modified_by` is not one.
unfoldable pub create_with_version : NewConfig → ℕ → M Config
unfolding inserted
create_with_version c version = statement λ now db. checked (has_user? c.created_by db) (
  record (inserted c version now db) { modified_by = none },
  record db { configs = db.configs ++ inserted c version now db ∷ []; serial = db.serial + 1 },
)

-- `version` takes the column's default.
unfoldable pub create : NewConfig → M Config
create c = create_with_version c 1

unfoldable pub update : Config → M (Unit {0})
update c = do
  affected ← statement (λ now db. checked (has_user? c.modified_by db) (
    some_row (λ r. r.id == c.id && status_eq r.status draft) db.configs,
    record db {
      configs =
          update_where (λ r. r.id == c.id && status_eq r.status draft)
            (λ r. record r {
              name = c.name;
              description = c.description;
              default_action = c.default_action;
              modified_by = c.modified_by;
              modified_at = now;
            })
            db.configs;
    },
  ))
  guard affected invalid_status

unfoldable pub submit : ℕ → ℕ → M (Unit {0})
submit id user_id = do
  affected ← statement (λ now db. checked (has_user user_id db) (
    some_row (λ r. r.id == id && status_eq r.status draft) db.configs,
    record db {
      configs =
          update_where (λ r. r.id == id && status_eq r.status draft)
            (λ r. record r {
              status = pending_approval;
              submitted_by = some user_id;
              submitted_at = some now;
              modified_by = some user_id;
              modified_at = now;
            })
            db.configs;
    },
  ))
  guard affected invalid_status

unfoldable pub approve : ℕ → ℕ → Str → M (Unit {0})
approve id user_id hash = do
  affected ← statement (λ now db. checked (has_user user_id db) (
    some_row (λ r. r.id == id && status_eq r.status pending_approval) db.configs,
    record db {
      configs =
          update_where (λ r. r.id == id && status_eq r.status pending_approval)
            (λ r. record r {
              status = active;
              approved_by = some user_id;
              approved_at = some now;
              modified_by = some user_id;
              modified_at = now;
              config_hash = some hash;
            })
            db.configs;
    },
  ))
  guard affected invalid_status

unfoldable pub reject : ℕ → M (Unit {0})
reject id = do
  affected ← statement (λ now db. some (
    some_row (λ r. r.id == id && status_eq r.status pending_approval) db.configs,
    record db {
      configs =
          update_where (λ r. r.id == id && status_eq r.status pending_approval)
            (λ r. record r {
              status = draft;
              submitted_by = none;
              submitted_at = none;
              modified_at = now;
            })
            db.configs;
    },
  ))
  guard affected invalid_status

unfoldable pub update_hash : ℕ → Str → M (Unit {0})
update_hash id hash = statement λ now db. some (
  tt,
  record db {
    configs = update_where (λ r. r.id == id) (λ r. record r { config_hash = some hash }) db.configs;
  },
)

-- The join of `GetActiveForProxy`; `LIMIT 1` takes the first row.
unfoldable pub get_active_for_proxy : Str → M Config
get_active_for_proxy hostname = do
  found ← statement (λ now db. some (
    select_first
        (λ c.
          status_eq c.status active
          && some_row (λ p. str_eq p.hostname hostname && is_assigned c.id p.id db) db.proxies)
        db.configs,
    db,
  ))
  or_raise found not_found

-- Whether two configs have a proxy in common.
unfoldable pub shares_proxy : ℕ → ℕ → Db → Bool
shares_proxy id active_id db =
    some_row (λ cp2. cp2.config_id == id && is_assigned active_id cp2.proxy_id db) db.config_proxies

unfoldable pub deactivate_others : ℕ → M (Unit {0})
unfolding shares_proxy
deactivate_others active_id = statement λ now db. some (
  tt,
  record db {
    configs =
        update_where
          (λ r.
            status_eq r.status active
            && (not (r.id == active_id) && shares_proxy r.id active_id db))
          (λ r. record r { status = approved }) db.configs;
  },
)
