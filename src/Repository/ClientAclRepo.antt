-- ===== src/Repository/ClientAclRepo.antt =====
-- backend/internal/repository/client_acl_repo.go.
use ats_proxy_manager.Prelude.{
  Bool, Option, ℕ, ◌+◌, not, some, List, [], ◌∷◌, ◌++◌, ◌==◌, ◌&&◌, str_eq,
}
use ats_proxy_manager.Prelude.Table.{some_row, select_all, delete_where}
use ats_proxy_manager.Domain.Models.{ClientAclRule}
use ats_proxy_manager.Store.{query, Db, M, statement}
use ats_proxy_manager.Repository.Keys.{has_config, checked}
use ats_proxy_manager.Repository.Order.{PriorityOrder}

-- The rows of one config, in order of priority.
unfoldable pub list_by_config : (List Bool → Option ℕ) → PriorityOrder → ℕ → M (List ClientAclRule)
list_by_config cut order config_id = query cut λ db.
    order.sort ClientAclRule (λ r. r.priority)
      (select_all (λ r. r.config_id == config_id) db.client_acl_rules)

-- The caller's struct, with the columns that the database fills in.
unfoldable pub created : ClientAclRule → ℕ → Db → ClientAclRule
created r now db = record r { id = db.serial; created_at = now }

unfoldable pub create : ClientAclRule → M ClientAclRule
unfolding created
create r = statement λ now db.
    checked
      (has_config r.config_id db
        && not (
            some_row (λ o. o.config_id == r.config_id && str_eq o.cidr r.cidr) db.client_acl_rules))
      (
        created r now db,
        record db {
          client_acl_rules = db.client_acl_rules ++ created r now db ∷ [];
          serial = db.serial + 1;
        },
      )

unfoldable pub delete_by_config : ℕ → M (Unit {0})
delete_by_config config_id = statement λ now db. some (
  tt,
  record db { client_acl_rules = delete_where (λ r. r.config_id == config_id) db.client_acl_rules },
)
