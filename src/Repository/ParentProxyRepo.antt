-- ===== src/Repository/ParentProxyRepo.antt =====
-- backend/internal/repository/parent_proxy_repo.go.
use ats_proxy_manager.Prelude.{
  Bool, Option, ℕ, ◌+◌, not, some, List, [], ◌∷◌, ◌++◌, ◌==◌, ◌&&◌, int_eq, str_eq,
}
use ats_proxy_manager.Prelude.Table.{some_row, select_all, delete_where}
use ats_proxy_manager.Domain.Models.{ParentProxy}
use ats_proxy_manager.Store.{query, Db, M, statement}
use ats_proxy_manager.Repository.Keys.{has_config, checked}
use ats_proxy_manager.Repository.Order.{PriorityOrder}

-- The rows of one config, in order of priority.
unfoldable pub list_by_config : (List Bool → Option ℕ) → PriorityOrder → ℕ → M (List ParentProxy)
list_by_config cut order config_id = query cut λ db.
    order.sort ParentProxy (λ r. r.priority)
      (select_all (λ r. r.config_id == config_id) db.parent_proxies)

-- The caller's struct, with the columns that the database fills in.
unfoldable pub created : ParentProxy → ℕ → Db → ParentProxy
created r now db = record r { id = db.serial; created_at = now }

unfoldable pub create : ParentProxy → M ParentProxy
unfolding created
create r = statement λ now db.
    checked
      (has_config r.config_id db
        && not (
            some_row
              (λ o.
                o.config_id == r.config_id && (str_eq o.address r.address && int_eq o.port r.port))
              db.parent_proxies))
      (
        created r now db,
        record db {
          parent_proxies = db.parent_proxies ++ created r now db ∷ [];
          serial = db.serial + 1;
        },
      )

unfoldable pub delete_by_config : ℕ → M (Unit {0})
delete_by_config config_id = statement λ now db. some (
  tt,
  record db { parent_proxies = delete_where (λ r. r.config_id == config_id) db.parent_proxies },
)
