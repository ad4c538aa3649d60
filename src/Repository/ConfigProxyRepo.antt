-- ===== src/Repository/ConfigProxyRepo.antt =====
-- backend/internal/repository/config_proxy_repo.go.
use ats_proxy_manager.Prelude.{
  Bool, Option, ℕ, none, some, List, [], ◌∷◌, ◌++◌, map, ◌==◌, ◌&&◌, if◌then◌else◌,
}
use ats_proxy_manager.Prelude.Table.{select_all, delete_where}
use ats_proxy_manager.Domain.Models.{Proxy, ConfigProxy}
use ats_proxy_manager.Store.{query, M, statement}
use ats_proxy_manager.Repository.Keys.{has_config, has_proxy, has_user, is_assigned, checked}
use ats_proxy_manager.Repository.Order.{HostnameOrder}

-- `registered_ip` is not among the columns read.
unfoldable pub list_by_config : (List Bool → Option ℕ) → HostnameOrder → ℕ → M (List Proxy)
list_by_config cut order config_id = query cut λ db.
    map {A = Proxy} (λ p. record p { registered_ip = none })
      (order.sort (select_all (λ p. is_assigned config_id p.id db) db.proxies))

-- ON CONFLICT DO NOTHING.
unfoldable pub assign : ℕ → ℕ → ℕ → M (Unit {0})
assign config_id proxy_id user_id = statement λ now db.
    let row : ConfigProxy = record {
      config_id = config_id;
      proxy_id = proxy_id;
      assigned_at = now;
      assigned_by = some user_id;
    } in
    checked (has_config config_id db && (has_proxy proxy_id db && has_user user_id db)) (
      tt,
      (if is_assigned config_id proxy_id db
          then db
          else record db { config_proxies = db.config_proxies ++ row ∷ [] }),
    )

unfoldable pub delete_by_config : ℕ → M (Unit {0})
delete_by_config config_id = statement λ now db. some (
  tt,
  record db { config_proxies = delete_where (λ r. r.config_id == config_id) db.config_proxies },
)

unfoldable pub delete_by_proxy : ℕ → M (Unit {0})
delete_by_proxy proxy_id = statement λ now db. some (
  tt,
  record db { config_proxies = delete_where (λ r. r.proxy_id == proxy_id) db.config_proxies },
)
