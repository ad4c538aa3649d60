-- ===== src/Repository/ProxyRepo.antt =====
-- backend/internal/repository/proxy_repo.go.
use ats_proxy_manager.Prelude.{
  ℕ, ◌+◌, ◌*◌, Bool, true, false, not, Option, none, some, [], ◌∷◌, ◌++◌, ◌==◌, ltb, ◌&&◌, Str,
  str_eq,
}
use ats_proxy_manager.Prelude.Table.{select_first, some_row, update_where, delete_where}
use ats_proxy_manager.Domain.Enums.{not_found}
use ats_proxy_manager.Domain.Models.{Proxy}
use ats_proxy_manager.Store.{Db, M, guard, or_raise, statement, ◌>>=◌}
use ats_proxy_manager.Repository.Keys.{find_proxy, has_proxy, has_config?, checked}

-- Nanoseconds.
abbrev pub second : ℕ
second = 1000000000

abbrev pub minute : ℕ
minute = 60 * second

abbrev pub hour : ℕ
hour = 60 * minute

-- What the caller of `Create` fills in.
pub record NewProxy : Type 0 where
  pub hostname : Str
  pub config_id : Option ℕ
  pub registered_ip : Option Str

unfoldable pub get_by_id : ℕ → M Proxy
get_by_id id = do
  found ← statement (λ now db. some (find_proxy id db, db))
  or_raise found not_found

unfoldable pub get_by_hostname : Str → M Proxy
get_by_hostname hostname = do
  found ← statement (λ now db. some (select_first (λ p. str_eq p.hostname hostname) db.proxies, db))
  or_raise found not_found

-- `hostname` is unique.
unfoldable pub create : NewProxy → M Proxy
create p = statement λ now db.
    let row : Proxy = record {
      id = db.serial;
      hostname = p.hostname;
      config_id = p.config_id;
      is_online = false;
      last_seen = none;
      current_config_hash = none;
      registered_at = now;
      registered_ip = p.registered_ip;
      capture_logs_until = none;
    } in
    checked
      (has_config? p.config_id db && not (some_row (λ o. str_eq o.hostname p.hostname) db.proxies))
      (row, record db { proxies = db.proxies ++ row ∷ []; serial = db.serial + 1 })

-- UPDATE proxies SET f WHERE id = id.
unfoldable pub set_proxy : ℕ → (Proxy → Proxy) → Db → Db
set_proxy id f db = record db { proxies = update_where (λ p. p.id == id) f db.proxies }

unfoldable pub update_registered_ip : ℕ → Str → M (Unit {0})
unfolding set_proxy
update_registered_ip id ip =
    statement λ now db. some (tt, set_proxy id (λ p. record p { registered_ip = some ip }) db)

unfoldable pub update_last_seen : ℕ → M (Unit {0})
unfolding set_proxy
update_last_seen id =
    statement λ now db.
      some (tt, set_proxy id (λ p. record p { last_seen = some now; is_online = true }) db)

unfoldable pub update_config_hash : ℕ → Str → M (Unit {0})
unfolding set_proxy
update_config_hash id hash = statement λ now db. some (
  tt,
  set_proxy id
      (λ p. record p { current_config_hash = some hash; last_seen = some now; is_online = true })
      db,
)

unfoldable pub set_capture_logs_until : ℕ → ℕ → M (Unit {0})
unfolding set_proxy
set_capture_logs_until id until =
    statement
      λ now db. some (tt, set_proxy id (λ p. record p { capture_logs_until = some until }) db)

-- `last_seen < NOW() - INTERVAL age`, which is not true of NULL.
abbrev pub older_than : ℕ → ℕ → Option ℕ → Bool
older_than age now none = false
older_than age now (some t) = ltb (t + age) now

unfoldable pub mark_offline_stale : M (Unit {0})
mark_offline_stale = statement λ now db. some (
  tt,
  record db {
    proxies =
        update_where (λ p. older_than (2 * minute) now p.last_seen && p.is_online)
          (λ p. record p { is_online = false }) db.proxies;
  },
)

-- The rows that refer to a deleted proxy go with it.
abbrev pub without_orphans : Db → Db
without_orphans db = record db {
  config_proxies = delete_where (λ r. not (has_proxy r.proxy_id db)) db.config_proxies;
  proxy_stats = delete_where (λ r. not (has_proxy r.proxy_id db)) db.proxy_stats;
  proxy_logs = delete_where (λ r. not (has_proxy r.proxy_id db)) db.proxy_logs;
}

unfoldable pub delete_offline_stale : M (Unit {0})
delete_offline_stale = statement λ now db. some (
  tt,
  without_orphans (record db {
    proxies =
        delete_where (λ p. not p.is_online && older_than (4 * hour) now p.last_seen) db.proxies;
  }),
)

unfoldable pub delete : ℕ → M (Unit {0})
delete id = do
  affected ← statement (λ now db. some (
    has_proxy id db,
    without_orphans (record db { proxies = delete_where (λ p. p.id == id) db.proxies }),
  ))
  guard affected not_found
