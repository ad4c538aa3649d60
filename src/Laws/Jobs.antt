-- ===== src/Laws/Jobs.antt =====
-- The jobs of backend/internal/scheduler/jobs.go spare the proxies that are seen.
use ats_proxy_manager.Prelude.{
  ℕ, ◌*◌, Bool, true, false, not, some, List, [], ◌∷◌, ◌≡◌, ◌⊎◌, inl, inr, refl, ◌∙◌, ◌&&◌, arith,
  Bool-cases,
}
use ats_proxy_manager.Prelude.Table.{find, delete_where, update_where, find-update_where}
use ats_proxy_manager.Domain.Models.{Proxy}
use ats_proxy_manager.Store.{Db, World}
use ats_proxy_manager.Store.Outcomes.{ignore_statement-lem}
use ats_proxy_manager.Repository.Keys.{find_proxy}
use ats_proxy_manager.Repository.ProxyRepo
use ats_proxy_manager.Repository.ProxyRepo.{minute, hour, older_than}
use ats_proxy_manager.Repository.ProxyLogsRepo
use ats_proxy_manager.Repository.ProxyStatsRepo
use ats_proxy_manager.Scheduler.{
  Job, proxy_status_check, proxy_cleanup, log_cleanup, stats_cleanup, tick,
}

-- The first row with a key stays the first, if it is not deleted.
find-delete_where_kept :
    {A : Type 0} (key : A → ℕ) (k : ℕ) (q : A → Bool) (xs : List A) (x : A)
    → find key k xs ≡ some x
    → q x ≡ false
    → find key k (delete_where q xs) ≡ some x
unfolding find delete_where
find-delete_where_kept key k q [] x e h = cc
find-delete_where_kept key k q (y ∷ xs) x e h = ground (arith, find-delete_where_kept key k q xs x)

-- The row as before, or marked offline after two minutes of silence.
abbrev pub Spared : ℕ → Proxy → ℕ → Db → Type 0
Spared id p now db =
    (find_proxy id db ≡ some p)
    ⊎ ((find_proxy id db ≡ some (record p { is_online = false }))
        × (older_than (2 * minute) now p.last_seen ≡ true))

marked-Spared :
    (id : ℕ) (p : Proxy) (now : ℕ) (db : Db)
    → find_proxy id db ≡ some p
    → Spared id p now (record db {
      proxies =
          update_where
            (λ x. older_than (2 * minute) now x.last_seen && x.is_online)
            (λ x. record x { is_online = false })
            db.proxies;
    })
marked-Spared id p now db e =
    let after =
      find-update_where (λ (x : Proxy). x.id) id
        (λ x. older_than (2 * minute) now x.last_seen && x.is_online)
        (λ x. record x { is_online = false }) db.proxies (λ x. refl) in
    elim (Bool-cases (older_than (2 * minute) now p.last_seen && p.is_online)) [
      | inl silent ↦ inr (after ∙ rw e (rw silent refl), ground (arith, silent))
      | inr seen ↦ inl (after ∙ rw e (rw seen refl))
    ]

-- A tick of any job, whether its statement fails or not, leaves a proxy that is online, or was
-- seen within four hours, as it is; except that it may mark it offline if it was last seen more
-- than two minutes ago.
pub tick-Spared :
    (j : Job) (w : World) (id : ℕ) (p : Proxy)
    → find_proxy id w.db ≡ some p
    → (not p.is_online && older_than (4 * hour) w.now p.last_seen) ≡ false
    → Spared id p w.now (tick j w).1.db
unfolding tick ProxyRepo.mark_offline_stale ProxyRepo.delete_offline_stale
    ProxyLogsRepo.cleanup_expired ProxyStatsRepo.cleanup_old
tick-Spared proxy_status_check w id p e h =
    ignore_statement-lem (Spared id p w.now) _ w (inl e) (marked-Spared id p w.now w.db e)
tick-Spared proxy_cleanup w id p e h =
    ignore_statement-lem (Spared id p w.now) _ w (inl e)
      (inl (find-delete_where_kept (λ (x : Proxy). x.id) id _ w.db.proxies p e h))
tick-Spared log_cleanup w id p e h = ignore_statement-lem (Spared id p w.now) _ w (inl e) (inl e)
tick-Spared stats_cleanup w id p e h = ignore_statement-lem (Spared id p w.now) _ w (inl e) (inl e)
