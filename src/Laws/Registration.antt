-- ===== src/Laws/Registration.antt =====
-- `Register` of backend/internal/service/sync_service.go.
use ats_proxy_manager.Prelude.{
  subst, some_unique, true, false, Option, none, some, ◌≡◌, ◌≢◌, refl, ◌∙◌, sym, ap, arith, Str,
  str_eq, str_eq_sound, Bool-cases, inl, inr,
}
use ats_proxy_manager.Prelude.Table.{select_first}
use ats_proxy_manager.Domain.Enums.{Error, conflict, bad_request}
use ats_proxy_manager.Domain.Models.{Proxy}
use ats_proxy_manager.Runtime.{Runtime}
use ats_proxy_manager.Store.{Db, World, err}
use ats_proxy_manager.Store.Sat.{Sat, Sat-post, Sat-bind, Sat-guard, Sat-fact}
use ats_proxy_manager.Store.Outcomes.{Sat-fails, Sat-absurd}
use ats_proxy_manager.Repository.ProxyRepo
use ats_proxy_manager.Laws.Lookup.{lookup-Sat}
use ats_proxy_manager.Service.SyncService.{
  RegisterRequest, register, register_found, re_register, may_register, or_none, is_text,
}

not_text : (s : Str) (o : Option Str) → o ≢ some s → is_text s o ≡ false
not_text s none h = refl
not_text s (some t) h = elim (Bool-cases (str_eq t s)) [
  | inl same ↦ absurd (h (ap some (str_eq_sound t s same)))
  | inr other ↦ other
]

not_eq : (s t : Str) → s ≢ t → str_eq s t ≡ false
not_eq s t h = elim (Bool-cases (str_eq s t)) [
  | inl same ↦ absurd (h (str_eq_sound s t same))
  | inr other ↦ other
]

-- Someone else's request for an online proxy.
stranger :
    (rt : Runtime) (p : Proxy) (req : RegisterRequest)
    → p.is_online ≡ true
    → p.registered_ip ≢ some req.remote_ip
    → req.proxy_id ≢ rt.uuid_string p.id
    → may_register rt p req ≡ false
unfolding may_register
stranger rt p req on ip own = ground (
  arith,
  on,
  not_text req.remote_ip p.registered_ip ip,
  not_eq req.proxy_id (rt.uuid_string p.id) own,
)

-- The query for a hostname that is there finds it, or fails otherwise than by "not found".
found-Sat :
    (hostname : Str) (p : Proxy) (before : Db)
    → select_first (λ o. str_eq o.hostname hostname) before.proxies ≡ some p
    → Sat
        (λ db. db ≡ before)
        (or_none (ProxyRepo.get_by_hostname hostname))
        (λ db. db ≡ before)
        (λ o db. (o ≡ some p) × (db ≡ before))
unfolding ProxyRepo.get_by_hostname
found-Sat hostname p before found =
    Sat-post _ (λ db t. t)
      (λ o db t. (
        t.0
            ∙ subst (λ (x : Db). select_first (λ o. str_eq o.hostname hostname) x.proxies ≡ some p)
                (sym t.1) found,
        t.1,
      ))
      (lookup-Sat (λ db. select_first (λ o. str_eq o.hostname hostname) db.proxies) (λ db t. t))

refused-Sat :
    (rt : Runtime) (p : Proxy) (req : RegisterRequest) (before : Db) (o : Option Proxy)
    → may_register rt p req ≡ false
    → o ≡ some p
    → Sat (λ db. db ≡ before) (register_found rt o req) (λ db. db ≡ before) (λ _ _. false ≡ true)
unfolding register_found re_register
refused-Sat rt p req before none refused e = cc
refused-Sat rt p req before (some q) refused e =
    let q_refused : may_register rt q req ≡ false =
      subst (λ x. may_register rt x req ≡ false) (some_unique p q refl (sym e)) refused in
    Sat-bind _ _
      (Sat-guard {Q = λ _ _. false ≡ true} _ conflict (λ db t. t)
        (λ db allowed t. sym q_refused ∙ allowed))
      λ _. Sat-absurd _

register-Sat :
    (rt : Runtime) (p : Proxy) (req : RegisterRequest) (before : Db)
    → may_register rt p req ≡ false
    → select_first (λ o. str_eq o.hostname req.hostname) before.proxies ≡ some p
    → Sat (λ db. db ≡ before) (register rt req) (λ db. db ≡ before) (λ _ _. false ≡ true)
unfolding register
register-Sat rt p req before refused found =
    Sat-bind _ _ (Sat-guard {Q = λ _ db. db ≡ before} _ bad_request (λ db t. t) (λ db _ t. t)) λ _.
      Sat-bind _ _ (found-Sat req.hostname p before found)
        λ o. Sat-fact _ (refused-Sat rt p req before o refused)

-- A request for the hostname of an online proxy, from another address and without the proxy's ID,
-- is refused, and the tables stay as they were.
pub register_stranger :
    (rt : Runtime) (p : Proxy) (req : RegisterRequest) (w : World)
    → select_first (λ o. str_eq o.hostname req.hostname) w.db.proxies ≡ some p
    → p.is_online ≡ true
    → p.registered_ip ≢ some req.remote_ip
    → req.proxy_id ≢ rt.uuid_string p.id
    → (e : Error) × (((register rt req w).0 ≡ err e) × ((register rt req w).1.db ≡ w.db))
register_stranger rt p req w found on ip own =
    Sat-fails (register rt req) w (register-Sat rt p req w.db (stranger rt p req on ip own) found)
      refl
