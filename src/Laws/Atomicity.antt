-- ===== src/Laws/Atomicity.antt =====
-- `Create`, `Update` and `Clone` of backend/internal/service/config_service.go are all or nothing.
use ats_proxy_manager.Prelude.{ℕ, ◌≡◌, refl}
use ats_proxy_manager.Domain.Enums.{Error, bad_request}
use ats_proxy_manager.Runtime.{Runtime}
use ats_proxy_manager.Store.{Db, World, err, M}
use ats_proxy_manager.Store.Sat.{Sat, Sat-bind, Sat-guard, Sat-with_tx}
use ats_proxy_manager.Store.Outcomes.{Sat-err, Sat-any}
use ats_proxy_manager.Service.ConfigInput.{CreateConfigRequest}
use ats_proxy_manager.Service.ConfigService.Rules.{ConfigDetail}
use ats_proxy_manager.Service.ConfigService.Edit.{
  Caller, create, update, clone, create_body, update_body, clone_body,
}

-- The requests that write several tables.
pub data Edit : Type 0 where
  creating : CreateConfigRequest → Edit
  updating : ℕ → CreateConfigRequest → Edit
  cloning : ℕ → Edit

unfoldable pub perform : Runtime → Edit → Caller → M ConfigDetail
perform rt (creating req) by = create rt req by
perform rt (updating id req) by = update rt id req by
perform rt (cloning id) by = clone rt id by

perform-Sat :
    (rt : Runtime) (edit : Edit) (by : Caller) (before : Db)
    → Sat (λ db. db ≡ before) (perform rt edit by) (λ db. db ≡ before) (λ _ _. Unit {0})
unfolding perform create update clone
perform-Sat rt (creating req) by before =
    Sat-bind _ _ (Sat-guard {Q = λ _ db. db ≡ before} _ bad_request (λ db t. t) (λ db _ t. t)) λ _.
      Sat-bind _ _ (Sat-guard {Q = λ _ db. db ≡ before} _ bad_request (λ db t. t) (λ db _ t. t))
        λ _. Sat-with_tx _ (λ db t. t) (Sat-any (create_body req by))
perform-Sat rt (updating id req) by before =
    Sat-bind _ _ (Sat-guard {Q = λ _ db. db ≡ before} _ bad_request (λ db t. t) (λ db _ t. t))
      λ _. Sat-with_tx _ (λ db t. t) (Sat-any (update_body id req by))
perform-Sat rt (cloning id) by before = Sat-with_tx _ (λ db t. t) (Sat-any (clone_body rt id by))

-- Creating, updating or cloning a config either succeeds or leaves every table as it was, whichever
-- of its statements fails.
pub perform_undone :
    (rt : Runtime) (edit : Edit) (by : Caller) (w w' : World) (e : Error)
    → perform rt edit by w ≡ (err e, w')
    → w'.db ≡ w.db
perform_undone rt edit by w w' e h =
    Sat-err (perform rt edit by) w w' e (perform-Sat rt edit by w.db) refl h
