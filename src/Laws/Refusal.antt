-- ===== src/Laws/Refusal.antt =====
-- `Submit`, `Approve` and `Reject` of backend/internal/service/config_service.go in the wrong
-- status.
use ats_proxy_manager.Prelude.{
  ℕ, Bool, true, false, some, ◌≡◌, refl, sym, ◌∙◌, ap, subst, ◌==◌, ◌&&◌, arith,
}
use ats_proxy_manager.Prelude.Table.{some_row, update_where, update_where_none, find_key}
use ats_proxy_manager.Domain.Enums.{
  ConfigStatus, draft, pending_approval, status_eq, Error, invalid_status,
}
use ats_proxy_manager.Domain.Models.{Config}
use ats_proxy_manager.Runtime.{Runtime}
use ats_proxy_manager.Store.{Db, World, M, err, guard}
use ats_proxy_manager.Store.Sat.{Sat, Sat-bind, Sat-guard, Sat-fact, Sat-statement}
use ats_proxy_manager.Store.Outcomes.{Sat-fails, Sat-absurd}
use ats_proxy_manager.Repository.Keys.{find_config}
use ats_proxy_manager.Repository.Sat.{Sat-checked}
use ats_proxy_manager.Repository.ConfigRepo
use ats_proxy_manager.Service.ConfigService.Edit.{Caller}
use ats_proxy_manager.Service.ConfigService.Workflow.{submit, approve, reject}
use ats_proxy_manager.Invariant.ConfigStatements.{get_by_id-Sat}
use ats_proxy_manager.Laws.Progress.{found_some_row}

-- The three changes of status that users ask for.
pub data Move : Type 0 where
  submitting approving rejecting : Move

unfoldable pub move : Runtime → Move → ℕ → Caller → M Config
move rt submitting id by = submit id by
move rt approving id by = approve rt id by
move rt rejecting id by = reject id by

-- The status that a move starts from.
abbrev pub source : Move → ConfigStatus
source submitting = draft
source approving = pending_approval
source rejecting = pending_approval

-- A row with this ID and this status.
abbrev pub has_status : ℕ → ConfigStatus → Db → Bool
has_status id s db = some_row (λ r. r.id == id && status_eq r.status s) db.configs

-- An update of rows that are not there.
untouched :
    (id : ℕ) (s : ConfigStatus) (f : Config → Config) (db before : Db)
    → has_status id s before ≡ false
    → db ≡ before
    → (has_status id s db ≡ false)
      × (record db { configs = update_where (λ r. r.id == id && status_eq r.status s) f db.configs }
          ≡ before)
untouched id s f db before none_there e =
    let none_here : has_status id s db ≡ false =
      subst (λ x. has_status id s x ≡ false) (sym e) none_there in
    (
      none_here,
      ap (λ cs. record db { configs = cs })
            (update_where_none (λ r. r.id == id && status_eq r.status s) f db.configs none_here)
          ∙ e,
    )

-- The guard on the number of rows.
no_rows :
    (before : Db) (affected : Bool)
    → Sat
        (λ db. (affected ≡ false) × (db ≡ before))
        (guard affected invalid_status)
        (λ db. db ≡ before)
        (λ _ _. false ≡ true)
no_rows before affected = Sat-fact _ λ none_touched.
    Sat-guard affected invalid_status (λ db t. t)
      (λ db some_touched t. sym none_touched ∙ some_touched)

module _ (id : ℕ) (before : Db) where
  submit-Sat :
      (user_id : ℕ)
      → has_status id draft before ≡ false
      → Sat
          (λ db. db ≡ before)
          (ConfigRepo.submit id user_id)
          (λ db. db ≡ before)
          (λ _ _. false ≡ true)
  unfolding ConfigRepo.submit
  submit-Sat user_id h =
      Sat-bind _ _
        (Sat-checked {Q = λ affected db. (affected ≡ false) × (db ≡ before)} _ _ _ (λ db t. t)
          (λ now db t _. untouched id draft _ db before h t))
        (no_rows before)

  reject-Sat :
      has_status id pending_approval before ≡ false
      → Sat (λ db. db ≡ before) (ConfigRepo.reject id) (λ db. db ≡ before) (λ _ _. false ≡ true)
  unfolding ConfigRepo.reject
  reject-Sat h =
      Sat-bind _ _
        (Sat-statement {Q = λ affected db. (affected ≡ false) × (db ≡ before)} _ (λ db t. t)
          (λ now db t. untouched id pending_approval _ db before h t))
        (no_rows before)

  -- The config that is read has another status.
  other_status :
      (c : Config)
      → has_status id pending_approval before ≡ false
      → find_config id before ≡ some c
      → status_eq c.status pending_approval ≡ true
      → false ≡ true
  other_status c h found pending =
      let key : c.id ≡ id = find_key (λ (x : Config). x.id) id before.configs found in
      sym h
      ∙ found_some_row (λ (x : Config). x.id) id
          (λ r. r.id == id && status_eq r.status pending_approval) before.configs c found
          (ground (arith, key, pending))

  approve-Sat :
      (rt : Runtime) (by : Caller)
      → has_status id pending_approval before ≡ false
      → Sat (λ db. db ≡ before) (approve rt id by) (λ db. db ≡ before) (λ _ _. false ≡ true)
  unfolding approve
  approve-Sat rt by h = Sat-bind _ _ (get_by_id-Sat id (λ db t. t)) λ c.
      Sat-bind _ _
        (Sat-guard {Q = λ _ _. false ≡ true} _ invalid_status (λ db t. t.0)
          (λ db pending t.
            other_status c h (subst (λ x. find_config id x ≡ some c) t.0 t.1) pending))
        λ _. Sat-absurd _

move-Sat :
    (rt : Runtime) (m : Move) (id : ℕ) (by : Caller) (before : Db)
    → has_status id (source m) before ≡ false
    → Sat (λ db. db ≡ before) (move rt m id by) (λ db. db ≡ before) (λ _ _. false ≡ true)
unfolding move submit reject
move-Sat rt submitting id by before h =
    Sat-bind _ _ (submit-Sat id before by.user_id h) λ _. Sat-absurd _
move-Sat rt approving id by before h = approve-Sat id before rt by h
move-Sat rt rejecting id by before h = Sat-bind _ _ (reject-Sat id before h) λ _. Sat-absurd _

-- Submitting where no draft has this ID, and approving or rejecting where no pending config has it,
-- fails and leaves every table as it was.
pub move_refused :
    (rt : Runtime) (m : Move) (id : ℕ) (by : Caller) (w : World)
    → has_status id (source m) w.db ≡ false
    → (e : Error) × (((move rt m id by w).0 ≡ err e) × ((move rt m id by w).1.db ≡ w.db))
move_refused rt m id by w h = Sat-fails (move rt m id by) w (move-Sat rt m id by w.db h) refl
