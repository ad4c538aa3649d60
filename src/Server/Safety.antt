-- ===== src/Server/Safety.antt =====
-- What holds of every database that requests can lead to.
use ats_proxy_manager.Prelude.{Str, ℕ, Bool, true, some, List, ◌≡◌, ◌∙◌, refl, sym, subst}
use ats_proxy_manager.Prelude.Table.{find, some_row}
use ats_proxy_manager.Domain.Enums.{active}
use ats_proxy_manager.Domain.Models.{Config, User}
use ats_proxy_manager.Runtime.{Runtime}
use ats_proxy_manager.Store.{Db, World, Result, ok, err, M}
use ats_proxy_manager.Store.Sat.{Keeps, Post, Sat-ignore}
use ats_proxy_manager.Repository.Keys.{find_config, is_assigned}
use ats_proxy_manager.Server.{
  Request, create, update, clone, delete, submit, approve, reject, assign_config, delete_proxy,
  start_log_capture, register, get_config, ack, stats, logs, job, serve, after, initial, Step,
  served, accessed, Reach, here, next, after_access,
}
use ats_proxy_manager.Auth.{Crypto}
use ats_proxy_manager.Server.Access.{AccessRequest, serve_access}
use ats_proxy_manager.Invariant.Access.{serve_users-Keeps, serve_access-Keeps, authenticated-Keeps}
use ats_proxy_manager.Server.Routes.{Route, serve_route, is_restricted}
use ats_proxy_manager.Invariant.Routes.{sessions-Inv, users-Inv, gated-Inv}
use ats_proxy_manager.Server.{routed, after_route}
use ats_proxy_manager.Invariant.Lifecycle.{Stage, Inv, active_at-of}
use ats_proxy_manager.Invariant.Edit.{create-Inv, update-Inv, clone-Inv, delete-Keeps}
use ats_proxy_manager.Invariant.Workflow.{submit-Keeps, approve-Keeps, reject-Keeps}
use ats_proxy_manager.Invariant.Proxies.{
  assign_config-Keeps, delete_proxy-Keeps, start_log_capture-Keeps, register-Keeps,
  get_config-Keeps, ack-Keeps, stats-Keeps, logs-Keeps, tick-Keeps,
}

serve-Keeps : (rt : Runtime) (r : Request) → Keeps Inv (serve rt r)
unfolding serve
serve-Keeps rt (create req by) = Sat-ignore _ (create-Inv rt req by)
serve-Keeps rt (update id req by) = Sat-ignore _ (update-Inv rt id req by)
serve-Keeps rt (clone id by) = Sat-ignore _ (clone-Inv rt id by)
serve-Keeps rt (delete id by) = Sat-ignore _ (delete-Keeps rt id by)
serve-Keeps rt (submit id by) = Sat-ignore _ (submit-Keeps id by)
serve-Keeps rt (approve id by) = Sat-ignore _ (approve-Keeps rt id by)
serve-Keeps rt (reject id by) = Sat-ignore _ (reject-Keeps id by)
serve-Keeps rt (assign_config p c by) = Sat-ignore _ (assign_config-Keeps rt p c by)
serve-Keeps rt (delete_proxy p by) = Sat-ignore _ (delete_proxy-Keeps rt p by)
serve-Keeps rt (start_log_capture p m by) = Sat-ignore _ (start_log_capture-Keeps p m by)
serve-Keeps rt (register req) = Sat-ignore _ (register-Keeps rt req)
serve-Keeps rt (get_config hostname hash) = Sat-ignore _ (get_config-Keeps rt hostname hash)
serve-Keeps rt (ack hostname hash status) = Sat-ignore _ (ack-Keeps hostname hash status)
serve-Keeps rt (stats hostname stat) = Sat-ignore _ (stats-Keeps hostname stat)
serve-Keeps rt (logs hostname lines) = Sat-ignore _ (logs-Keeps hostname lines)
serve-Keeps rt (job j) = tick-Keeps j

pub Post-db : {P : Db → Type 0} (m : M (Unit {0})) → Keeps P m → (w : World) → P w.db → P (m w).1.db
Post-db {P} m h w p = of_post (m w) (h.at w p)
  where
    of_post : (o : Result (Unit {0}) × World) → Post P (λ _. P) o → P o.1.db
    of_post (ok a, w') q = q
    of_post (err e, w') q = q

-- One request keeps the rules of the configs, whatever statements of it fail.
pub after-Inv :
    (rt : Runtime) (r : Request) (faults : List Bool) (now : ℕ) (db : Db)
    → Inv db
    → Inv (after rt r faults now db)
unfolding after
after-Inv rt r faults now db h = Post-db (serve rt r) (serve-Keeps rt r) _ h

initial-Inv : (users : List User) (serial : ℕ) → Inv (initial users serial)
unfolding initial find some_row
initial-Inv users serial = record {
  fresh = λ i c e. cc;
  stages = λ i c e. cc;
  exclusive = λ i j p a b u v. cc;
}

module _ (rt : Runtime) (crypto : Crypto) (secret : Str) where
  access-Inv :
      (r : AccessRequest) (ip ua : Str) (faults : List Bool) (now : ℕ) (db : Db)
      → Inv db
      → Inv (after_access rt crypto secret r ip ua faults now db)
  unfolding after_access
  access-Inv r ip ua faults now db h =
      Post-db (serve_access rt crypto secret r ip ua)
        (serve_access-Keeps rt crypto secret sessions-Inv r ip ua
          (λ u ctx. serve_users-Keeps rt crypto users-Inv u ip ua ctx))
        _ h

  route-Inv :
      (r : Route) (header ip ua : Str) (faults : List Bool) (now : ℕ) (db : Db)
      → Inv db
      → Inv (after_route rt crypto secret r header ip ua faults now db)
  unfolding after_route serve_route
  route-Inv r header ip ua faults now db h =
      Post-db (serve_route rt crypto secret r header ip ua)
        (authenticated-Keeps rt crypto secret sessions-Inv header _
          (gated-Inv rt crypto secret (is_restricted r) r ip ua))
        _ h

  Step-Inv : {db db' : Db} → Step rt crypto secret db db' → Inv db → Inv db'
  Step-Inv (served r faults now db db' e) h = subst Inv (sym e) (after-Inv rt r faults now db h)
  Step-Inv (routed r header ip ua faults now db db' e) h =
      subst Inv (sym e) (route-Inv r header ip ua faults now db h)
  Step-Inv (accessed r ip ua faults now db db' e) h =
      subst Inv (sym e) (access-Inv r ip ua faults now db h)

  Reach-Inv : {from db : Db} → Inv from → Reach rt crypto secret from db → Inv db
  Reach-Inv h here = h
  Reach-Inv h (next r s) = Step-Inv s (Reach-Inv h r)

-- In every database that requests and jobs can lead to from the first one, two active configs that
-- are both assigned to one proxy are the same config.
pub Reach-one_active :
    (rt : Runtime) (crypto : Crypto) (secret : Str) (users : List User) (serial : ℕ) (db : Db)
    (i j p : ℕ) (c d : Config)
    → Reach rt crypto secret (initial users serial) db
    → find_config i db ≡ some c
    → find_config j db ≡ some d
    → c.status ≡ active
    → d.status ≡ active
    → is_assigned i p db ≡ true
    → is_assigned j p db ≡ true
    → i ≡ j
Reach-one_active rt crypto secret users serial db i j p c d r fc fd ac ad u v =
    (Reach-Inv rt crypto secret (initial-Inv users serial) r).exclusive i j p
      (active_at-of i db.configs c fc ∙ rw ac refl) (active_at-of j db.configs d fd ∙ rw ad refl) u
      v

-- In every database that requests and jobs can lead to from the first one, each config has the
-- columns of its status: a draft has neither submitter nor approver; a pending one has a submitter
-- and no approver; one that is or was active was approved by its submitter and has a time of
-- approval and a hash.
pub Reach-Stage :
    (rt : Runtime) (crypto : Crypto) (secret : Str) (users : List User) (serial : ℕ) (db : Db)
    (id : ℕ) (c : Config)
    → Reach rt crypto secret (initial users serial) db
    → find_config id db ≡ some c
    → Stage c.status c
Reach-Stage rt crypto secret users serial db id c r f =
    (Reach-Inv rt crypto secret (initial-Inv users serial) r).stages id c f
