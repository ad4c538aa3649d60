-- ===== src/Laws/Serving.antt =====
-- `GetConfig` of backend/internal/service/sync_service.go.
use ats_proxy_manager.Prelude.{
  ℕ, Bool, true, false, not, Option, none, some, [], ◌∷◌, ◌≡◌, ◌⊎◌, inl, inr, refl, ◌∙◌, ap, sym,
  some_unique, ◌==◌, ◌&&◌, if◌then◌else◌, arith, Str, str_eq, is_empty, str_eq_sound, Bool-cases,
}
use mathlib.Core.Option
use ats_proxy_manager.Prelude.Table.{
  select_first-holds, select_first-row, some_row-find, some_row-update_where, select_first,
  some_row, update_where, find-update_where,
}
use ats_proxy_manager.Domain.Enums.{RuleAction, active, status_eq}
use ats_proxy_manager.Domain.Models.{Config}
use ats_proxy_manager.Runtime.{Runtime}
use ats_proxy_manager.Store.{Db, World, ok}
use ats_proxy_manager.Store.Sat.{
  Sat, Sat-pure, Sat-bind, Sat-get_now, Sat-if, Sat-pre, Sat-ignore, Sat-statement, Sat-post,
}
use ats_proxy_manager.Store.Outcomes.{Sat-ok, Sat-any, Sat-exists}
use ats_proxy_manager.Repository.Keys.{find_config, is_assigned}
use ats_proxy_manager.Repository.ConfigRepo
use ats_proxy_manager.Service.ConfigService.Files.{ConfigFiles, hash_files}
use ats_proxy_manager.Service.SyncService.{
  ConfigResponse, text_or_empty, is_current, unchanged_answer, stored_or_new_hash, fresh_answer,
  answer_for, get_config,
}
use ats_proxy_manager.Laws.Approval.{hash-Sat}
use ats_proxy_manager.Laws.Files.{FailsWhole, files_of, files-Sat}
use ats_proxy_manager.Laws.Lookup.{lookup-Sat}

-- The first active config that a proxy with this hostname is assigned to.
abbrev pub serves : Str → Db → Config → Bool
serves hostname db c =
    status_eq c.status active
    && some_row (λ p. str_eq p.hostname hostname && is_assigned c.id p.id db) db.proxies

abbrev pub active_for : Str → Db → Option Config
active_for hostname db = select_first (serves hostname db) db.configs

current-hash :
    (cfg : Config) (hash : Str) → is_current cfg hash ≡ true → cfg.config_hash ≡ some hash
unfolding is_current
current-hash cfg hash h = of_option cfg.config_hash h
  where
    of_option :
        (o : Option Str)
        → (not (is_empty (text_or_empty o)) && str_eq (text_or_empty o) hash) ≡ true
        → o ≡ some hash
    of_option none e = cc e
    of_option (some s) e = ap some (str_eq_sound s hash (ground arith))

-- The helper has the files already, or there are none for it.
abbrev pub Unchanged : Str → Str → ConfigResponse → Db → Type 0
Unchanged hostname current_hash a db =
    (a.unchanged ≡ true)
    × (a.config ≡ none)
    × ((active_for hostname db ≡ none)
        ⊎ ((cfg : Config) × (active_for hostname db ≡ some cfg)
            × (cfg.config_hash ≡ some current_hash)))

-- This config is active and assigned to a proxy with this hostname, and these are its files.
abbrev pub Serving : Runtime → Str → Config → RuleAction → ConfigFiles → Db → Type 0
Serving rt hostname cfg action files db =
    (some_row (λ r. r.id == cfg.id && status_eq r.status active) db.configs ≡ true)
    × (some_row (λ p. str_eq p.hostname hostname && is_assigned cfg.id p.id db) db.proxies ≡ true)
    × (Option.map (λ (c : Config). c.default_action) (find_config cfg.id db) ≡ some action)
    × (files ≡ files_of rt cfg.id action db)

-- The answer has the files of such a config, with the hash that was stored, or theirs if none was.
abbrev pub Fresh : Runtime → Str → ConfigResponse → Db → Type 0
Fresh rt hostname a db =
    (a.unchanged ≡ false)
    × ((cfg : Config) × (action : RuleAction) × (files : ConfigFiles) × (a.config ≡ some files)
        × (a.hash ≡ (
            if is_empty (text_or_empty cfg.config_hash)
            then hash_files rt files
            else text_or_empty cfg.config_hash))
        × Serving rt hostname cfg action files db)

-- A stored hash changes no default action.
map-default_action :
    (o : Option Config) (p : Config → Bool) (h : Str)
    → Option.map
        (λ (c : Config). c.default_action)
        (Option.map (λ c. if p c then record c { config_hash = some h } else c) o)
      ≡ Option.map (λ (c : Config). c.default_action) o
map-default_action none p h = refl
map-default_action (some c) p h = elim (Bool-cases (p c)) [
  | inl hit ↦ rw hit refl
  | inr miss ↦ rw miss refl
]

module _ (rt : Runtime) (hostname : Str) (cfg : Config) where
  hash-stable :
      (action : RuleAction) (files : ConfigFiles) (h : Str) (db : Db)
      → Serving rt hostname cfg action files db
      → Serving rt hostname cfg action files (record db {
        configs =
            update_where (λ r. r.id == cfg.id) (λ r. record r { config_hash = some h }) db.configs;
      })
  hash-stable action files h db (row, proxy, default, same) = (
    some_row-update_where _ _ _ db.configs (λ x. refl) ∙ row,
    proxy,
    ap (Option.map (λ (c : Config). c.default_action)) (
          find-update_where (λ (c : Config). c.id) cfg.id (λ r. r.id == cfg.id)
            (λ r. record r { config_hash = some h }) db.configs (λ x. refl))
        ∙ map-default_action (find_config cfg.id db) (λ r. r.id == cfg.id) h
        ∙ default,
    same,
  )

  abbrev Hashed : RuleAction → ConfigFiles → Str → Str → Db → Type 0
  Hashed action files s h db =
      (h ≡ (if is_empty s then hash_files rt files else s))
      × Serving rt hostname cfg action files db

  default-of :
      (o : Option Config) (action : RuleAction)
      → Option.map (λ (c : Config). c.default_action) o ≡ some action
      → (c : Config) × ((o ≡ some c) × (c.default_action ≡ action))
  default-of none action e = cc e
  default-of (some c) action e = (c, (refl, some_unique c.default_action action refl e))

  stored_under :
      (action : RuleAction) (files : ConfigFiles) (db : Db)
      → Serving rt hostname cfg action files db
      → (c : Config) × (((find_config cfg.id db ≡ some c) × (c.default_action ≡ action))
          × Serving rt hostname cfg action files db)
  stored_under action files db t =
      let (c, e) = default-of (find_config cfg.id db) action t.2 in (c, (e, t))

  stored-Sat :
      (action : RuleAction) (files : ConfigFiles) (s : Str)
      → FailsWhole rt
      → Sat
          (Serving rt hostname cfg action files)
          (stored_or_new_hash rt cfg s)
          (λ _. Unit {0})
          (Hashed action files s)
  unfolding stored_or_new_hash ConfigRepo.update_hash
  stored-Sat action files (c ∷ s) whole = Sat-pure _ (λ db t. (refl, t))
  stored-Sat action files [] whole = Sat-pre _ (stored_under action files) (
      Sat-exists _ λ c. Sat-bind _ _ (hash-Sat rt cfg.id c whole (λ db t. t.0.0)) λ h.
        Sat-bind _ _
          (Sat-pre {P' = Hashed action files [] h} _
            (λ db t. (
              t.0
                  ∙ ap (λ a. hash_files rt (files_of rt cfg.id a db)) t.1.0.1
                  ∙ ap (hash_files rt) (sym t.1.1.3),
              t.1.1,
            ))
            (Sat-ignore _
              (Sat-statement _ (λ db t. t) (λ now db t. (t.0, hash-stable action files h db t.1)))))
          λ _. Sat-pure _ (λ db t. t))

  -- The config that the query finds.
  found_serving :
      (db : Db)
      → active_for hostname db ≡ some cfg
      → (c : Config) × ((find_config cfg.id db ≡ some c)
          × (some_row (λ r. r.id == cfg.id && status_eq r.status active) db.configs ≡ true)
          × (some_row (λ p. str_eq p.hostname hostname && is_assigned cfg.id p.id db) db.proxies
              ≡ true))
  found_serving db e =
      let (holds, _) = select_first-holds (serves hostname db) db.configs cfg e in
      let row =
        select_first-row (serves hostname db) (λ r. r.id == cfg.id && status_eq r.status active)
          db.configs cfg e (ground (arith, holds)) in
      let (c, found) =
        some_row-find (λ (x : Config). x.id) cfg.id (λ r. status_eq r.status active) db.configs
          row in
      (c, (found, row, ground (arith, holds)))

  Fresh-Sat :
      (until : Option ℕ)
      → FailsWhole rt
      → Sat
          (λ db. active_for hostname db ≡ some cfg)
          (fresh_answer rt cfg until)
          (λ _. Unit {0})
          (Fresh rt hostname)
  unfolding fresh_answer
  Fresh-Sat until whole = Sat-pre _ found_serving (
      Sat-exists _ λ c.
        Sat-bind _ _ (files-Sat rt cfg.id c whole (λ db t. tt) (λ db t. t.0)) λ files.
          Sat-bind _ _
            (Sat-pre _
              (λ db t.
                (t.1.1, t.1.2, ap (Option.map (λ (c : Config). c.default_action)) t.1.0, t.0))
              (stored-Sat c.default_action files (text_or_empty cfg.config_hash) whole))
            λ h. Sat-pure _ (λ db t. (refl, (cfg, c.default_action, files, refl, t.0, t.1))))

abbrev pub Answer : Runtime → Str → Str → ConfigResponse → Db → Type 0
Answer rt hostname current_hash a db = Unchanged hostname current_hash a db ⊎ Fresh rt hostname a db

Answer-Sat :
    (rt : Runtime) (hostname current_hash : Str) (until : Option ℕ) (o : Option Config)
    → FailsWhole rt
    → Sat
        (λ db. o ≡ active_for hostname db)
        (answer_for rt o current_hash until)
        (λ _. Unit {0})
        (Answer rt hostname current_hash)
unfolding answer_for unchanged_answer
Answer-Sat rt hostname current_hash until none whole =
    Sat-pure _ (λ db e. inl (refl, refl, inl (sym e)))
Answer-Sat rt hostname current_hash until (some cfg) whole =
    Sat-if (is_current cfg current_hash) _ _
      (λ current.
        Sat-pure _
          (λ db e. inl (refl, refl, inr (cfg, sym e, current-hash cfg current_hash current))))
      (λ stale.
        Sat-post _ (λ db t. t) (λ a db t. inr t)
          (Sat-pre _ (λ db e. sym e) (Fresh-Sat rt hostname cfg until whole)))

service-Sat :
    (rt : Runtime) (hostname current_hash : Str)
    → FailsWhole rt
    → Sat
        (λ _. Unit {0})
        (get_config rt hostname current_hash)
        (λ _. Unit {0})
        (Answer rt hostname current_hash)
unfolding get_config ConfigRepo.get_active_for_proxy
service-Sat rt hostname current_hash whole = Sat-bind _ _ (Sat-any _) λ proxy.
    Sat-bind _ _ (Sat-any _) λ _.
      Sat-bind _ _ (lookup-Sat {P = λ _. Unit {0}} (active_for hostname) (λ db t. tt)) λ o.
        Sat-bind _ _ (Sat-pre _ (λ db t. t.0) Sat-get_now)
          λ now. Answer-Sat rt hostname current_hash _ o whole

-- Where no query breaks off after some of its rows, and whatever else fails: an answer to a helper
-- is either "unchanged", and then no active config is assigned to its proxy or the helper's hash is
-- the stored one; or it carries the files that the rules in the tables give for an active config
-- assigned to its proxy, with the config's stored hash, or with the hash of these files if none was
-- stored.
pub get_config-Answer :
    (rt : Runtime) (hostname current_hash : Str) (w w' : World) (a : ConfigResponse)
    → FailsWhole rt
    → get_config rt hostname current_hash w ≡ (ok a, w')
    → Answer rt hostname current_hash a w'.db
get_config-Answer rt hostname current_hash w w' a whole h =
    Sat-ok (get_config rt hostname current_hash) w w' a (service-Sat rt hostname current_hash whole)
      tt h
