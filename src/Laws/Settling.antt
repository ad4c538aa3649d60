-- ===== src/Laws/Settling.antt =====
-- Two requests of a helper to `GetConfig` of backend/internal/service/sync_service.go.
use ats_proxy_manager.Prelude.{
  ℕ, true, false, Option, none, some, [], ◌∷◌, ◌≡◌, ◌⊎◌, inl, inr, refl, sym, subst, ◌∙◌, ap, ◌==◌,
  ◌&&◌, Str, str_eq, str_eq_refl, is_empty, Bool-cases, arith, if◌then◌else◌,
}
use ats_proxy_manager.Prelude.Table.{select_first, some_row-update_where}
use ats_proxy_manager.Domain.Enums.{active, status_eq}
use ats_proxy_manager.Domain.Models.{Config, Proxy}
use ats_proxy_manager.Runtime.{Runtime}
use ats_proxy_manager.Store.{Db, World, ok, pure}
use ats_proxy_manager.Store.Sat.{
  Sat, Sat-pure, Sat-bind, Sat-get_now, Sat-pre, Sat-ignore, Sat-statement, Sat-post, Sat-fact,
}
use ats_proxy_manager.Store.Outcomes.{Sat-ok, Sat-any}
use ats_proxy_manager.Repository.Keys.{is_assigned}
use ats_proxy_manager.Repository.Sat.{Sat-get}
use ats_proxy_manager.Repository.ConfigRepo
use ats_proxy_manager.Repository.ProxyRepo
use ats_proxy_manager.Repository.ProxyRepo.{set_proxy}
use ats_proxy_manager.Service.SyncService.{
  ConfigResponse, is_current, unchanged_answer, stored_or_new_hash, fresh_answer, answer_for,
  get_config, text_or_empty,
}
use ats_proxy_manager.Laws.Lookup.{lookup-Sat}
use ats_proxy_manager.Laws.Serving.{active_for}

-- The proxy that has been seen serves the same config.
seen-active_for :
    (hostname : Str) (id : ℕ) (f : Proxy → Proxy) (db : Db)
    → ((p : Proxy) → (f p).id ≡ p.id)
    → ((p : Proxy) → (f p).hostname ≡ p.hostname)
    → active_for hostname (set_proxy id f db) ≡ active_for hostname db
unfolding set_proxy
seen-active_for hostname id f db key name = λ i.
    select_first
      (λ c.
        status_eq c.status active
        && some_row-update_where (λ p. str_eq p.hostname hostname && is_assigned c.id p.id db)
            (λ p. p.id == id) f db.proxies
            (λ p.
              ap (λ h. str_eq h hostname && is_assigned c.id (f p).id db) (name p)
              ∙ ap (λ k. str_eq p.hostname hostname && is_assigned c.id k db) (key p))
            i)
      db.configs

module _ (rt : Runtime) (hostname : Str) (cfg : Config) (hash : Str) where
  -- "Unchanged" is said exactly of the stored hash, and any other answer carries that hash.
  abbrev pub Stored : Str → ConfigResponse → Type 0
  Stored current a = (a.unchanged ≡ str_eq hash current) × ((a.unchanged ≡ true) ⊎ (a.hash ≡ hash))

  fresh-Stored :
      (current : Str) (until : Option ℕ)
      → cfg.config_hash ≡ some hash
      → is_empty hash ≡ false
      → str_eq hash current ≡ false
      → Sat (λ _. Unit {0}) (fresh_answer rt cfg until) (λ _. Unit {0}) (λ a _. Stored current a)
  unfolding fresh_answer stored_or_new_hash
  fresh-Stored current until stored full other = Sat-bind _ _ (Sat-any _) λ files.
      Sat-bind _ _ (of_hash hash (text_or_empty cfg.config_hash) (ap text_or_empty stored) full)
        λ h. Sat-fact _ λ is. Sat-pure _ (λ db t. (sym other, inr is))
    where
      of_hash :
          (want s : Str)
          → s ≡ want
          → is_empty want ≡ false
          → Sat
              (λ _. Unit {0})
              (stored_or_new_hash rt cfg s)
              (λ _. Unit {0})
              (λ h _. (h ≡ want) × Unit {0})
      of_hash [] s e full = cc full
      of_hash (c ∷ t) [] e full = cc e
      of_hash (c ∷ t) (d ∷ s) e full = Sat-pure _ (λ db u. (e, tt))

  answer-Stored :
      (current : Str) (until : Option ℕ) (o : Option Config)
      → cfg.config_hash ≡ some hash
      → is_empty hash ≡ false
      → o ≡ some cfg
      → Sat
          (λ _. Unit {0})
          (answer_for rt o current until)
          (λ _. Unit {0})
          (λ a _. Stored current a)
  unfolding answer_for unchanged_answer is_current
  answer-Stored current until none stored full e = cc e
  answer-Stored current until (some d) stored full e =
      let is : cfg ≡ d = cc e in
      subst
        (λ x.
          Sat (λ _. Unit {0})
            (if is_current x current
              then pure (unchanged_answer until)
              else fresh_answer rt x until)
            (λ _. Unit {0}) (λ a _. Stored current a))
        is (of_current (Bool-cases (str_eq hash current)))
    where
      test : is_current cfg current ≡ str_eq hash current
      test = rw stored (rw full (ground arith))

      of_current :
          (str_eq hash current ≡ true) ⊎ (str_eq hash current ≡ false)
          → Sat
              (λ _. Unit {0})
              (if is_current cfg current
                then pure (unchanged_answer until)
                else fresh_answer rt cfg until)
              (λ _. Unit {0})
              (λ a _. Stored current a)
      of_current (inl same) = rw (test ∙ same) (Sat-pure _ (λ db u. (sym same, inl refl)))
      of_current (inr other) = rw (test ∙ other) (fresh-Stored current until stored full other)

  get_config-Stored :
      (current : Str)
      → cfg.config_hash ≡ some hash
      → is_empty hash ≡ false
      → Sat
          (λ db. active_for hostname db ≡ some cfg)
          (get_config rt hostname current)
          (λ _. Unit {0})
          (λ a _. Stored current a)
  unfolding get_config ProxyRepo.get_by_hostname ProxyRepo.update_last_seen
      ConfigRepo.get_active_for_proxy
  get_config-Stored current stored full =
      Sat-bind _ _
        (Sat-post _ (λ db e. tt) (λ p db t. t.0)
          (Sat-get {P = λ db. active_for hostname db ≡ some cfg}
            (λ db. select_first (λ p. str_eq p.hostname hostname) db.proxies) _ (λ db e. tt)))
        λ proxy.
          Sat-bind _ _
            (Sat-ignore {P = λ db. active_for hostname db ≡ some cfg} _ (
              Sat-statement _ (λ db e. e)
                (λ now db e.
                  seen-active_for hostname proxy.id
                    (λ p. record p { last_seen = some now; is_online = true }) db (λ p. refl)
                    (λ p. refl)
                  ∙ e)))
            λ _. Sat-bind _ _ (lookup-Sat (active_for hostname) (λ db e. tt)) λ o.
              Sat-bind _ _
                (Sat-pre {P' = λ db. (o ≡ some cfg) × Unit {0}} _ (λ db t. (t.0 ∙ t.1, tt))
                  Sat-get_now)
                λ now. Sat-fact _ λ is. answer-Stored current _ o stored full is

-- What the helper has after an answer: the hash it asked with, or the answer's.
abbrev pub told : Str → ConfigResponse → Str
told current a = if a.unchanged then current else a.hash

-- Where the active config of a proxy has a stored hash: a helper that is answered, and asks again with
-- the hash it then has while the config is still the active one, is told "unchanged", or the request
-- fails, whichever statements fail.
pub get_config_settles :
    (rt : Runtime) (hostname : Str) (cfg : Config) (hash current : Str)
    (first first' second second' : World) (a b : ConfigResponse)
    → cfg.config_hash ≡ some hash
    → is_empty hash ≡ false
    → active_for hostname first.db ≡ some cfg
    → active_for hostname second.db ≡ some cfg
    → get_config rt hostname current first ≡ (ok a, first')
    → get_config rt hostname (told current a) second ≡ (ok b, second')
    → b.unchanged ≡ true
get_config_settles rt hostname cfg hash current first first' second second' a b stored full e e' h
      h' =
    let (said, others) =
      Sat-ok _ first first' a (get_config-Stored rt hostname cfg hash current stored full) e h in
    let (again, _) =
      Sat-ok _ second second' b
        (get_config-Stored rt hostname cfg hash (told current a) stored full) e' h' in
    again ∙ of_first said others
  where
    of_first :
        a.unchanged ≡ str_eq hash current
        → (a.unchanged ≡ true) ⊎ (a.hash ≡ hash)
        → str_eq hash (told current a) ≡ true
    of_first said others = elim (Bool-cases a.unchanged) [
      | inl yes_case ↦ rw yes_case (sym said ∙ yes_case)
      | inr changed ↦ rw changed (of_other changed others)
    ]
      where
        of_other :
            a.unchanged ≡ false → (a.unchanged ≡ true) ⊎ (a.hash ≡ hash) → str_eq hash a.hash ≡ true
        of_other changed (inl same) = cc (changed, same)
        of_other changed (inr is) = rw is (str_eq_refl hash)
