-- ===== src/Invariant/ConfigStatements.antt =====
-- The statements of backend/internal/repository/config_repo.go, and the assignment of a proxy,
-- under the rules of Invariant/Lifecycle.
use ats_proxy_manager.Prelude.{
  ℕ, Bool, true, false, not, some, List, [], ◌∷◌, ◌++◌, ◌≡◌, refl, sym, ◌∙◌, subst, ◌==◌, ◌&&◌,
  arith, Bool-cases, some_unique, inl, inr, Str,
}
use ats_proxy_manager.Prelude.Table.{
  some_row_mono, update_where, find-update_where_inv, find-update_where, find_key,
  some_row-delete_where,
}
use ats_proxy_manager.Domain.Enums.{not_found, invalid_status, draft, approved, active, status_eq}
use ats_proxy_manager.Domain.Models.{Config, ConfigProxy}
use ats_proxy_manager.Store.{Db}
use ats_proxy_manager.Store.Sat.{Sat, Keeps, Sat-statement, Sat-bind, Sat-guard, Sat-post}
use ats_proxy_manager.Repository.Keys.{find_config, is_assigned}
use ats_proxy_manager.Repository.Sat.{Sat-checked, Sat-get, Sat-affected}
use ats_proxy_manager.Repository.ConfigRepo
use ats_proxy_manager.Repository.ConfigRepo.{NewConfig, inserted, shares_proxy}
use ats_proxy_manager.Repository.ConfigProxyRepo
use ats_proxy_manager.Invariant.Lifecycle.{
  config_at, active_at, active_at-some, assigned_in, Tables, Inv, Tables-sub, Tables-update,
  active-update,
}
use ats_proxy_manager.Invariant.Assignments.{
  Tables-append, Tables-delete, Tables-assign, Tables-approve, active-append,
}
use ats_proxy_manager.Invariant.Statements.{With}

-- The config with this ID is not active.
abbrev pub Inactive : ℕ → List Config → Type 0
Inactive id cs = active_at id cs ≡ false

-- No other active config has a proxy of this one.
abbrev pub Alone : ℕ → Db → Type 0
Alone id db =
    (j q : ℕ)
    → active_at j db.configs ≡ true
    → assigned_in j q db.config_proxies ≡ true
    → assigned_in id q db.config_proxies ≡ true
    → j ≡ id

pub get_by_id-Sat :
    {P I : Db → Type 0} (id : ℕ)
    → ((db : Db) → P db → I db)
    → Sat P (ConfigRepo.get_by_id id) I (λ c db. P db × (find_config id db ≡ some c))
unfolding ConfigRepo.get_by_id
get_by_id-Sat id h = Sat-get (λ db. find_config id db) not_found h

-- The next ID is not in use.
fresh-Inactive :
    (cs : List Config) (ps : List ConfigProxy) (n : ℕ) (c : Config)
    → c.status ≡ draft
    → Tables cs ps n
    → Inactive n (cs ++ c ∷ [])
fresh-Inactive cs ps n c d t = elim (Bool-cases (active_at n (cs ++ c ∷ []))) [
  | inr is_not ↦ is_not
  | inl is ↦
      let (x, e, a) = active_at-some n cs (active-append cs c n (rw d) is) in
      absurd (omega (arith, t.fresh n x e))
]

pub create-Sat :
    (c : NewConfig) (version : ℕ)
    → Sat Inv (ConfigRepo.create_with_version c version) Inv (λ cfg. With (Inactive cfg.id))
unfolding ConfigRepo.create_with_version
create-Sat c version =
    Sat-checked _ _ _ (λ db t. t)
      λ now db t _. (
        Tables-append (inserted c version now db) refl refl (refl, refl, refl) t,
        fresh-Inactive db.configs db.config_proxies db.serial (inserted c version now db) refl t,
      )

update_where-Inactive :
    (id : ℕ) (cs : List Config) (p : Config → Bool) (f : Config → Config)
    → ((x : Config) → (f x).id ≡ x.id)
    → ((x : Config)
        → p x ≡ true
        → status_eq (f x).status active ≡ true
        → status_eq x.status active ≡ true)
    → Inactive id cs
    → Inactive id (update_where p f cs)
update_where-Inactive id cs p f key act h = elim (Bool-cases (active_at id (update_where p f cs))) [
  | inr is_not ↦ is_not
  | inl is ↦ cc (active-update cs p f key act id is, h)
]

pub update-With : (id : ℕ) (c : Config) → Keeps (With (Inactive id)) (ConfigRepo.update c)
unfolding ConfigRepo.update
update-With id c = Sat-affected _ invalid_status (
    Sat-checked _ _ _ (λ db t. t)
      λ now db t _. (
        Tables-update _ _ (λ x. refl) (λ x _ s. ground arith) (λ x _ a. a) t.0,
        update_where-Inactive id db.configs _ _ (λ x. refl) (λ x _ a. a) t.1,
      ))

pub submit-Inv : (id user_id : ℕ) → Keeps Inv (ConfigRepo.submit id user_id)
unfolding ConfigRepo.submit
submit-Inv id user_id = Sat-affected _ invalid_status (
    Sat-checked _ _ _ (λ db t. t)
      λ now db t _.
        Tables-update _ _ (λ x. refl) (λ x sel s. ground arith) (λ x _ a. ground arith) t)

pub reject-Inv : (id : ℕ) → Keeps Inv (ConfigRepo.reject id)
unfolding ConfigRepo.reject
reject-Inv id = Sat-affected _ invalid_status (
    Sat-statement _ (λ db t. t)
      λ now db t. Tables-update _ _ (λ x. refl) (λ x sel s. ground arith) (λ x _ a. ground arith) t)

pub update_hash-Inv : (id : ℕ) (hash : Str) → Keeps Inv (ConfigRepo.update_hash id hash)
unfolding ConfigRepo.update_hash
update_hash-Inv id hash =
    Sat-statement _ (λ db t. t)
      λ now db t. Tables-update _ _ (λ x. refl) (λ x sel s. ground arith) (λ x _ a. a) t

pub delete-Inv : (id : ℕ) → Keeps Inv (ConfigRepo.delete id)
unfolding ConfigRepo.delete
delete-Inv id = Sat-affected _ not_found (
    Sat-checked _ _ _ (λ db t. t)
      λ now db t _.
        Tables-sub (λ i q h. some_row-delete_where _ _ db.config_proxies h) (Tables-delete id t))

-- Two configs that have a proxy in common share it.
assigned-shares :
    (j id q : ℕ) (db : Db)
    → assigned_in j q db.config_proxies ≡ true
    → assigned_in id q db.config_proxies ≡ true
    → shares_proxy j id db ≡ true
unfolding shares_proxy
assigned-shares j id q db hj hid =
    some_row_mono _ _ db.config_proxies
      (λ r sel.
        let same : r.proxy_id ≡ q = ground (arith, sel) in rw same (ground (arith, sel, hid)))
      hj

-- Which rows `DeactivateOthers` touches, and how.
abbrev pub other_active : ℕ → Db → Config → Bool
other_active id db r = status_eq r.status active && (not (r.id == id) && shares_proxy r.id id db)

abbrev pub deactivated : Config → Config
deactivated r = record r { status = approved }

pub deactivated-Alone :
    (id : ℕ) (db : Db)
    → Alone id (record db { configs = update_where (other_active id db) deactivated db.configs })
deactivated-Alone id db j q a u v =
    let (y, e, act) =
      active_at-some j (update_where (other_active id db) deactivated db.configs) a in
    let (x, ex, ey) =
      find-update_where_inv (λ (c : Config). c.id) j (other_active id db) deactivated db.configs y
        (λ x. refl) e in
    let key : x.id ≡ j = find_key (λ (c : Config). c.id) j db.configs ex in
    elim (Bool-cases (other_active id db x)) [
      | inl sel ↦ ground (arith, ey, sel, act)
      | inr not_sel ↦ ground (
        arith,
        ey,
        not_sel,
        act,
        key,
        subst (λ k. shares_proxy k id db ≡ true) (sym key) (assigned-shares j id q db u v),
      )
    ]

pub deactivated_self :
    (id : ℕ) (c : Config) (db : Db)
    → find_config id db ≡ some c
    → config_at id (update_where (other_active id db) deactivated db.configs) ≡ some c
deactivated_self id c db e =
    let key : c.id ≡ id = find_key (λ (x : Config). x.id) id db.configs e in
    find-update_where (λ (x : Config). x.id) id (other_active id db) deactivated db.configs
      (λ x. refl)
    ∙ rw e (ground (arith, key))

-- Afterwards the config is the only active one, or can become so, on each of its proxies.
pub deactivate_others-Sat :
    (id : ℕ) (c : Config)
    → Sat
        (λ db. Inv db × (find_config id db ≡ some c))
        (ConfigRepo.deactivate_others id)
        Inv
        (λ _ db. (Inv db × (find_config id db ≡ some c)) × Alone id db)
unfolding ConfigRepo.deactivate_others
deactivate_others-Sat id c =
    Sat-statement _ (λ db t. t.0)
      λ now db t. (
        (
          Tables-update _ _ (λ x. refl) (λ x sel s. ground arith) (λ x sel a. ground arith) t.0,
          deactivated_self id c db t.1,
        ),
        deactivated-Alone id db,
      )

-- The approval of a config that this user has submitted.
pub approve-Sat :
    (id user_id : ℕ) (hash : Str) (c : Config)
    → c.submitted_by ≡ some user_id
    → Sat
        (λ db. (Inv db × (find_config id db ≡ some c)) × Alone id db)
        (ConfigRepo.approve id user_id hash)
        Inv
        (λ _. Inv)
unfolding ConfigRepo.approve
approve-Sat id user_id hash c by =
    Sat-post _ (λ db t. t) (λ _ db t. t)
      (Sat-bind _ _
        (Sat-checked _ _ _ (λ db t. t.0.0)
          λ now db t _.
            Tables-approve id _ _ (λ x. refl) (λ x sel. ground arith)
              (λ x ex sel.
                let same : x ≡ c = some_unique x c ex t.0.1 in
                (rw same (rw by refl), rw same (sym by), refl, refl))
              t.1 t.0.0)
        λ affected. Sat-guard affected invalid_status (λ db t. t) (λ db _ t. t))

-- A proxy is added to a config that is not active.
pub assign-With :
    (id proxy_id user_id : ℕ)
    → Keeps (With (Inactive id)) (ConfigProxyRepo.assign id proxy_id user_id)
unfolding ConfigProxyRepo.assign
assign-With id proxy_id user_id =
    Sat-checked _ _ _ (λ db t. t)
      λ now db t _. (elim (Bool-cases (is_assigned id proxy_id db)) [
        | inl old ↦ rw old t
        | inr new ↦ rw new (Tables-assign _ (λ j a b u. cc (a, t.1)) t.0, t.1)
      ])
