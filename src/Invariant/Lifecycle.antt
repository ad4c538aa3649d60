-- ===== src/Invariant/Lifecycle.antt =====
-- The states of a config, and the rule that a proxy has one active config at most, over the tables
-- that backend/internal/repository/config_repo.go and config_proxy_repo.go write.
use ats_proxy_manager.Prelude.{
  ℕ, ◌+◌, ◌<◌, Bool, true, false, Option, none, some, List, ◌≡◌, sym, subst, inl, inr, ◌==◌, ◌&&◌,
  if◌then◌else◌, arith, Bool-cases, Option-cases,
}
use ats_proxy_manager.Prelude.Table.{find, some_row, update_where, find-update_where_inv}
use ats_proxy_manager.Domain.Enums.{ConfigStatus, draft, pending_approval, active, status_eq}
use ats_proxy_manager.Domain.Models.{Config, ConfigProxy}
use ats_proxy_manager.Store.{Db}

abbrev pub is_set {ℓ} : {A : Type ℓ} → Option A → Bool
is_set none = false
is_set (some a) = true

-- What the columns of a config say in each status.
abbrev pub Stage : ConfigStatus → Config → Type 0
Stage draft c =
    (is_set c.submitted_by ≡ false)
    × (is_set c.approved_by ≡ false)
    × (is_set c.approved_at ≡ false)
Stage pending_approval c =
    (is_set c.submitted_by ≡ true) × (is_set c.approved_by ≡ false) × (is_set c.approved_at ≡ false)
Stage _ c =
    (is_set c.submitted_by ≡ true)
    × (c.approved_by ≡ c.submitted_by)
    × (is_set c.approved_at ≡ true)
    × (is_set c.config_hash ≡ true)

abbrev pub config_at : ℕ → List Config → Option Config
config_at i cs = find (λ (c : Config). c.id) i cs

abbrev is_active? : Option Config → Bool
is_active? none = false
is_active? (some c) = status_eq c.status active

abbrev pub active_at : ℕ → List Config → Bool
active_at i cs = is_active? (config_at i cs)

abbrev pub assigned_in : ℕ → ℕ → List ConfigProxy → Bool
assigned_in i p ps = some_row (λ r. r.config_id == i && r.proxy_id == p) ps

-- IDs in use lie below the next one, every config is in order for its status, and two active
-- configs have no proxy in common.
pub record Tables (cs : List Config) (ps : List ConfigProxy) (serial : ℕ) : Type 0 where
  pub fresh : (i : ℕ) (c : Config) → config_at i cs ≡ some c → i < serial
  pub stages : (i : ℕ) (c : Config) → config_at i cs ≡ some c → Stage c.status c
  pub exclusive :
      (i j p : ℕ)
      → active_at i cs ≡ true
      → active_at j cs ≡ true
      → assigned_in i p ps ≡ true
      → assigned_in j p ps ≡ true
      → i ≡ j

abbrev pub Inv : Db → Type 0
Inv db = Tables db.configs db.config_proxies db.serial

-- The config of an active row.
pub active_at-some :
    (i : ℕ) (cs : List Config)
    → active_at i cs ≡ true
    → (c : Config) × (config_at i cs ≡ some c) × (status_eq c.status active ≡ true)
active_at-some i cs h = elim (Option-cases (config_at i cs)) [
  | inl e ↦ cc (e, h)
  | inr (c, e) ↦ (c, e, ground (arith, e))
]

pub active_at-of :
    (i : ℕ) (cs : List Config) (c : Config)
    → config_at i cs ≡ some c
    → active_at i cs ≡ status_eq c.status active
active_at-of i cs c e = rw e

pub active-update :
    (cs : List Config) (p : Config → Bool) (f : Config → Config)
    → ((x : Config) → (f x).id ≡ x.id)
    → ((x : Config)
        → p x ≡ true
        → status_eq (f x).status active ≡ true
        → status_eq x.status active ≡ true)
    → (i : ℕ) → active_at i (update_where p f cs) ≡ true
    → active_at i cs ≡ true
active-update cs p f key act i h =
    let (y, e, a) = active_at-some i (update_where p f cs) h in
    let (x, ex, ey) = find-update_where_inv (λ (c : Config). c.id) i p f cs y key e in
    rw ex (elim (Bool-cases (p x)) [
      | inl sel ↦ act x sel (ground (arith, ey, sel, a))
      | inr not_sel ↦ ground (arith, ey, not_sel, a)
    ])

module _ {cs : List Config} {ps : List ConfigProxy} {n : ℕ} where
  -- Another row in some table takes the next ID.
  pub Tables-suc : Tables cs ps n → Tables cs ps (n + 1)
  Tables-suc t = record {
    fresh = λ i c e. omega (arith, t.fresh i c e);
    stages = t.stages;
    exclusive = t.exclusive;
  }

  -- Assignments that are fewer.
  pub Tables-sub :
      {ps' : List ConfigProxy}
      → ((i p : ℕ) → assigned_in i p ps' ≡ true → assigned_in i p ps ≡ true)
      → Tables cs ps n
      → Tables cs ps' n
  Tables-sub h t = record {
    fresh = t.fresh;
    stages = t.stages;
    exclusive = λ i j p a b u v. t.exclusive i j p a b (h i p u) (h j p v);
  }

  -- An update that makes no config active and keeps each in order.
  pub Tables-update :
      (p : Config → Bool) (f : Config → Config)
      → ((x : Config) → (f x).id ≡ x.id)
      → ((x : Config) → p x ≡ true → Stage x.status x → Stage (f x).status (f x))
      → ((x : Config)
          → p x ≡ true
          → status_eq (f x).status active ≡ true
          → status_eq x.status active ≡ true)
      → Tables cs ps n
      → Tables (update_where p f cs) ps n
  Tables-update p f key stage act t = record {
    fresh = λ i y e.
        let (x, ex, ey) = find-update_where_inv (λ (c : Config). c.id) i p f cs y key e in
        t.fresh i x ex;
    stages = λ i y e.
        let (x, ex, ey) = find-update_where_inv (λ (c : Config). c.id) i p f cs y key e in
        subst (λ (c : Config). Stage c.status c) (sym ey) (stage_of x (t.stages i x ex));
    exclusive = λ i j q a b u v.
        t.exclusive i j q (active-update cs p f key act i a) (active-update cs p f key act j b) u v;
  }
    where
      stage_of :
          (x : Config)
          → Stage x.status x
          → Stage (if p x then f x else x).status (if p x then f x else x)
      stage_of x s = elim (Bool-cases (p x)) [
        | inl sel ↦ rw sel (stage x sel s)
        | inr not_sel ↦ rw not_sel s
      ]
