-- ===== src/Invariant/Assignments.antt =====
-- New and deleted rows of `configs` and `config_proxies`, and the approval of a config, under the
-- rules of Invariant/Lifecycle.
use ats_proxy_manager.Prelude.{
  ℕ, ◌+◌, Bool, true, false, some, List, [], ◌∷◌, ◌++◌, ◌≡◌, sym, subst, ◌∙◌, ◌⊎◌, inl, inr, ◌==◌,
  ◌&&◌, if◌then◌else◌, arith, Bool-cases,
}
use ats_proxy_manager.Prelude.Table.{
  update_where, delete_where, find-update_where_inv, find-append_inv, find_key, find-delete_where,
  some_row-append,
}
use ats_proxy_manager.Domain.Enums.{draft, active, status_eq}
use ats_proxy_manager.Domain.Models.{Config, ConfigProxy}
use ats_proxy_manager.Invariant.Lifecycle.{
  Stage, config_at, active_at, active_at-some, assigned_in, Tables,
}

pub active-append :
    (cs : List Config) (c : Config) (i : ℕ)
    → status_eq c.status active ≡ false
    → active_at i (cs ++ c ∷ []) ≡ true
    → active_at i cs ≡ true
active-append cs c i d h =
    let (y, e, a) = active_at-some i (cs ++ c ∷ []) h in
    elim (find-append_inv (λ (x : Config). x.id) i cs c y e) [
      | inl old ↦ rw old a
      | inr new ↦ ground (arith, new.1, a, d)
    ]

pub active-delete :
    (cs : List Config) (i k : ℕ)
    → active_at k (delete_where (λ c. c.id == i) cs) ≡ true
    → active_at k cs ≡ true
active-delete cs i k h = ground (arith, find-delete_where (λ (x : Config). x.id) k i cs)

module _ {cs : List Config} {ps : List ConfigProxy} {n : ℕ} where
  -- A new draft, which takes the next ID.
  pub Tables-append :
      (c : Config)
      → c.id ≡ n
      → c.status ≡ draft
      → Stage draft c
      → Tables cs ps n
      → Tables (cs ++ c ∷ []) ps (n + 1)
  Tables-append c id_is d s t = record {
    fresh = λ i y e. elim (find-append_inv (λ (x : Config). x.id) i cs c y e) [
      | inl old ↦ omega (arith, t.fresh i y old)
      | inr new ↦ omega (arith, new.0, id_is)
    ];
    stages = λ i y e. elim (find-append_inv (λ (x : Config). x.id) i cs c y e) [
      | inl old ↦ t.stages i y old
      | inr new ↦
          subst (λ (x : Config). Stage x.status x) (sym new.1) (subst (λ st. Stage st c) (sym d) s)
    ];
    exclusive = λ i j p a b u v.
        t.exclusive i j p (active-append cs c i (rw d) a) (active-append cs c j (rw d) b) u v;
  }

  pub Tables-delete : (i : ℕ) → Tables cs ps n → Tables (delete_where (λ c. c.id == i) cs) ps n
  Tables-delete i t = record {
    fresh = λ k y e. t.fresh k y (kept k y e);
    stages = λ k y e. t.stages k y (kept k y e);
    exclusive =
        λ k j p a b u v. t.exclusive k j p (active-delete cs i k a) (active-delete cs i j b) u v;
  }
    where
      kept :
          (k : ℕ) (y : Config)
          → config_at k (delete_where (λ c. c.id == i) cs) ≡ some y
          → config_at k cs ≡ some y
      kept k y e = ground (arith, find-delete_where (λ (x : Config). x.id) k i cs)

  -- A proxy may be added to a config that is not active, and to one that is where no other active
  -- config has the proxy.
  pub Tables-assign :
      (row : ConfigProxy)
      → ((j : ℕ)
          → active_at row.config_id cs ≡ true
          → active_at j cs ≡ true
          → assigned_in j row.proxy_id ps ≡ true
          → row.config_id ≡ j)
      → Tables cs ps n
      → Tables cs (ps ++ row ∷ []) n
  Tables-assign row h t = record {
    fresh = t.fresh;
    stages = t.stages;
    exclusive = λ i j p a b u v. elim (split i p u) [
      | inl ui ↦ elim (split j p v) [
        | inl vj ↦ t.exclusive i j p a b ui vj
        | inr new ↦ sym (joined i j p new b a ui)
      ]
      | inr new ↦ elim (split j p v) [ inl vj ↦ joined j i p new a b vj | inr new' ↦ omega arith ]
    ];
  }
    where
      split :
          (i p : ℕ)
          → assigned_in i p (ps ++ row ∷ []) ≡ true
          → (assigned_in i p ps ≡ true) ⊎ ((row.config_id ≡ i) × (row.proxy_id ≡ p))
      split i p u =
          ground (arith, some_row-append (λ r. r.config_id == i && r.proxy_id == p) ps row)

      joined :
          (j i p : ℕ)
          → (row.config_id ≡ i) × (row.proxy_id ≡ p)
          → active_at i cs ≡ true
          → active_at j cs ≡ true
          → assigned_in j p ps ≡ true
          → i ≡ j
      joined j i p new a b v =
          sym new.0
          ∙ h j (subst (λ k. active_at k cs ≡ true) (sym new.0) a) b
              (subst (λ k. assigned_in j k ps ≡ true) (sym new.1) v)

  -- The approval of `id`, where no other active config has one of its proxies.
  pub Tables-approve :
      (id : ℕ) (p : Config → Bool) (f : Config → Config)
      → ((x : Config) → (f x).id ≡ x.id)
      → ((x : Config) → p x ≡ true → x.id ≡ id)
      → ((x : Config) → config_at id cs ≡ some x → p x ≡ true → Stage (f x).status (f x))
      → ((j q : ℕ)
          → active_at j cs ≡ true
          → assigned_in j q ps ≡ true
          → assigned_in id q ps ≡ true
          → j ≡ id)
      → Tables cs ps n
      → Tables (update_where p f cs) ps n
  Tables-approve id p f key only stage alone t = record {
    fresh = λ i y e.
        let (x, ex, ey) = find-update_where_inv (λ (c : Config). c.id) i p f cs y key e in
        t.fresh i x ex;
    stages = λ i y e.
        let (x, ex, ey) = find-update_where_inv (λ (c : Config). c.id) i p f cs y key e in
        subst (λ (c : Config). Stage c.status c) (sym ey) (stage_of i x ex);
    exclusive = λ i j q a b u v. elim (source i a) [
      | inl ai ↦ elim (source j b) [
        | inl aj ↦ t.exclusive i j q ai aj u v
        | inr e ↦ alone i q ai u (subst (λ k. assigned_in k q ps ≡ true) e v) ∙ sym e
      ]
      | inr e ↦ elim (source j b) [
        | inl aj ↦ e ∙ sym (alone j q aj v (subst (λ k. assigned_in k q ps ≡ true) e u))
        | inr e' ↦ e ∙ sym e'
      ]
    ];
  }
    where
      stage_of :
          (i : ℕ) (x : Config)
          → config_at i cs ≡ some x
          → Stage (if p x then f x else x).status (if p x then f x else x)
      stage_of i x ex = elim (Bool-cases (p x)) [
        | inl sel ↦ rw sel (
            stage x
              (subst (λ k. config_at k cs ≡ some x)
                (sym (find_key (λ (c : Config). c.id) i cs ex) ∙ only x sel) ex)
              sel)
        | inr not_sel ↦ rw not_sel (t.stages i x ex)
      ]

      source :
          (i : ℕ) → active_at i (update_where p f cs) ≡ true → (active_at i cs ≡ true) ⊎ (i ≡ id)
      source i a =
          let (y, e, act) = active_at-some i (update_where p f cs) a in
          let (x, ex, ey) = find-update_where_inv (λ (c : Config). c.id) i p f cs y key e in
          elim (Bool-cases (p x)) [
            | inl sel ↦ inr (sym (find_key (λ (c : Config). c.id) i cs ex) ∙ only x sel)
            | inr not_sel ↦ inl (rw ex (ground (arith, ey, not_sel, act)))
          ]
