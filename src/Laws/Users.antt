-- ===== src/Laws/Users.antt =====
-- backend/internal/service/user_service.go: whom a caller may add, change and switch off.
use mathlib.Core.Option
use ats_proxy_manager.Prelude.{
  arith, ℕ, ◌+◌, true, false, not, Option, none, some, [], ◌∷◌, ◌++◌, ◌≡◌, ◌⊎◌, inl, inr, refl, sym,
  subst, ◌∙◌, ◌==◌, ==_sound, Bool-cases, Str, if◌then◌else◌,
}
use ats_proxy_manager.Prelude.Table.{find-append, find-update_where, find_key}
use ats_proxy_manager.Domain.Enums.{UserRole, can_create, is_root}
use ats_proxy_manager.Domain.Models.{User}
use ats_proxy_manager.Auth.{Crypto}
use ats_proxy_manager.Store.{Db}
use ats_proxy_manager.Store.Sat.{
  Sat, Sat-bind, Sat-guard, Sat-or_raise, Sat-pure, Sat-fact, Sat-statement,
}
use ats_proxy_manager.Repository.Sat.{Sat-checked, Sat-get}
use ats_proxy_manager.Repository.Keys.{find_user}
use ats_proxy_manager.Repository.UserRepo
use ats_proxy_manager.Repository.UserRepo.{set_user, user_row}
use ats_proxy_manager.Laws.Audit.{audit-Sat}
use ats_proxy_manager.Service.ConfigService.Edit.{Caller}
use ats_proxy_manager.Service.UserService
use ats_proxy_manager.Service.UserService.{
  CreateUserRequest, UpdateUserRequest, may_set, or_old, with_fields, log_audit,
}

-- What a caller may do to the row of one ID.
abbrev pub Allowed : UserRole → Caller → ℕ → Option User → Option User → Type 0
Allowed role by id none none = Unit
Allowed role by id none (some u) = (can_create role u.role ≡ true) × (u.is_active ≡ true)
Allowed role by id (some u) none = false ≡ true
Allowed role by id (some u) (some v) =
    (v.password_hash ≡ u.password_hash)
    × (((v.role ≡ u.role) ⊎ (can_create role v.role ≡ true))
        × ((v.is_active ≡ u.is_active)
            ⊎ ((v.is_active ≡ false) × ((is_root role ≡ true) × ((id == by.user_id) ≡ false)))))

module _ (role : UserRole) (by : Caller) (id : ℕ) where
  pub same : (o : Option User) → Allowed role by id o o
  same none = tt
  same (some u) = (refl, (inl refl, inl refl))

  module _ (before : Option User) where
    abbrev After : Db → Type 0
    After db = Allowed role by id before (find_user id db)

    abbrev Before : Db → Type 0
    Before db = find_user id db ≡ before

    unchanged-After : (db : Db) → Before db → After db
    unchanged-After db e = subst (λ o. Allowed role by id before o) (sym e) (same before)

    log-Sat : (action : Str) (i : ℕ) → Sat After (log_audit by action i) After (λ _. After)
    unfolding log_audit
    log-Sat action i = audit-Sat _ (λ db logs n h. h)

    appended :
        (now : ℕ) (u : UserRepo.NewUser) (db : Db)
        → can_create role u.role ≡ true
        → Before db
        → After (record db {
          users = db.users ++ user_row db.serial now u ∷ [];
          serial = db.serial + 1;
        })
    appended now u db may e =
        rw (find-append (λ (x : User). x.id) id db.users (user_row db.serial now u))
          (rw e (of_old before (Bool-cases (db.serial == id))))
      where
        of_old :
            (o : Option User)
            → ((db.serial == id) ≡ true) ⊎ ((db.serial == id) ≡ false)
            → Allowed role by id o (elim o [
              | some x ↦ some x
              | none ↦ if db.serial == id then some (user_row db.serial now u) else none
            ])
        of_old (some x) c = same (some x)
        of_old none (inl c) = rw c (may, refl)
        of_old none (inr c) = rw c tt

    -- A row that is set to what is allowed.
    set_row :
        (now i : ℕ) (f : User → User) (db : Db)
        → ((u : User) → (f u).id ≡ u.id)
        → ((u : User)
            → find_user id db ≡ some u
            → i ≡ id
            → Allowed role by id (some u) (some (record (f u) { updated_at = now })))
        → Before db
        → After (set_user i now f db)
    unfolding set_user
    set_row now i f db key h e =
        rw
          (find-update_where (λ (x : User). x.id) id (λ u. u.id == i)
            (λ u. record (f u) { updated_at = now }) db.users key)
          (of_found (find_user id db) refl e)
      where
        of_row :
            (u : User)
            → find_user id db ≡ some u
            → Allowed role by id
                (some u)
                (some (if u.id == i then record (f u) { updated_at = now } else u))
        of_row u is = elim (Bool-cases (u.id == i)) [
          | inl hit ↦
              rw hit
                (h u is (sym (==_sound u.id i hit) ∙ find_key (λ (x : User). x.id) id db.users is))
          | inr miss ↦ rw miss (same (some u))
        ]

        of_found :
            (o : Option User)
            → find_user id db ≡ o
            → o ≡ before
            → Allowed role by id before
                (Option.map (λ u. if u.id == i then record (f u) { updated_at = now } else u) o)
        of_found none is e = subst (λ b. Allowed role by id b none) e tt
        of_found (some u) is e =
            subst
              (λ b.
                Allowed role by id b
                  (some (if u.id == i then record (f u) { updated_at = now } else u)))
              e (of_row u is)

    pub create-Allowed :
        (crypto : Crypto) (req : CreateUserRequest) (salt : ℕ)
        → Sat Before (UserService.create crypto req salt role by) After (λ _. After)
    unfolding UserService.create UserRepo.create
    create-Allowed crypto req salt =
        Sat-bind _ _ (Sat-guard {Q = λ _. Before} _ _ unchanged-After (λ db _ e. e)) λ _.
          Sat-bind _ _
            (Sat-guard {Q = λ _ db. (can_create role req.role ≡ true) × Before db} _ _
              unchanged-After (λ db may e. (may, e)))
            λ _. Sat-fact _ λ may.
              Sat-bind _ _ (Sat-guard {Q = λ _. Before} _ _ unchanged-After (λ db _ e. e)) λ _.
                Sat-bind _ _ (Sat-or_raise {Q = λ _. Before} _ _ unchanged-After (λ h db _ e. e))
                  λ hash.
                    Sat-bind _ _
                      (Sat-checked {Q = λ _. After} _ _ _ unchanged-After
                        (λ now db e _. appended now _ db may e))
                      λ user. Sat-bind _ _ (log-Sat _ user.id) λ _. Sat-pure user (λ db h. h)

    pub update-Allowed :
        (i : ℕ) (req : UpdateUserRequest)
        → Sat Before (UserService.update i req role by) After (λ _. After)
    unfolding UserService.update UserRepo.get_by_id UserRepo.update
    update-Allowed i req = Sat-bind _ _ (Sat-get (find_user i) _ unchanged-After) λ user.
        Sat-bind _ _
          (Sat-guard
            {Q = λ _ db.
              (may_set role req.role ≡ true) × (Before db × (find_user i db ≡ some user))}
            _ _ (λ db p. unchanged-After db p.0) (λ db may p. (may, p)))
          λ _. Sat-fact _ λ may.
            Sat-bind _ _
              (Sat-bind _ _
                (Sat-checked {Q = λ _. After} _ _ _ (λ db p. unchanged-After db p.0)
                  (λ now db p _.
                    set_row now (with_fields req user).id
                      (λ o. record o {
                        username = or_old req.username user.username;
                        email = or_old req.email user.email;
                        role = or_old req.role user.role;
                      })
                      db (λ u. refl)
                      (λ u is same_id. fields may user u (of_same db user u p.1 is same_id)) p.0))
                λ affected. Sat-guard _ _ (λ db h. h) (λ db _ h. h))
              λ _. Sat-bind _ _ (log-Sat _ i) λ _. Sat-pure _ (λ db h. h)
      where
        of_same :
            (db : Db) (user u : User)
            → find_user i db ≡ some user
            → find_user id db ≡ some u
            → user.id ≡ id
            → user.role ≡ u.role
        of_same db user u fi fu e = cc (
          subst (λ k. find_user k db ≡ some user)
              (sym (find_key (λ (x : User). x.id) i db.users fi) ∙ e) fi,
          fu,
        )

        fields :
            may_set role req.role ≡ true
            → (user u : User) → user.role ≡ u.role
            → (u.password_hash ≡ u.password_hash)
              × (((or_old req.role user.role ≡ u.role)
                    ⊎ (can_create role (or_old req.role user.role) ≡ true))
                  × ((u.is_active ≡ u.is_active)
                      ⊎ ((u.is_active ≡ false)
                          × ((is_root role ≡ true) × ((id == by.user_id) ≡ false)))))
        fields may user u e = (refl, (of_role req.role may, inl refl))
          where
            of_role :
                (r : Option UserRole)
                → may_set role r ≡ true
                → (or_old r user.role ≡ u.role) ⊎ (can_create role (or_old r user.role) ≡ true)
            of_role none may = inl e
            of_role (some r) may = inr may

    pub delete-Allowed : (i : ℕ) → Sat Before (UserService.delete i role by) After (λ _. After)
    unfolding UserService.delete UserRepo.delete
    delete-Allowed i =
        Sat-bind _ _
          (Sat-guard {Q = λ _ db. (is_root role ≡ true) × Before db} _ _ unchanged-After
            (λ db h e. (h, e)))
          λ _. Sat-fact _ λ is_root.
            Sat-bind _ _
              (Sat-guard {Q = λ _ db. (not (i == by.user_id) ≡ true) × Before db} _ _
                unchanged-After (λ db h e. (h, e)))
              λ _. Sat-fact _ λ other.
                Sat-bind _ _
                  (Sat-bind _ _
                    (Sat-statement {Q = λ _. After} _ unchanged-After (λ now db e.
                      set_row now i (λ o. record o { is_active = false }) db (λ u. refl)
                        (λ u is same_id. (
                          refl,
                          (
                            inl refl,
                            inr (
                              refl,
                              (
                                is_root,
                                subst (λ k. (k == by.user_id) ≡ false) same_id
                                    (ground (arith, other)),
                              ),
                            ),
                          ),
                        ))
                        e))
                    λ affected. Sat-guard _ _ (λ db h. h) (λ db _ h. h))
                  λ _. log-Sat _ i
