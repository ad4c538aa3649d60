-- ===== src/Laws/Revocation.antt =====
-- What the requests of /auth and /users never do: open a revoked session again, or make a root user.
use mathlib.Core.Option
use ats_proxy_manager.Prelude.{
  arith, ℕ, ◌+◌, Bool, true, false, Option, none, some, List, [], ◌∷◌, ◌++◌, ◌≡◌, ◌⊎◌, inl, inr,
  refl, ◌∙◌, ◌==◌, Bool-cases, Str, if◌then◌else◌,
}
use ats_proxy_manager.Prelude.Table.{find-append, find-update_where}
use ats_proxy_manager.Domain.Enums.{UserRole, can_create, is_root}
use ats_proxy_manager.Domain.Models.{User, Session}
use ats_proxy_manager.Runtime.{Runtime}
use ats_proxy_manager.Auth.{Crypto}
use ats_proxy_manager.Store.{Db, World, Result, M, ok, err}
use ats_proxy_manager.Store.Sat.{Keeps, Post, Sat-statement}
use ats_proxy_manager.Repository.Sat.{Sat-checked, Sat-affected}
use ats_proxy_manager.Repository.Keys.{find_session, find_user}
use ats_proxy_manager.Repository.UserRepo
use ats_proxy_manager.Repository.UserRepo.{set_user}
use ats_proxy_manager.Repository.SessionRepo
use ats_proxy_manager.Repository.SessionRepo.{is_open, set_session, session_row}
use ats_proxy_manager.Repository.AuditRepo
use ats_proxy_manager.Handler.UserHandler.{caller_of}
use ats_proxy_manager.Service.ConfigService.Edit.{Caller}
use ats_proxy_manager.Server.{after_access}
use ats_proxy_manager.Server.Access.{AccessRequest, serve_access}
use ats_proxy_manager.Server.Safety.{Post-db}
use ats_proxy_manager.Invariant.Access.{
  SessionsKeep, UsersKeep, serve_users-Keeps, serve_access-Keeps,
}
use ats_proxy_manager.Laws.Users.{Allowed}
use ats_proxy_manager.Laws.UserRoutes.{serve-Allowed}

-- The session of an ID is there, of a user, and revoked.
abbrev pub Revoked : ℕ → ℕ → Db → Type 0
Revoked id user_id db =
    (s : Session) × ((find_session id db ≡ some s)
      × ((s.user_id ≡ user_id) × (is_open s.revoked_at ≡ false)))

module _ (id user_id : ℕ) where
  added-Revoked :
      (row : Session) (db : Db)
      → Revoked id user_id db
      → Revoked id user_id
          (record db { sessions = db.sessions ++ row ∷ []; serial = db.serial + 1 })
  added-Revoked row db (s, (found, kept)) =
      (s, (find-append (λ (x : Session). x.id) id db.sessions row ∙ rw found refl, kept))

  -- An update that opens nothing.
  set-Revoked :
      (i : ℕ) (f : Session → Session) (db : Db)
      → ((s : Session) → (f s).id ≡ s.id)
      → ((s : Session) → (f s).user_id ≡ s.user_id)
      → ((s : Session) → is_open s.revoked_at ≡ false → is_open (f s).revoked_at ≡ false)
      → Revoked id user_id db
      → Revoked id user_id (set_session i f db)
  unfolding set_session
  set-Revoked i f db key owner closed (s, (found, (of_user, revoked))) =
      rw (find-update_where (λ (x : Session). x.id) id (λ x. x.id == i) f db.sessions key) (
        rw found (elim (Bool-cases (s.id == i)) [
          | inl hit ↦ rw hit (f s, (refl, (owner s ∙ of_user, closed s revoked)))
          | inr miss ↦ rw miss (s, (refl, (of_user, revoked)))
        ]))

  sessions-Revoked : SessionsKeep (Revoked id user_id)
  unfolding UserRepo.update_last_login SessionRepo.create SessionRepo.update_beacon
      SessionRepo.update_tokens SessionRepo.revoke set_user
  sessions-Revoked = record {
    last_login = λ i. Sat-statement _ (λ db h. h) (λ now db h. h);
    begin = λ s.
        Sat-checked _ _ _ (λ db h. h)
          (λ now db h _. added-Revoked (session_row db.serial now s) db h);
    renew = λ i expiry.
        Sat-statement _ (λ db h. h)
          (λ now db h.
            set-Revoked i (λ s. record s { last_beacon = now; expires_at = expiry }) db (λ s. refl)
              (λ s. refl) (λ s e. e) h);
    retoken = λ i hash expiry.
        Sat-statement _ (λ db h. h)
          (λ now db h.
            set-Revoked i (λ s. record s { token_hash = hash; expires_at = expiry }) db (λ s. refl)
              (λ s. refl) (λ s e. e) h);
    revoke = λ i.
        Sat-statement _ (λ db h. h)
          (λ now db h.
            set-Revoked i (λ s. record s { revoked_at = some now }) db (λ s. refl) (λ s. refl)
              (λ s e. refl) h);
  }

  users-Revoked : UsersKeep (Revoked id user_id)
  unfolding UserRepo.create UserRepo.update UserRepo.delete set_user AuditRepo.create
  users-Revoked = record {
    create = λ u. Sat-checked _ _ _ (λ db h. h) (λ now db h _. h);
    update = λ u. Sat-affected _ _ (Sat-checked _ _ _ (λ db h. h) (λ now db h _. h));
    delete = λ i. Sat-affected _ _ (Sat-statement _ (λ db h. h) (λ now db h. h));
    audit = λ e. Sat-checked _ _ _ (λ db h. h) (λ now db h _. h);
  }

-- No request of /auth or /users, whatever fails in it, opens a revoked session again, removes it or
-- hands it to another user.
pub access-Revoked :
    (rt : Runtime) (crypto : Crypto) (secret : Str) (r : AccessRequest) (ip ua : Str)
    (faults : List Bool) (now : ℕ) (db : Db) (id user_id : ℕ)
    → Revoked id user_id db
    → Revoked id user_id (after_access rt crypto secret r ip ua faults now db)
unfolding after_access
access-Revoked rt crypto secret r ip ua faults now db id user_id h =
    Post-db (serve_access rt crypto secret r ip ua)
      (serve_access-Keeps rt crypto secret (sessions-Revoked id user_id) r ip ua
        (λ u ctx. serve_users-Keeps rt crypto (users-Revoked id user_id) u ip ua ctx))
      _ h

-- The role of the row of an ID.
abbrev pub is_root_user : Option User → Bool
is_root_user none = false
is_root_user (some u) = is_root u.role

-- The user of the ID is not root.
abbrev NotRoot : ℕ → Db → Type 0
NotRoot id db = is_root_user (find_user id db) ≡ false

not_created : (role target : UserRole) → can_create role target ≡ true → is_root target ≡ false
unfolding can_create
not_created role target h = ground arith

Allowed-NotRoot :
    (role : UserRole) (by : Caller) (id : ℕ) (before after : Option User)
    → Allowed role by id before after
    → is_root_user before ≡ false
    → is_root_user after ≡ false
Allowed-NotRoot role by id none none a h = refl
Allowed-NotRoot role by id none (some u) a h = not_created role u.role a.0
Allowed-NotRoot role by id (some u) none a h = refl
Allowed-NotRoot role by id (some u) (some v) a h = of_role a.1.0
  where
    of_role : (v.role ≡ u.role) ⊎ (can_create role v.role ≡ true) → is_root v.role ≡ false
    of_role (inl e) = rw e h
    of_role (inr e) = not_created role v.role e

Keeps-of : {P : Db → Type 0} (m : M (Unit {0})) → ((w : World) → P w.db → P (m w).1.db) → Keeps P m
Keeps-of {P} m h = record { at = λ w p. of_outcome (m w) (h w p) }
  where
    of_outcome : (o : Result (Unit {0}) × World) → P o.1.db → Post P (λ _. P) o
    of_outcome (ok a, w) p = p
    of_outcome (err e, w) p = p

sessions-NotRoot : (id : ℕ) → SessionsKeep (NotRoot id)
unfolding UserRepo.update_last_login SessionRepo.create SessionRepo.update_beacon
    SessionRepo.update_tokens SessionRepo.revoke set_user set_session
sessions-NotRoot id = record {
  last_login = λ i. Sat-statement _ (λ db h. h) (λ now db h. seen i now db h);
  begin = λ s. Sat-checked _ _ _ (λ db h. h) (λ now db h _. h);
  renew = λ i expiry. Sat-statement _ (λ db h. h) (λ now db h. h);
  retoken = λ i hash expiry. Sat-statement _ (λ db h. h) (λ now db h. h);
  revoke = λ i. Sat-statement _ (λ db h. h) (λ now db h. h);
}
  where
    seen :
        (i now : ℕ) (db : Db)
        → NotRoot id db
        → NotRoot id (set_user i now (λ o. record o { last_login = some now }) db)
    seen i now db h =
        rw
          (find-update_where (λ (x : User). x.id) id (λ u. u.id == i)
            (λ u. record u { last_login = some now; updated_at = now }) db.users (λ u. refl))
          (of_found (find_user id db) h)
      where
        of_found :
            (o : Option User)
            → is_root_user o ≡ false
            → is_root_user (
                Option.map
                  (λ u.
                    if u.id == i then record u { last_login = some now; updated_at = now } else u)
                  o)
              ≡ false
        of_found none h = refl
        of_found (some u) h = elim (Bool-cases (u.id == i)) [
          | inl hit ↦ rw hit h
          | inr miss ↦ rw miss h
        ]

-- No request of /auth or /users, whatever fails in it, makes a root user: whoever is root after it was
-- root before.
pub access_root :
    (rt : Runtime) (crypto : Crypto) (secret : Str) (r : AccessRequest) (ip ua : Str)
    (faults : List Bool) (now : ℕ) (db : Db) (id : ℕ)
    → is_root_user (find_user id (after_access rt crypto secret r ip ua faults now db)) ≡ true
    → is_root_user (find_user id db) ≡ true
unfolding after_access
access_root rt crypto secret r ip ua faults now db id h =
    elim (Bool-cases (is_root_user (find_user id db))) [
      | inl root ↦ root
      | inr other ↦ cc (h, kept other)
    ]
  where
    kept : NotRoot id db → NotRoot id (after_access rt crypto secret r ip ua faults now db)
    kept =
        Post-db (serve_access rt crypto secret r ip ua)
          (serve_access-Keeps rt crypto secret (sessions-NotRoot id) r ip ua (λ u ctx.
            Keeps-of _ (λ w p.
              Allowed-NotRoot ctx.role (caller_of ctx ip ua) id _ _
                (serve-Allowed rt crypto u ctx ip ua id w) p)))
          _
