-- ===== src/Laws/Sessions.antt =====
-- The sessions of backend/internal/service/auth_service.go.
use ats_proxy_manager.Prelude.{
  arith, ℕ, ◌+◌, Bool, true, some, List, [], ◌∷◌, ◌++◌, ◌≡◌, refl, subst, ◌∙◌, ◌==◌, ◌&&◌, Str,
  str_eq, str_eq_refl, ==_refl,
}
use ats_proxy_manager.Prelude.Table.{select_first, some_row, some_row-append}
use ats_proxy_manager.Domain.Enums.{Error}
use ats_proxy_manager.Domain.Models.{User, Session}
use ats_proxy_manager.Runtime.{Runtime}
use ats_proxy_manager.Auth.{Crypto, TokenIds, token_expiry, generate_token, hash_token}
use ats_proxy_manager.Store.{Db, World, Result, ok, err, M}
use ats_proxy_manager.Store.Sat.{
  Sat, Post, Sat-bind, Sat-guard, Sat-or_raise, Sat-pure, Sat-ignore, Sat-fact, Sat-statement,
  Sat-get_now,
}
use ats_proxy_manager.Store.Outcomes.{Sat-ok}
use ats_proxy_manager.Repository.Sat.{Sat-checked, Sat-get}
use ats_proxy_manager.Repository.UserRepo
use ats_proxy_manager.Repository.UserRepo.{set_user}
use ats_proxy_manager.Repository.SessionRepo
use ats_proxy_manager.Repository.SessionRepo.{is_live, is_open, session_row, set_session}
use ats_proxy_manager.Service.AuthService
use ats_proxy_manager.Service.AuthService.{LoginResponse, as_error, failed_as, done_on_error}

as_error-Sat :
    {A : Type 0} {P I : Db → Type 0} {Q : A → Db → Type 0} (m : M A) (e : Error)
    → Sat P m I Q
    → Sat P (as_error m e) I Q
unfolding as_error
as_error-Sat {A} {P} {I} {Q} m e s = record { at = λ w p. of_outcome (m w) (s.at w p) }
  where
    of_outcome : (o : Result A × World) → Post I Q o → Post I Q (failed_as e o)
    of_outcome (ok a, w) h = h
    of_outcome (err x, w) h = h

-- An open session of a user with the hash of a token, which ends when the token's time is over.
abbrev pub opened : Str → ℕ → ℕ → Session → Bool
opened hash user_id t s =
    str_eq s.token_hash hash
    && (s.user_id == user_id && (is_open s.revoked_at && s.expires_at == t + token_expiry))

module _ (rt : Runtime) (crypto : Crypto) (secret email password : Str) (ids : TokenIds) where
  -- Who has logged in, when, and what is left in the tables.
  abbrev pub LoggedIn : List User → LoginResponse → Db → Type 0
  LoggedIn users r db =
      (u : User) × ((t : ℕ) × ((select_first (λ u. str_eq u.email email) users ≡ some u)
          × ((u.is_active ≡ true)
              × ((crypto.verify_password u.password_hash password ≡ true)
                  × ((generate_token rt crypto secret u ids t ≡ some (r.token, r.refresh_token))
                      × (some_row (opened (hash_token rt r.token) u.id t) db.sessions ≡ true))))))

  login-Sat :
      (users : List User) (ip ua : Str)
      → Sat
          (λ db. db.users ≡ users)
          (AuthService.login rt crypto secret email password ip ua ids)
          (λ _. Unit {0})
          (LoggedIn users)
  unfolding AuthService.login UserRepo.get_by_email SessionRepo.create UserRepo.update_last_login
      set_user some_row
  login-Sat users ip ua =
      Sat-bind _ _
        (as_error-Sat _ _
          (Sat-get (λ db. select_first (λ u. str_eq u.email email) db.users) _ (λ db _. tt)))
        λ u.
          Sat-bind _ _
            (Sat-guard {Q = λ _ db. Found u × Unit {0}} _ _ (λ db _. tt)
              (λ db active p. (
                (
                  active,
                  subst (λ us. select_first (λ u. str_eq u.email email) us ≡ some u) p.0 p.1,
                ),
                tt,
              )))
            λ _. Sat-fact _ λ found.
              Sat-bind _ _
                (Sat-guard
                  {Q = λ _ _. (crypto.verify_password u.password_hash password ≡ true) × Unit {0}} _
                  _ (λ db _. tt) (λ db h _. (h, tt)))
                λ _. Sat-fact _ λ verified. Sat-bind _ _ Sat-get_now λ t.
                  Sat-bind _ _
                    (Sat-or_raise
                      {Q = λ ts _. (generate_token rt crypto secret u ids t ≡ some ts) × Unit {0}} _
                      _ (λ db _. tt) (λ ts db h _. (h, tt)))
                    λ ts. Sat-fact _ λ generated.
                      Sat-bind _ _
                        (Sat-checked
                          {Q = λ _ db.
                            some_row (opened (hash_token rt ts.0) u.id t) db.sessions ≡ true}
                          _ _ _ (λ db _. tt)
                          (λ now db _ _.
                            added now (hash_token rt ts.0) (hash_token rt ts.1) u t ip ua db))
                        λ _.
                          Sat-bind _ _ (Sat-ignore _ (Sat-statement _ (λ db h. h) (λ now db h. h)))
                            λ _.
                              Sat-pure _
                                (λ db h. (u, (t, (found.1, (found.0, (verified, (generated, h)))))))
    where
      Found : User → Type 0
      Found u = (u.is_active ≡ true) × (select_first (λ u. str_eq u.email email) users ≡ some u)

      added :
          (now : ℕ) (hash refresh_hash : Str) (u : User) (t : ℕ) (ip ua : Str) (db : Db)
          → some_row (opened hash u.id t) (
              db.sessions
              ++ session_row db.serial now (record {
                user_id = u.id;
                token_hash = hash;
                refresh_token_hash = some refresh_hash;
                ip_address = some ip;
                user_agent = some ua;
                expires_at = t + token_expiry;
              })
                ∷ [])
            ≡ true
      added now hash refresh_hash u t ip ua db =
          some_row-append (opened hash u.id t) db.sessions _
          ∙ ground (arith, str_eq_refl hash, ==_refl u.id, ==_refl (t + token_expiry))

-- A login that succeeds is of an active user, found by the address, whose password hash the password
-- passes. Its tokens are the user's, of one time, and the tables then have an open session for the
-- access token's hash that ends when the token's time is over.
pub login-LoggedIn :
    (rt : Runtime) (crypto : Crypto) (secret email password ip ua : Str) (ids : TokenIds)
    (w w' : World) (r : LoginResponse)
    → AuthService.login rt crypto secret email password ip ua ids w ≡ (ok r, w')
    → LoggedIn rt crypto secret email password ids w.db.users r w'.db
login-LoggedIn rt crypto secret email password ip ua ids w w' r e =
    Sat-ok _ w w' r (login-Sat rt crypto secret email password ids w.db.users ip ua) refl e
