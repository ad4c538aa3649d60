-- ===== src/Service/AuthService.antt =====
-- backend/internal/service/auth_service.go. The secret is the service's.
use ats_proxy_manager.Prelude.{ℕ, ◌+◌, ◌/◌, some, Str}
use ats_proxy_manager.Domain.Enums.{UserRole, Error, unauthorized, internal}
use ats_proxy_manager.Runtime.{Runtime}
use ats_proxy_manager.Auth.{
  Crypto, TokenIds, token_expiry, generate_token, parse_refresh_token, hash_token,
}
use ats_proxy_manager.Store.{
  World, Result, ok, err, M, pure, guard, or_raise, ignore, get_now, ◌>>=◌, ◌>>◌,
}
use ats_proxy_manager.Repository.ProxyRepo.{second}
use ats_proxy_manager.Repository.UserRepo
use ats_proxy_manager.Repository.SessionRepo

pub record UserResponse : Type 0 where
  pub id : Str
  pub email : Str
  pub username : Str
  pub role : UserRole

pub record LoginResponse : Type 0 where
  pub token : Str
  pub refresh_token : Str
  pub expires_in : ℕ
  pub user : UserResponse

pub record RefreshResponse : Type 0 where
  pub token : Str
  pub expires_in : ℕ

abbrev pub failed_as : {A : Type 0} → Error → Result A × World → Result A × World
failed_as e (ok a, w) = (ok a, w)
failed_as e (err x, w) = (err e, w)

-- `if err != nil { return e }`: any error becomes `e`.
unfoldable pub as_error : {A : Type 0} → M A → Error → M A
as_error m e w = failed_as e (m w)

abbrev pub done_on_error :
    {A : Type 0} → (A → M (Unit {0})) → Result A × World → Result (Unit {0}) × World
done_on_error f (ok a, w) = f a w
done_on_error f (err x, w) = (ok tt, w)

module _ (rt : Runtime) (crypto : Crypto) (secret : Str) where
  unfoldable pub login : Str → Str → Str → Str → TokenIds → M LoginResponse
  login email password ip ua ids = do
    user ← as_error (UserRepo.get_by_email email) unauthorized
    guard user.is_active unauthorized
    guard (crypto.verify_password user.password_hash password) unauthorized
    now ← get_now
    (token, refresh_token) ← or_raise (generate_token rt crypto secret user ids now) internal
    SessionRepo.create (record {
      user_id = user.id;
      token_hash = hash_token rt token;
      refresh_token_hash = some (hash_token rt refresh_token);
      ip_address = some ip;
      user_agent = some ua;
      expires_at = now + token_expiry;
    })
    ignore (UserRepo.update_last_login user.id)
    pure (record {
      token = token;
      refresh_token = refresh_token;
      expires_in = token_expiry / second;
      user = record {
        id = rt.uuid_string user.id;
        email = user.email;
        username = user.username;
        role = user.role;
      };
    })

  unfoldable pub refresh : Str → TokenIds → M RefreshResponse
  refresh refresh_token ids = do
    now ← get_now
    user_id ← or_raise (parse_refresh_token rt crypto secret now refresh_token) unauthorized
    session ←
        as_error (SessionRepo.get_by_refresh_token_hash (hash_token rt refresh_token)) unauthorized
    user ← as_error (UserRepo.get_by_id user_id) unauthorized
    (token, other) ← or_raise (generate_token rt crypto secret user ids now) internal
    SessionRepo.update_tokens session.id (hash_token rt token) (now + token_expiry)
    pure (record { token = token; expires_in = token_expiry / second })

unfoldable pub beacon : Str → M (Unit {0})
beacon token_hash = do
  session ← as_error (SessionRepo.get_by_token_hash token_hash) unauthorized
  now ← get_now
  SessionRepo.update_beacon session.id (now + token_expiry)

-- An error of the lookup counts as logged out.
unfoldable pub logout : Str → M (Unit {0})
logout token_hash w =
    done_on_error (λ s. SessionRepo.revoke s.id) (SessionRepo.get_by_token_hash token_hash w)
