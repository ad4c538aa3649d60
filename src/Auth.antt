-- ===== src/Auth.antt =====
-- backend/internal/auth: tokens and passwords. Signing and bcrypt are parameters.
pub mod Round
use ats_proxy_manager.Prelude.{ℕ, ◌+◌, ◌*◌, ◌/◌, Bool, Option, none, some, [], Str}
use ats_proxy_manager.Domain.Enums.{UserRole}
use ats_proxy_manager.Domain.Models.{User}
use ats_proxy_manager.Runtime.{Runtime}
use ats_proxy_manager.Repository.ProxyRepo.{second, minute, hour}

unfoldable pub token_expiry : ℕ
token_expiry = 30 * minute

unfoldable pub refresh_expiry : ℕ
refresh_expiry = 24 * hour

-- The fields of `Claims` that are its own. A token without them reads as `no_identity`.
pub record Identity : Type 0 where
  pub user_id : ℕ
  pub username : Str
  pub email : Str
  pub role : UserRole

-- `uuid.Nil` is the number 0.
unfoldable pub no_identity : Identity
no_identity = record { user_id = 0; username = []; email = []; role = UserRole.other [] }

-- What is signed: the registered claims, and the identity where the token is for access. Times
-- are whole seconds, as `jwt.NewNumericDate` makes them.
pub record Payload : Type 0 where
  pub identity : Option Identity
  pub subject : Str
  pub issued_at : ℕ
  pub expires_at : ℕ
  pub token_id : Str

-- `golang-jwt/jwt` with HMAC, and `x/crypto/bcrypt`.
pub record Crypto : Type 0 where
  -- `SignedString`, by the secret
  pub sign : Str → Payload → Option Str
  -- `ParseWithClaims` with a key function that takes HMAC only, by the secret and the time: none
  -- where the text, the method, the signature or the expiry is refused
  pub parse : Str → ℕ → Str → Option Payload
  -- `GenerateFromPassword`, by the salt, and `CompareHashAndPassword`
  pub hash_password : ℕ → Str → Option Str
  pub verify_password : Str → Str → Bool

-- `Claims`
pub record Claims : Type 0 where
  pub identity : Identity
  pub registered : Payload

abbrev pub identity_of : User → Identity
identity_of u = record { user_id = u.id; username = u.username; email = u.email; role = u.role }

-- The two UUIDs of `uuid.New`.
pub record TokenIds : Type 0 where
  pub access : ℕ
  pub refresh : ℕ

module _ (rt : Runtime) (crypto : Crypto) (secret : Str) where
  abbrev access_payload : User → ℕ → ℕ → Payload
  access_payload u id now = record {
    identity = some (identity_of u);
    subject = [];
    issued_at = now / second;
    expires_at = (now + token_expiry) / second;
    token_id = rt.uuid_string id;
  }

  abbrev refresh_payload : User → ℕ → ℕ → Payload
  refresh_payload u id now = record {
    identity = none;
    subject = rt.uuid_string u.id;
    issued_at = now / second;
    expires_at = (now + refresh_expiry) / second;
    token_id = rt.uuid_string id;
  }

  abbrev both : Option Str → Option Str → Option (Str × Str)
  both (some token) (some refresh_token) = some (token, refresh_token)
  both _ _ = none

  -- none where a signature fails
  unfoldable pub generate_token : User → TokenIds → ℕ → Option (Str × Str)
  unfolding token_expiry refresh_expiry
  generate_token u ids now =
      both (crypto.sign secret (access_payload u ids.access now))
        (crypto.sign secret (refresh_payload u ids.refresh now))

  abbrev subject_of : Option Payload → Option ℕ
  subject_of none = none
  subject_of (some p) = rt.uuid_parse p.subject

  unfoldable pub parse_refresh_token : ℕ → Str → Option ℕ
  parse_refresh_token now token = subject_of (crypto.parse secret now token)

module _ (crypto : Crypto) (secret : Str) where
  abbrev identity_or_none : Option Identity → Identity
  identity_or_none none = no_identity
  identity_or_none (some i) = i

  abbrev claims_of : Option Payload → Option Claims
  claims_of none = none
  claims_of (some p) = some (record { identity = identity_or_none p.identity; registered = p })

  unfoldable pub parse_token : ℕ → Str → Option Claims
  unfolding no_identity
  parse_token now token = claims_of (crypto.parse secret now token)

unfoldable pub hash_token : Runtime → Str → Str
hash_token rt token = rt.sha256_hex token
