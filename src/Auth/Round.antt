-- ===== src/Auth/Round.antt =====
-- The tokens that `GenerateToken` of backend/internal/auth/jwt.go makes, read again.
use ats_proxy_manager.Prelude.{ℕ, ◌+◌, ◌*◌, ◌/◌, true, ltb, Option, none, some, ◌≡◌, refl, Str}
use ats_proxy_manager.Domain.Models.{User}
use ats_proxy_manager.Runtime.{Runtime}
use ats_proxy_manager.Auth.{
  Crypto, Payload, TokenIds, token_expiry, refresh_expiry, identity_of, no_identity, generate_token,
  parse_token, parse_refresh_token, access_payload, refresh_payload, both,
}
use ats_proxy_manager.Repository.ProxyRepo.{second}

-- What was signed is read as long as it has not expired.
abbrev pub ReadsSigned : Crypto → Str → Type 0
ReadsSigned crypto secret =
    (p : Payload) (token : Str) (now : ℕ)
    → crypto.sign secret p ≡ some token
    → ltb now (p.expires_at * second) ≡ true
    → crypto.parse secret now token ≡ some p

module _ (rt : Runtime) (crypto : Crypto) (secret : Str) where
  both_signed :
      (a b : Option Str) (token refresh_token : Str)
      → both rt crypto secret a b ≡ some (token, refresh_token)
      → (a ≡ some token) × (b ≡ some refresh_token)
  both_signed (some a) (some b) token refresh_token e = (cc e, cc e)
  both_signed none b token refresh_token e = cc e
  both_signed (some a) none token refresh_token e = cc e

  signed :
      (u : User) (ids : TokenIds) (now : ℕ) (token refresh_token : Str)
      → generate_token rt crypto secret u ids now ≡ some (token, refresh_token)
      → (crypto.sign secret (access_payload rt crypto secret u ids.access now) ≡ some token)
        × (crypto.sign secret (refresh_payload rt crypto secret u ids.refresh now)
            ≡ some refresh_token)
  unfolding generate_token
  signed u ids now token refresh_token e = both_signed _ _ token refresh_token e

-- Where the library reads what it has signed, and a UUID's text is read as that UUID: until it
-- expires, in whole seconds, a user's access token says who the user is and with which role; and the
-- refresh token made with it, until it expires, names the user, and says nothing of a role.
pub generate_token-parse :
    (rt : Runtime) (crypto : Crypto) (secret : Str) (u : User) (ids : TokenIds) (now : ℕ)
    (token refresh_token : Str) (later much_later : ℕ)
    → ReadsSigned crypto secret
    → ((id : ℕ) → rt.uuid_parse (rt.uuid_string id) ≡ some id)
    → generate_token rt crypto secret u ids now ≡ some (token, refresh_token)
    → ltb later ((now + token_expiry) / second * second) ≡ true
    → ltb much_later ((now + refresh_expiry) / second * second) ≡ true
    → (parse_token crypto secret later token
        ≡ some (record {
          identity = identity_of u;
          registered = access_payload rt crypto secret u ids.access now;
        }))
      × ((parse_refresh_token rt crypto secret much_later refresh_token ≡ some u.id)
          × (parse_token crypto secret much_later refresh_token
              ≡ some (record {
                identity = no_identity;
                registered = refresh_payload rt crypto secret u ids.refresh now;
              })))
unfolding parse_token parse_refresh_token no_identity
generate_token-parse rt crypto secret u ids now token refresh_token later much_later reads uuid e h
      k =
    let (a, r) = signed rt crypto secret u ids now token refresh_token e in
    (
      rw (reads _ token later a h) refl,
      (
        rw (reads _ refresh_token much_later r k) (uuid u.id),
        rw (reads _ refresh_token much_later r k) refl,
      ),
    )
