-- ===== src/Handler/Middleware/Bearer.antt =====
-- Whom the middleware of backend/internal/handler/middleware.go lets pass with the tokens of
-- backend/internal/auth/jwt.go.
use ats_proxy_manager.Prelude.{
  ℕ, ◌+◌, ◌*◌, ◌/◌, true, ltb, Option, none, arith, some, [], ◌∷◌, ◌++◌, ◌≡◌, refl, Str, codes,
  ==_refl,
}
use ats_proxy_manager.Domain.Enums.{UserRole}
use ats_proxy_manager.Domain.Models.{User}
use ats_proxy_manager.Runtime.{Runtime}
use ats_proxy_manager.Repository.ProxyRepo.{second}
use ats_proxy_manager.Auth.{
  Crypto, parse_token, TokenIds, generate_token, token_expiry, refresh_expiry, no_identity,
}
use ats_proxy_manager.Auth.Round.{ReadsSigned, generate_token-parse}
use ats_proxy_manager.Handler.Middleware.{
  Context, with_claims, passed, refused, after_prefix, bearer, auth_middleware, require_role,
  has_role,
}

-- The context of a user.
abbrev pub context_of : User → Str → Context
context_of u token = record {
  user_id = u.id;
  username = u.username;
  email = u.email;
  role = u.role;
  token_raw = token;
}

-- That of a token without an identity.
abbrev pub nobody : Str → Context
nobody token = record {
  user_id = 0;
  username = [];
  email = [];
  role = UserRole.other [];
  token_raw = token;
}

after_prefix-append : (p s : Str) → after_prefix p (p ++ s) ≡ some s
unfolding after_prefix
after_prefix-append [] s = refl
after_prefix-append (c ∷ p) s = rw (==_refl c) (after_prefix-append p s)

after_prefix-inv : (p s t : Str) → after_prefix p s ≡ some t → s ≡ p ++ t
unfolding after_prefix
after_prefix-inv [] s t e = cc e
after_prefix-inv (c ∷ p) [] t e = cc e
after_prefix-inv (c ∷ p) (d ∷ s) t e = ground (arith, e, after_prefix-inv p s t)

-- The header has no token that the library accepts at this time.
abbrev pub Untrusted : Crypto → Str → ℕ → Str → Type 0
Untrusted crypto secret now header =
    (token : Str) → header ≡ bearer ++ token → crypto.parse secret now token ≡ none

-- Without such a token the middleware answers itself, with 401.
pub auth_middleware-Untrusted :
    (crypto : Crypto) (secret : Str) (now : ℕ) (header : Str)
    → Untrusted crypto secret now header
    → (error : Str) × (auth_middleware crypto secret now header ≡ refused 401 error)
unfolding auth_middleware parse_token
auth_middleware-Untrusted crypto secret now [] h = (codes "unauthorized", refl)
auth_middleware-Untrusted crypto secret now (c ∷ header) h =
    of_token (after_prefix bearer (c ∷ header)) (after_prefix-inv bearer (c ∷ header))
  where
    of_token :
        (o : Option Str)
        → ((token : Str) → o ≡ some token → c ∷ header ≡ bearer ++ token)
        → (error : Str) × (elim o [
          | none ↦ refused 401 (codes "unauthorized")
          | some token ↦ with_claims token (parse_token crypto secret now token)
        ]
            ≡ refused 401 error)
    of_token none e = (codes "unauthorized", refl)
    of_token (some token) e = (codes "token_expired", rw (h token (e token refl)) refl)

-- Where the library reads what it has signed: until it expires, the access token of a login lets its user
-- pass the middleware, with the user's ID and role. The refresh token passes it as well, but as
-- nobody: a route for root and admin refuses it.
pub auth_middleware-generate_token :
    (rt : Runtime) (crypto : Crypto) (secret : Str) (u : User) (ids : TokenIds) (now : ℕ)
    (token refresh_token : Str) (later much_later : ℕ)
    → ReadsSigned crypto secret
    → ((id : ℕ) → rt.uuid_parse (rt.uuid_string id) ≡ some id)
    → generate_token rt crypto secret u ids now ≡ some (token, refresh_token)
    → ltb later ((now + token_expiry) / second * second) ≡ true
    → ltb much_later ((now + refresh_expiry) / second * second) ≡ true
    → (auth_middleware crypto secret later (bearer ++ token) ≡ passed (context_of u token))
      × ((auth_middleware crypto secret much_later (bearer ++ refresh_token)
            ≡ passed (nobody refresh_token))
          × (require_role (UserRole.root ∷ UserRole.admin ∷ []) (nobody refresh_token)
              ≡ refused 403 (codes "forbidden")))
unfolding auth_middleware require_role has_role no_identity after_prefix
auth_middleware-generate_token rt crypto secret u ids now token refresh_token later much_later reads
      uuid e h k =
    let (a, (_, r)) =
      generate_token-parse rt crypto secret u ids now token refresh_token later much_later reads
        uuid e h k in
    (rw a refl, (rw r refl, refl))
