-- ===== src/Handler/AuthHandler.antt =====
-- backend/internal/handler/auth_handler.go. A body is none where it cannot be decoded.
use ats_proxy_manager.Prelude.{Option, none, some, Str, codes}
use ats_proxy_manager.Domain.Enums.{Error}
use ats_proxy_manager.Runtime.{Runtime}
use ats_proxy_manager.Auth.{Crypto, TokenIds, hash_token}
use ats_proxy_manager.Store.{M, pure, ignore, ◌>>◌}
use ats_proxy_manager.Handler.Answer.{Answer, success, failure, respond, bad_request_answer}
use ats_proxy_manager.Handler.Middleware.{Context}
use ats_proxy_manager.Service.AuthService
use ats_proxy_manager.Service.AuthService.{LoginResponse, RefreshResponse}

pub record LoginBody : Type 0 where
  pub email : Str
  pub password : Str

abbrev as_unauthorized : {B : Type 0} → Str → Error → Answer B
as_unauthorized text e = failure 401 text

module _ (rt : Runtime) (crypto : Crypto) (secret : Str) where
  unfoldable pub login : Option LoginBody → TokenIds → Str → Str → M (Answer LoginResponse)
  login none ids ip ua = bad_request_answer
  login (some body) ids ip ua =
      respond 200 (λ r. r) (as_unauthorized (codes "invalid_credentials"))
        (AuthService.login rt crypto secret body.email body.password ip ua ids)

  unfoldable pub refresh : Option Str → TokenIds → M (Answer RefreshResponse)
  refresh none ids = bad_request_answer
  refresh (some refresh_token) ids =
      respond 200 (λ r. r) (as_unauthorized (codes "invalid_refresh_token"))
        (AuthService.refresh rt crypto secret refresh_token ids)

module _ (rt : Runtime) where
  unfoldable pub beacon : Context → M (Answer (Unit {0}))
  beacon ctx =
      respond 200 (λ u. u) (as_unauthorized (codes "token_expired"))
        (AuthService.beacon (hash_token rt ctx.token_raw))

  -- The answer is the same whether a session was revoked or not.
  unfoldable pub logout : Context → M (Answer (Unit {0}))
  logout ctx = do ignore (AuthService.logout (hash_token rt ctx.token_raw)); pure (success 200 tt)
