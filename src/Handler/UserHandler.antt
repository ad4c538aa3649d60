-- ===== src/Handler/UserHandler.antt =====
-- backend/internal/handler/user_handler.go. A body is none where it cannot be decoded; the caller is
-- who the middleware found, with the address and the agent of the request.
use ats_proxy_manager.Prelude.{ℕ, Option, none, some, Str}
use ats_proxy_manager.Domain.Enums.{UserRole}
use ats_proxy_manager.Domain.Models.{User}
use ats_proxy_manager.Runtime.{Runtime}
use ats_proxy_manager.Auth.{Crypto}
use ats_proxy_manager.Store.{M}
use ats_proxy_manager.Handler.Answer.{Answer, respond, domain_error, bad_request_answer}
use ats_proxy_manager.Handler.Middleware.{Context}
use ats_proxy_manager.Service.ConfigService.Edit.{Caller}
use ats_proxy_manager.Service.UserService
use ats_proxy_manager.Service.UserService.{CreateUserRequest, UpdateUserRequest}

abbrev pub caller_of : Context → Str → Str → Caller
caller_of ctx ip ua = record { user_id = ctx.user_id; ip = ip; ua = ua }

-- The fields of the answers: `at` is the time of creation, or of the last change that was read.
pub record UserItem : Type 0 where
  pub id : Str
  pub username : Str
  pub email : Str
  pub role : UserRole
  pub at : ℕ

module _ (rt : Runtime) where
  abbrev pub created_item : User → UserItem
  created_item u = record {
    id = rt.uuid_string u.id;
    username = u.username;
    email = u.email;
    role = u.role;
    at = u.created_at;
  }

  abbrev pub updated_item : User → UserItem
  updated_item u = record {
    id = rt.uuid_string u.id;
    username = u.username;
    email = u.email;
    role = u.role;
    at = u.updated_at;
  }

  unfoldable pub create :
      Crypto → Option CreateUserRequest → ℕ → Context → Str → Str → M (Answer UserItem)
  create crypto none salt ctx ip ua = bad_request_answer
  create crypto (some req) salt ctx ip ua =
      respond 201 created_item domain_error
        (UserService.create crypto req salt ctx.role (caller_of ctx ip ua))

  abbrev pub update_decoded :
      ℕ → Option UpdateUserRequest → Context → Str → Str → M (Answer UserItem)
  update_decoded id none ctx ip ua = bad_request_answer
  update_decoded id (some req) ctx ip ua =
      respond 200 updated_item domain_error
        (UserService.update id req ctx.role (caller_of ctx ip ua))

  abbrev pub update_parsed :
      Option ℕ → Option UpdateUserRequest → Context → Str → Str → M (Answer UserItem)
  update_parsed none body ctx ip ua = bad_request_answer
  update_parsed (some id) body ctx ip ua = update_decoded id body ctx ip ua

  unfoldable pub update : Str → Option UpdateUserRequest → Context → Str → Str → M (Answer UserItem)
  update id body ctx ip ua = update_parsed (rt.uuid_parse id) body ctx ip ua

  abbrev pub delete_parsed : Option ℕ → Context → Str → Str → M (Answer (Unit {0}))
  delete_parsed none ctx ip ua = bad_request_answer
  delete_parsed (some id) ctx ip ua =
      respond 204 (λ u. u) domain_error (UserService.delete id ctx.role (caller_of ctx ip ua))

  unfoldable pub delete : Str → Context → Str → Str → M (Answer (Unit {0}))
  delete id ctx ip ua = delete_parsed (rt.uuid_parse id) ctx ip ua
