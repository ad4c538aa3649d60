-- ===== src/Handler/ConfigHandler.antt =====
-- backend/internal/handler/config_handler.go, less the list. A body is none where it cannot be decoded;
-- the reason of a rejection is not kept by the service.
use ats_proxy_manager.Prelude.{Option, Str}
use ats_proxy_manager.Domain.Models.{Config}
use ats_proxy_manager.Runtime.{Runtime}
use ats_proxy_manager.Store.{M}
use ats_proxy_manager.Handler.Answer.{Answer, respond, domain_error, with_parsed}
use ats_proxy_manager.Handler.Middleware.{Context}
use ats_proxy_manager.Handler.UserHandler.{caller_of}
use ats_proxy_manager.Service.ConfigInput.{CreateConfigRequest}
use ats_proxy_manager.Service.ConfigService.Rules.{ConfigDetail}
use ats_proxy_manager.Service.ConfigService.Files
use ats_proxy_manager.Service.ConfigService.Files.{ConfigFiles}
use ats_proxy_manager.Service.ConfigService.Edit
use ats_proxy_manager.Service.ConfigService.Workflow

module _ (rt : Runtime) where
  unfoldable pub get_by_id : Str → M (Answer ConfigDetail)
  get_by_id id =
      with_parsed (rt.uuid_parse id) λ i. respond 200 (λ d. d) domain_error (Files.get_by_id rt i)

  unfoldable pub delete : Str → Context → Str → Str → M (Answer (Unit {0}))
  delete id ctx ip ua =
      with_parsed (rt.uuid_parse id)
        λ i. respond 204 (λ u. u) domain_error (Edit.delete rt i (caller_of ctx ip ua))

  unfoldable pub create : Option CreateConfigRequest → Context → Str → Str → M (Answer ConfigDetail)
  create body ctx ip ua =
      with_parsed body
        λ req. respond 201 (λ d. d) domain_error (Edit.create rt req (caller_of ctx ip ua))

  unfoldable pub update :
      Str → Option CreateConfigRequest → Context → Str → Str → M (Answer ConfigDetail)
  update id body ctx ip ua = with_parsed (rt.uuid_parse id) λ i.
      with_parsed body
        λ req. respond 200 (λ d. d) domain_error (Edit.update rt i req (caller_of ctx ip ua))

  unfoldable pub submit : Str → Context → Str → Str → M (Answer Config)
  submit id ctx ip ua =
      with_parsed (rt.uuid_parse id)
        λ i. respond 200 (λ c. c) domain_error (Workflow.submit i (caller_of ctx ip ua))

  unfoldable pub approve : Str → Context → Str → Str → M (Answer Config)
  approve id ctx ip ua =
      with_parsed (rt.uuid_parse id)
        λ i. respond 200 (λ c. c) domain_error (Workflow.approve rt i (caller_of ctx ip ua))

  unfoldable pub reject : Str → Context → Str → Str → M (Answer Config)
  reject id ctx ip ua =
      with_parsed (rt.uuid_parse id)
        λ i. respond 200 (λ c. c) domain_error (Workflow.reject i (caller_of ctx ip ua))

  unfoldable pub clone : Str → Context → Str → Str → M (Answer ConfigDetail)
  clone id ctx ip ua =
      with_parsed (rt.uuid_parse id)
        λ i. respond 201 (λ d. d) domain_error (Edit.clone rt i (caller_of ctx ip ua))

  unfoldable pub preview : Str → M (Answer ConfigFiles)
  preview id =
      with_parsed (rt.uuid_parse id)
        λ i. respond 200 (λ f. f) domain_error (Files.generate_config_files rt i)
