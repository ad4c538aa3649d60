-- ===== src/Handler/SyncHandler.antt =====
-- backend/internal/handler/sync_handler.go: what the helpers call, without login.
use ats_proxy_manager.Prelude.{Option, none, some, List, [], ◌∷◌, ◌==◌, if◌then◌else◌, Str}
use ats_proxy_manager.Domain.Models.{ProxyStat}
use ats_proxy_manager.Runtime.{Runtime}
use ats_proxy_manager.Store.{M}
use ats_proxy_manager.Handler.Answer.{
  Answer, respond, domain_error, bad_request_answer, with_parsed,
}
use ats_proxy_manager.Service.SyncService
use ats_proxy_manager.Service.SyncService.{
  RegisterRequest, RegisterResponse, ConfigResponse, LogsResponse, SyncLogLine,
}

-- The headers, empty where they are missing, and the address of the connection.
pub record Origin : Type 0 where
  pub real_ip : Str
  pub forwarded_for : Str
  pub remote_addr : Str

-- xff[:i] at the first comma.
unfoldable pub before_comma : Str → Str
before_comma [] = []
before_comma (c ∷ s) = let rest = before_comma s in if c == b',' then [] else c ∷ rest

abbrev or_address : Option Str → Str → Str
or_address none addr = addr
or_address (some host) addr = host

abbrev from_connection : (Str → Option Str) → Origin → Str
from_connection split_host_port o = or_address (split_host_port o.remote_addr) o.remote_addr

abbrev from_proxy : (Str → Option Str) → Origin → Str → Str
from_proxy split_host_port o [] = from_connection split_host_port o
from_proxy split_host_port o (c ∷ s) = before_comma (c ∷ s)

-- `net.SplitHostPort` is a parameter: the host, or none for an error.
unfoldable pub extract_ip : (Str → Option Str) → Origin → Str
unfolding before_comma
extract_ip split_host_port o = elim o.real_ip [
  | [] ↦ from_proxy split_host_port o o.forwarded_for
  | c ∷ s ↦ c ∷ s
]

-- The address of the request takes the place of what the body says.
unfoldable pub register :
    Runtime → (Str → Option Str) → Option RegisterRequest → Origin → M (Answer RegisterResponse)
register rt split_host_port body o = with_parsed body λ req.
    respond 200 (λ r. r) domain_error
      (SyncService.register rt (record req { remote_ip = extract_ip split_host_port o }))

unfoldable pub get_config : Runtime → Str → Str → M (Answer ConfigResponse)
get_config rt [] hash = bad_request_answer
get_config rt (c ∷ s) hash =
    respond 200 (λ r. r) domain_error (SyncService.get_config rt (c ∷ s) hash)

pub record AckBody : Type 0 where
  pub hostname : Str
  pub hash : Str
  pub status : Str

unfoldable pub ack : Option AckBody → M (Answer (Unit {0}))
ack body =
    with_parsed body
      λ req. respond 200 (λ u. u) domain_error (SyncService.ack req.hostname req.hash req.status)

unfoldable pub stats : Option (Str × ProxyStat) → M (Answer (Unit {0}))
stats body =
    with_parsed body λ req. respond 200 (λ u. u) domain_error (SyncService.stats req.0 req.1)

unfoldable pub logs : Option (Str × List SyncLogLine) → M (Answer LogsResponse)
logs body = with_parsed body λ req. respond 200 (λ r. r) domain_error (SyncService.logs req.0 req.1)
