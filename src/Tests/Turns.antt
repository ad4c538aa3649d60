-- ===== src/Tests/Turns.antt =====
-- Turns of the helper's loops: a configuration whose second file cannot be renamed, and a backend that
-- comes back.
use ats_proxy_manager.Prelude.{
  ℕ, Option, List, refl, false, none, some, [], ◌∷◌, ◌≡◌, ◌⊎◌, ◌&&◌, ◌||◌, Str, codes,
}
use ats_proxy_manager.Helper.Host.{
  Host, works, leaves, replied, unreachable, done, next_reply, later_replies,
}
use ats_proxy_manager.Helper.Client.{Json, Settings, ConfigResponse}
use ats_proxy_manager.Helper.Manager.{parent_file, hash_file}
use ats_proxy_manager.Helper.Loop.{take_over, hello_tick, wait_for_register}
use ats_proxy_manager.Helper.Host.{configured}
use ats_proxy_manager.Helper.Manager.{debug_enabled, debug_tags}
use ats_proxy_manager.Helper.Loop.Capture.{
  capture_and_send_logs, Reports, with_messages, capture_and_send_logs-events,
}
use ats_proxy_manager.Helper.Loop.Takeover.{TakenOver, NotTaken, take_over-Ended}
use ats_proxy_manager.Helper.Loop.Connection.{
  some_registered, is_healthy, is_registered, connection_by_replies,
}

abbrev json : Json
json = record {
  config_response = λ s. none;
  register_response = λ s. some (record { proxy_id = s; config_id = []; status = [] });
}

abbrev settings : Settings
settings = record { hostname = codes "h"; config_id = [] }

abbrev trim : Str → Str
trim s = s

abbrev response : ConfigResponse
response = record {
  unchanged = false;
  hash = codes "new";
  config =
      some
        (record { parent_config = codes "parents"; sni_yaml = codes "names"; ip_allow_yaml = [] });
  capture_logs = false;
  capture_until = 0;
}

abbrev host : Host
host = record {
  files = (parent_file, codes "old") ∷ (hash_file, codes "hash") ∷ [];
  calls = works ∷ works ∷ leaves (codes "na") ∷ [];
  replies = unreachable ∷ replied 200 [] ∷ replied 200 (codes "7") ∷ [];
  events = [];
  connected = false;
  proxy_id = [];
}

take_over-Ended_example :
    TakenOver json settings trim response host (take_over json settings trim response host).1
    ⊎ NotTaken json settings trim response host (take_over json settings trim response host).1
take_over-Ended_example = take_over-Ended json settings trim response host

connection_by_replies_example :
    ((wait_for_register json settings trim 2 host).0
      ≡ done (some_registered json settings trim 2 host.replies))
    × ((hello_tick json settings trim host).1.connected ≡ (
        is_healthy (next_reply host.replies)
        && (host.connected
            || is_registered json settings trim (next_reply (later_replies host.replies)))))
connection_by_replies_example = connection_by_replies json settings trim 2 host

abbrev quiet_host : Host
quiet_host = record host { calls = [] }

abbrev log_ticks : List (ℕ × Option Str)
log_ticks = (5, some (codes "parent up")) ∷ (6, none) ∷ (9, some (codes "parent down")) ∷ []

capture_and_send_logs-events_example :
    (reports : List (List Str)) × Reports 7 log_ticks reports
    × ((capture_and_send_logs json settings 7 log_ticks quiet_host).1.events
        ≡ configured debug_enabled (codes "0")
          ∷ with_messages json settings reports (
              configured debug_tags (codes "parent_select")
              ∷ configured debug_enabled (codes "1")
              ∷ []))
capture_and_send_logs-events_example =
    capture_and_send_logs-events json settings 7 log_ticks quiet_host refl
