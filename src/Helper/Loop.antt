-- ===== src/Helper/Loop.antt =====
-- helper/cmd/helper/main.go: registration, the hello loop and the sync loop, one turn at a time. The two
-- loops share `connected` only; each turn is one step, and the ticks may come in any order.
pub mod Capture
pub mod Takeover
pub mod Connection
use ats_proxy_manager.Prelude.{
  ℕ, zero, suc, Bool, true, false, Option, none, some, List, [], ◌∷◌, if◌then◌else◌, Str, codes,
}
use ats_proxy_manager.Helper.Host.{
  Failure, Act, give, either, ignore, ◌>>=◌, ◌>>◌, capture_started, note, set_connected,
  is_connected,
}
use ats_proxy_manager.Helper.Client.{Json, Settings, ConfigResponse, is_http_status}
use ats_proxy_manager.Helper.Client
use ats_proxy_manager.Helper.Manager.{apply_config, reload, get_current_hash, save_hash}

module _ (json : Json) (cfg : Settings) (trim : Str → Str) where
  unfoldable pub send_stats : Act (Unit {0})
  send_stats = ignore (Client.send_stats json cfg)

  abbrev capture_if : Bool → ℕ → Act (Unit {0})
  capture_if false until = give tt
  capture_if true until = note (capture_started until)

  abbrev report_error : Str → Failure → Act (Unit {0})
  report_error hash e = ignore (Client.ack json cfg hash (codes "error"))

  -- A config that has changed.
  unfoldable pub take_over : ConfigResponse → Act (Unit {0})
  take_over resp =
      either (apply_config resp.config)
        (λ _.
          either reload
            (λ _. do
              ignore (save_hash resp.hash)
              ignore (Client.ack json cfg resp.hash (codes "ok"))
              send_stats)
            (report_error resp.hash))
        (report_error resp.hash)

  abbrev pub on_response : Bool → ConfigResponse → Act (Unit {0})
  on_response true resp = send_stats
  on_response false resp = take_over resp

  abbrev pub on_refusal : Bool → Act (Unit {0})
  on_refusal true = set_connected false
  on_refusal false = give tt

  unfoldable pub do_sync : Act (Unit {0})
  do_sync = do
    current_hash ← get_current_hash trim
    either (Client.get_config json cfg current_hash)
        (λ resp. do
          capture_if resp.capture_logs resp.capture_until
          on_response resp.unchanged resp)
        (λ e. on_refusal (is_http_status e 404))

  abbrev sync_if : Bool → Act (Unit {0})
  sync_if false = give tt
  sync_if true = do_sync

  -- A turn of the loop in `main`.
  unfoldable pub sync_tick : Act (Unit {0})
  sync_tick = do connected ← is_connected; sync_if connected

  abbrev pub reconnect_if : Bool → Act (Unit {0})
  reconnect_if true = give tt
  reconnect_if false = either (Client.register json cfg) (λ _. set_connected true) (λ e. give tt)

  abbrev pub lose_if : Bool → Act (Unit {0})
  lose_if false = give tt
  lose_if true = set_connected false

  -- A turn of `helloLoop`.
  unfoldable pub hello_tick : Act (Unit {0})
  hello_tick =
      either (Client.hello json cfg) (λ _. do connected ← is_connected; reconnect_if connected)
        (λ e. do connected ← is_connected; lose_if connected)

  -- `waitForRegister` with that many ticks before the context ends; the first attempt comes at once.
  unfoldable pub wait_for_register : ℕ → Act Bool
  wait_for_register zero = either (Client.register json cfg) (λ _. give true) (λ e. give false)
  wait_for_register (suc ticks) =
      either (Client.register json cfg) (λ _. give true) (λ e. wait_for_register ticks)
