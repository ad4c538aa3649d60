-- ===== src/Helper/Requests.antt =====
-- The helper's requests and commands, by what they leave.
use ats_proxy_manager.Prelude.{
  ℕ, Bool, true, false, Option, none, some, [], ◌∷◌, ◌≡◌, refl, ap, leb, if◌then◌else◌, Str,
}
use ats_proxy_manager.Helper.Host.{
  Host, Event, sent, Message, Call, works, fails, leaves, command, command_with, exchange, ignore,
  either, next_call, later_calls, later_replies, Reply, unreachable, replied, fail, http,
}
use ats_proxy_manager.Helper.Client.{
  Json, Settings, ConfigFiles, ConfigResponse, do_request, accepted,
}
use ats_proxy_manager.Helper.Client
use ats_proxy_manager.Helper.Logic.{Run, Run-either, Run-bind, Run-give, Run-fail, Post}

-- A request is an event, whatever the answer.
pub request-Run :
    {A : Type 0} {P E : Host → Type 0} {Q : Host → Type 0} (decode : Str → Option A) (empty : A)
    (m : Message)
    → ((h : Host)
        → P h
        → Q (record h { replies = later_replies h.replies; events = sent m ∷ h.events }))
    → Run P (ignore (do_request decode empty m)) E (λ _. Q)
unfolding do_request exchange ignore either
request-Run {A} {P} {E} {Q} decode empty m k =
    Run-either {E = Q} {Q = λ _. Q} _ _ _
      (Run-bind _ _ (record { at = λ h p. k h p }) λ r. of_reply r) (λ a. Run-give tt (λ h q. q))
      (λ x. Run-give tt (λ h q. q))
  where
    of_body : (o : Option A) → Run Q (Client.decoded o) Q (λ _. Q)
    of_body none = Run-fail _ (λ h q. q)
    of_body (some a) = Run-give a (λ h q. q)

    of_text : (s : Str) → Run Q (Client.body_of decode empty s) Q (λ _. Q)
    of_text [] = Run-give empty (λ h q. q)
    of_text (c ∷ s) = of_body (decode (c ∷ s))

    of_status :
        (b : Bool) (status : ℕ) (s : Str)
        → Run Q (if b then fail (http status) else Client.body_of decode empty s) Q (λ _. Q)
    of_status true status s = Run-fail _ (λ h q. q)
    of_status false status s = of_text s

    of_reply : (r : Reply) → Run Q (accepted decode empty r) Q (λ _. Q)
    of_reply unreachable = Run-fail _ (λ h q. q)
    of_reply (replied status s) = of_status (leb 400 status) status s

pub command-Run :
    {P E : Host → Type 0} {Q : Unit {0} → Host → Type 0} (e : Event)
    → ((h h' : Host) → P h → h'.files ≡ h.files → h'.events ≡ h.events → E h')
    → ((h h' : Host) → P h → h'.files ≡ h.files → h'.events ≡ e ∷ h.events → Q tt h')
    → Run P (command e) E Q
unfolding command
command-Run {P} {E} {Q} e x y = record {
  at = λ h p. of_call (next_call h.calls) h (record h { calls = later_calls h.calls }) p refl refl;
}
  where
    of_call :
        (c : Call) (h h' : Host)
        → P h
        → h'.files ≡ h.files
        → h'.events ≡ h.events
        → Post E Q (command_with c e h')
    of_call works h h' p fs ev =
        y h (record h' { events = e ∷ h'.events }) p fs (ap (λ l. e ∷ l) ev)
    of_call fails h h' p fs ev = x h h' p fs ev
    of_call (leaves t) h h' p fs ev = x h h' p fs ev
