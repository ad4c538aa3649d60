-- ===== src/Helper/Host.antt =====
-- The machine of the helper: its files, the answers that its calls get, and what it has done. An action
-- is a result or a failure, with the next state; nothing is undone after a failure.
use ats_proxy_manager.Prelude.{
  ℕ, Bool, Option, none, some, List, [], ◌∷◌, if◌then◌else◌, Str, str_eq,
}

-- What the helper sends to the backend, with the fields of the request.
pub data Message : Type 0 where
  hello : Message
  register : Str → Str → Str → Message
  get_config : Str → Str → Message
  -- hostname, hash, status; the text of the error is left out
  ack : Str → Str → Str → Message
  stats : Str → Message
  logs : Str → List Str → Message

-- What `http.Client.Do` gives: no answer, or a status and a body.
pub data Reply : Type 0 where
  unreachable : Reply
  replied : ℕ → Str → Reply

-- A call of the operating system: it works; it fails; or it fails after it has left this in the file.
pub data Call : Type 0 where
  works fails : Call
  leaves : Str → Call

pub data Event : Type 0 where
  sent : Message → Event
  -- `traffic_ctl config reload`
  reloaded : Event
  -- `traffic_ctl config set`, a name and a value
  configured : Str → Str → Event
  -- `go captureAndSendLogs`, until that time
  capture_started : ℕ → Event

-- `files` are those of the configuration directory, by name. `replies` and `calls` are the schedule of
-- what is still to come; where it ends, the backend is out of reach and the calls work.
pub record Host : Type 0 where
  pub files : List (Str × Str)
  pub calls : List Call
  pub replies : List Reply
  -- what was done, the latest first
  pub events : List Event
  pub connected : Bool
  pub proxy_id : Str

-- An `HTTPError` with its status, or another error.
pub data Failure : Type 0 where
  http : ℕ → Failure
  other : Failure

pub data Outcome (A : Type 0) : Type 0 where
  done : A → Outcome A
  failed : Failure → Outcome A

abbrev pub Act : Type 0 → Type 0
Act A = Host → Outcome A × Host

unfoldable pub give : {A : Type 0} → A → Act A
give a h = (done a, h)

unfoldable pub fail : {A : Type 0} → Failure → Act A
fail e h = (failed e, h)

abbrev pub proceed :
    {A B : Type 0} → Outcome A × Host → (A → Act B) → (Failure → Act B) → Outcome B × Host
proceed (done a, h) f g = f a h
proceed (failed e, h) f g = g e h

-- `if err := m; err != nil { g } ...`
unfoldable pub either : {A B : Type 0} → Act A → (A → Act B) → (Failure → Act B) → Act B
either m f g h = proceed (m h) f g

infixl 5 ◌>>=◌ ◌>>◌
unfoldable pub ◌>>=◌ : {A B : Type 0} → Act A → (A → Act B) → Act B
unfolding either
m >>= f = either m f fail

abbrev pub ◌>>◌ : {A B : Type 0} → Act A → Act B → Act B
m >> k = m >>= λ _. k

-- An error that the code drops or only logs.
unfoldable pub ignore : {A : Type 0} → Act A → Act (Unit {0})
unfolding either
ignore m = either m (λ _. give tt) (λ _. give tt)

abbrev pub next_call : List Call → Call
next_call [] = works
next_call (c ∷ cs) = c

abbrev pub later_calls : List Call → List Call
later_calls [] = []
later_calls (c ∷ cs) = cs

abbrev pub next_reply : List Reply → Reply
next_reply [] = unreachable
next_reply (r ∷ rs) = r

abbrev pub later_replies : List Reply → List Reply
later_replies [] = []
later_replies (r ∷ rs) = rs

-- The contents of a file.
unfoldable pub file : Str → List (Str × Str) → Option Str
file name [] = none
file name ((n, s) ∷ fs) = if str_eq n name then some s else file name fs

-- The list without a file.
unfoldable pub without : Str → List (Str × Str) → List (Str × Str)
without name [] = []
without name ((n, s) ∷ fs) =
    let rest = without name fs in if str_eq n name then rest else (n, s) ∷ rest

abbrev pub put : Str → Str → List (Str × Str) → List (Str × Str)
put name s fs = (name, s) ∷ without name fs

abbrev pub write_with : Call → Str → Str → Act (Unit {0})
write_with works name s h = (done tt, record h { files = put name s h.files })
write_with fails name s h = (failed other, h)
write_with (leaves t) name s h = (failed other, record h { files = put name t h.files })

-- `os.WriteFile`.
unfoldable pub write_file_once : Str → Str → Act (Unit {0})
write_file_once name s h =
    write_with (next_call h.calls) name s (record h { calls = later_calls h.calls })

abbrev pub moved : Str → Option Str → Str → List (Str × Str) → List (Str × Str)
moved source none target fs = fs
moved source (some s) target fs = put target s (without source fs)

abbrev pub rename_with : Call → Str → Str → Act (Unit {0})
rename_with works source target h =
    (done tt, record h { files = moved source (file source h.files) target h.files })
rename_with _ source target h = (failed other, h)

-- `os.Rename` of a file that is there.
unfoldable pub rename : Str → Str → Act (Unit {0})
unfolding file
rename source target h =
    rename_with (next_call h.calls) source target (record h { calls = later_calls h.calls })

abbrev pub read_with : Call → Option Str → Act Str
read_with works (some s) h = (done s, h)
read_with _ _ h = (failed other, h)

-- `os.ReadFile`.
unfoldable pub read_file : Str → Act Str
unfolding file
read_file name h =
    read_with (next_call h.calls) (file name h.files) (record h { calls = later_calls h.calls })

abbrev pub command_with : Call → Event → Act (Unit {0})
command_with works e h = (done tt, record h { events = e ∷ h.events })
command_with _ e h = (failed other, h)

-- A command that is run, and leaves an event if it succeeds.
unfoldable pub command : Event → Act (Unit {0})
command e h = command_with (next_call h.calls) e (record h { calls = later_calls h.calls })

unfoldable pub note : Event → Act (Unit {0})
note e h = (done tt, record h { events = e ∷ h.events })

-- `httpClient.Do`: the message is sent, and the next reply is the answer.
unfoldable pub exchange : Message → Act Reply
exchange m h = (
  done (next_reply h.replies),
  record h { replies = later_replies h.replies; events = sent m ∷ h.events },
)

unfoldable pub set_connected : Bool → Act (Unit {0})
set_connected b h = (done tt, record h { connected = b })

unfoldable pub set_proxy_id : Str → Act (Unit {0})
set_proxy_id id h = (done tt, record h { proxy_id = id })

-- `connected.Load()`.
unfoldable pub is_connected : Act Bool
is_connected h = (done h.connected, h)

unfoldable pub get_proxy_id : Act Str
get_proxy_id h = (done h.proxy_id, h)
