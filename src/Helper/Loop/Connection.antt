-- ===== src/Helper/Loop/Connection.antt =====
-- When the helper counts as connected: `waitForRegister` and `helloLoop` of helper/cmd/helper/main.go,
-- by the answers that come.
use ats_proxy_manager.Prelude.{
  ℕ, zero, suc, Bool, true, false, Option, none, some, List, [], ◌∷◌, ◌≡◌, refl, ◌&&◌, ◌||◌, leb,
  if◌then◌else◌, Str,
}
use ats_proxy_manager.Helper.Host.{
  Host, sent, Message, Reply, unreachable, replied, http, other, Outcome, done, failed, give, fail,
  either, proceed, ◌>>=◌, exchange, set_proxy_id, get_proxy_id, set_connected, is_connected,
  next_reply, later_replies,
}
use ats_proxy_manager.Helper.Client.{
  Json, Settings, RegisterResponse, do_request, accepted, body_of, decoded, no_registration,
  no_body,
}
use ats_proxy_manager.Helper.Client
use ats_proxy_manager.Helper.Loop.{hello_tick, wait_for_register, reconnect_if, lose_if}

abbrev read_result : {A : Type 0} → Option A → Outcome A
read_result none = failed other
read_result (some a) = done a

abbrev body_result : {A : Type 0} → (Str → Option A) → A → Str → Outcome A
body_result decode empty [] = done empty
body_result decode empty (c ∷ s) = read_result (decode (c ∷ s))

-- What a request comes to, by its reply.
abbrev pub result_of : {A : Type 0} → (Str → Option A) → A → Reply → Outcome A
result_of decode empty unreachable = failed other
result_of decode empty (replied status body) =
    if leb 400 status then failed (http status) else body_result decode empty body

abbrev after_request : Message → Host → Host
after_request m h = record h { replies = later_replies h.replies; events = sent m ∷ h.events }

module _ {A : Type 0} (decode : Str → Option A) (empty : A) where
  accepted-result :
      (r : Reply) (h : Host) → accepted decode empty r h ≡ (result_of decode empty r, h)
  unfolding fail give
  accepted-result unreachable h = refl
  accepted-result (replied status body) h = of_status (leb 400 status) body
    where
      of_decoded : (o : Option A) → decoded o h ≡ (read_result o, h)
      of_decoded none = refl
      of_decoded (some a) = refl

      of_status :
          (b : Bool) (s : Str)
          → (if b then fail (http status) else body_of decode empty s) h
            ≡ (if b then failed (http status) else body_result decode empty s, h)
      of_status true s = refl
      of_status false [] = refl
      of_status false (c ∷ s) = of_decoded (decode (c ∷ s))

  do_request-result :
      (m : Message) (h : Host)
      → do_request decode empty m h
        ≡ (result_of decode empty (next_reply h.replies), after_request m h)
  unfolding do_request exchange ◌>>=◌ either
  do_request-result m h = accepted-result (next_reply h.replies) (after_request m h)

abbrev is_done : {A : Type 0} → Outcome A → Bool
is_done (done a) = true
is_done (failed e) = false

-- A reply to `Hello`.
abbrev pub is_healthy : Reply → Bool
is_healthy r = is_done (result_of no_body tt r)

abbrev registration : Outcome RegisterResponse → Host → Outcome (Unit {0}) × Host
registration (done resp) h = (done tt, record h { proxy_id = resp.proxy_id })
registration (failed e) h = (failed e, h)

module _ (json : Json) (cfg : Settings) (trim : Str → Str) where
  -- A reply to `Register` that is no error.
  abbrev pub is_registered : Reply → Bool
  is_registered r = is_done (result_of json.register_response no_registration r)

  -- Whether one of the replies registers: the next one, or one of so many after it.
  unfoldable pub some_registered : ℕ → List Reply → Bool
  some_registered zero rs = is_registered (next_reply rs)
  some_registered (suc more) rs =
      is_registered (next_reply rs) || some_registered more (later_replies rs)

  abbrev register_message : Host → Message
  register_message h = Message.register cfg.hostname cfg.config_id h.proxy_id

  register-registration :
      (h : Host)
      → Client.register json cfg h
        ≡ registration
            (result_of json.register_response no_registration (next_reply h.replies))
            (after_request (register_message h) h)
  unfolding Client.register get_proxy_id set_proxy_id ◌>>=◌ either fail
  register-registration h =
      rw (do_request-result json.register_response no_registration (register_message h) h) (
        of_result (result_of json.register_response no_registration (next_reply h.replies))
          (after_request (register_message h) h))
    where
      of_result :
          (o : Outcome RegisterResponse) (h' : Host)
          → proceed (o, h') (λ resp. set_proxy_id resp.proxy_id) fail ≡ registration o h'
      of_result (done resp) h' = refl
      of_result (failed e) h' = refl

  wait-some_registered :
      (ticks : ℕ) (h : Host)
      → (wait_for_register json cfg trim ticks h).0 ≡ done (some_registered ticks h.replies)
  unfolding wait_for_register either give some_registered
  wait-some_registered zero h =
      rw (register-registration h)
        (of_outcome (result_of json.register_response no_registration (next_reply h.replies)) _)
    where
      of_outcome :
          (o : Outcome RegisterResponse) (h' : Host)
          → (proceed (registration o h') (λ _. give true) (λ e. give false)).0 ≡ done (is_done o)
      of_outcome (done resp) h' = refl
      of_outcome (failed e) h' = refl
  wait-some_registered (suc ticks) h = rw (register-registration h) (
      of_outcome (wait-some_registered ticks)
        (result_of json.register_response no_registration (next_reply h.replies)))
    where
      of_outcome :
          ((h' : Host)
            → (wait_for_register json cfg trim ticks h').0
              ≡ done (some_registered ticks h'.replies))
          → (o : Outcome RegisterResponse)
          → (proceed
              (registration o (after_request (register_message h) h))
              (λ _. give true)
              (λ e. wait_for_register json cfg trim ticks)).0
            ≡ done (is_done o || some_registered ticks (later_replies h.replies))
      of_outcome rest (done resp) = refl
      of_outcome rest (failed e) = rest (after_request (register_message h) h)

  reconnected :
      (b : Bool) (h : Host)
      → h.connected ≡ b
      → (reconnect_if json cfg trim b h).1.connected ≡ (b || is_registered (next_reply h.replies))
  unfolding either set_connected give
  reconnected true h e = e
  reconnected false h e = rw (register-registration h) (
      of_outcome (result_of json.register_response no_registration (next_reply h.replies))
        (after_request (register_message h) h) e)
    where
      of_outcome :
          (o : Outcome RegisterResponse) (h' : Host)
          → h'.connected ≡ false
          → (proceed (registration o h') (λ _. set_connected true) (λ e. give tt)).1.connected
            ≡ is_done o
      of_outcome (done resp) h' e = refl
      of_outcome (failed x) h' e = e

  lost : (b : Bool) (h : Host) → h.connected ≡ b → (lose_if json cfg trim b h).1.connected ≡ false
  unfolding set_connected give
  lost true h e = refl
  lost false h e = e

  hello-connected :
      (h : Host)
      → (hello_tick json cfg trim h).1.connected ≡ (
          is_healthy (next_reply h.replies)
          && (h.connected || is_registered (next_reply (later_replies h.replies))))
  unfolding hello_tick Client.hello either is_connected ◌>>=◌
  hello-connected h =
      rw (do_request-result no_body tt Message.hello h) (
        of_hello (result_of no_body tt (next_reply h.replies)) (after_request Message.hello h) refl)
    where
      of_hello :
          (o : Outcome (Unit {0})) (h' : Host)
          → h'.connected ≡ h.connected
          → (proceed
              (o, h')
              (λ _. is_connected >>= λ c. reconnect_if json cfg trim c)
              (λ e. is_connected >>= λ c. lose_if json cfg trim c)).1.connected
            ≡ (is_done o && (h'.connected || is_registered (next_reply h'.replies)))
      of_hello (done u) h' e = reconnected h'.connected h' refl
      of_hello (failed x) h' e = lost h'.connected h' refl

-- `waitForRegister` says yes exactly if one of its attempts, the first at once and one at each tick, is
-- answered by a registration; and after a turn of `helloLoop` the helper counts as connected exactly
-- if the backend answered the hello without an error, and either the helper was connected before or
-- the registration that then follows was answered without an error.
pub connection_by_replies :
    (json : Json) (cfg : Settings) (trim : Str → Str) (ticks : ℕ) (h : Host)
    → ((wait_for_register json cfg trim ticks h).0
        ≡ done (some_registered json cfg trim ticks h.replies))
      × ((hello_tick json cfg trim h).1.connected ≡ (
          is_healthy (next_reply h.replies)
          && (h.connected || is_registered json cfg trim (next_reply (later_replies h.replies)))))
connection_by_replies json cfg trim ticks h =
    (wait-some_registered json cfg trim ticks h, hello-connected json cfg trim h)
