-- ===== src/Helper/Loop/Capture.antt =====
-- `captureAndSendLogs` of helper/cmd/helper/main.go. A tick is its time and the log's file then;
-- where the list ends, the context does.
use ats_proxy_manager.Prelude.{
  ℕ, ◌<◌, ◌≤◌, ◌⊎◌, Option, arith, subst, true, false, List, [], ◌∷◌, ◌≡◌, refl, ap, ltb,
  if◌then◌else◌, Bool-cases, inl, inr, Str, codes,
}
use ats_proxy_manager.Helper.Host.{
  Host, Event, sent, configured, Message, Act, give, either, ignore, ◌>>◌, command,
}
use ats_proxy_manager.Helper.Client.{Json, Settings}
use ats_proxy_manager.Helper.Client
use ats_proxy_manager.Helper.Manager.{enable_debug, disable_debug, debug_enabled, debug_tags}
use ats_proxy_manager.Helper.Manager.Logs.{
  capture_logs, relevant_lines, read_last_lines, is_relevant, last_of, lines_in,
  read_last_lines-scan,
}
use ats_proxy_manager.Helper.Manager.Mentions.{Picked, is_relevant-Mentions, not_relevant-Mentions}
use ats_proxy_manager.Helper.Logic.{Run, Run-either, Run-bind, Run-give, Run-both}
use ats_proxy_manager.Helper.Requests.{request-Run}

module _ (json : Json) (cfg : Settings) where
  abbrev send_if_any : List Str → Act (Unit {0})
  send_if_any [] = give tt
  send_if_any (l ∷ ls) = ignore (Client.send_logs json cfg (l ∷ ls))

  -- The loop: it ends at the first tick after `until`.
  unfoldable pub capture_ticks : ℕ → List (ℕ × Option Str) → Act (Unit {0})
  capture_ticks until [] = give tt
  capture_ticks until ((now, file) ∷ ticks) =
      let rest = capture_ticks until ticks in
      if ltb until now then give tt else (do send_if_any (capture_logs file); rest)

  -- Debug is disabled again when the loop ends, but not where it could not be enabled.
  unfoldable pub capture_and_send_logs : ℕ → List (ℕ × Option Str) → Act (Unit {0})
  unfolding capture_ticks
  capture_and_send_logs until ticks =
      either enable_debug (λ _. do capture_ticks until ticks; ignore disable_debug) (λ e. give tt)

  -- A report that has lines is sent.
  abbrev pub with_message : List Str → List Event → List Event
  with_message [] events = events
  with_message (l ∷ ls) events = sent (Message.logs cfg.hostname (l ∷ ls)) ∷ events

  -- The messages for such reports, the latest first.
  unfoldable pub with_messages : List (List Str) → List Event → List Event
  with_messages [] events = events
  with_messages (report ∷ more) events = with_messages more (with_message report events)

  -- What is captured at the ticks up to the first one that comes too late.
  unfoldable captured : ℕ → List (ℕ × Option Str) → List (List Str)
  captured until [] = []
  captured until ((now, file) ∷ ticks) =
      let rest = captured until ticks in if ltb until now then [] else capture_logs file ∷ rest

  -- All commands work, and these are the events.
  abbrev Calm : List Event → Host → Type 0
  Calm events h = (h.calls ≡ []) × (h.events ≡ events)

  command-Calm :
      {E : Host → Type 0} (e : Event) (events : List Event)
      → Run (Calm events) (command e) E (λ _. Calm (e ∷ events))
  unfolding command
  command-Calm e events = record { at = λ h p. rw (p.0) (refl, ap (λ l. e ∷ l) p.1) }

  send-Calm :
      {E : Host → Type 0} (lines : List Str) (events : List Event)
      → Run (Calm events) (send_if_any lines) E (λ _. Calm (with_message lines events))
  unfolding Client.send_logs
  send-Calm [] events = Run-give tt (λ h p. p)
  send-Calm (l ∷ ls) events =
      request-Run _ _ _ (λ h p. (p.0, ap (λ m. sent (Message.logs cfg.hostname (l ∷ ls)) ∷ m) p.1))

  ticks-Calm :
      {E : Host → Type 0} (until : ℕ) (ticks : List (ℕ × Option Str)) (events : List Event)
      → Run
          (Calm events)
          (capture_ticks until ticks)
          E
          (λ _. Calm (with_messages (captured until ticks) events))
  unfolding capture_ticks captured with_messages
  ticks-Calm until [] events = Run-give tt (λ h p. p)
  ticks-Calm until ((now, file) ∷ ticks) events = elim (Bool-cases (ltb until now)) [
    | inl late ↦ rw late (Run-give tt (λ h p. p))
    | inr early ↦ rw early (
        Run-bind _ _ (send-Calm (capture_logs file) events)
          λ _. ticks-Calm until ticks (with_message (capture_logs file) events))
  ]

  capture-Calm :
      {E : Host → Type 0} (until : ℕ) (ticks : List (ℕ × Option Str)) (events : List Event)
      → Run (Calm events) (capture_and_send_logs until ticks) E (λ _. Calm (
          configured debug_enabled (codes "0")
          ∷ with_messages (captured until ticks) (
              configured debug_tags (codes "parent_select")
              ∷ configured debug_enabled (codes "1")
              ∷ events)))
  unfolding capture_and_send_logs enable_debug disable_debug ignore
  capture-Calm until ticks events =
      Run-either {E = λ _. false ≡ true} _ _ _
        (Run-bind _ _ (command-Calm _ events) λ _. command-Calm _ _)
        (λ _. Run-bind _ _ (ticks-Calm until ticks _) λ _.
          Run-either {E = Off} {Q = λ _. Off} _ _ _ (command-Calm _ _) (λ _. Run-give tt (λ h p. p))
            (λ x. Run-give tt (λ h p. p)))
        (λ x. Run-give tt (λ h p. cc p))
    where
      Off : Host → Type 0
      Off = Calm (
          configured debug_enabled (codes "0")
          ∷ with_messages (captured until ticks) (
              configured debug_tags (codes "parent_select")
              ∷ configured debug_enabled (codes "1")
              ∷ events))

-- The code's filter picks the lines that mention one of the two texts.
relevant_lines-Picked : (ls : List Str) → Picked ls (relevant_lines ls)
unfolding relevant_lines
relevant_lines-Picked [] = refl
relevant_lines-Picked (l ∷ ls) = elim (Bool-cases (is_relevant l)) [
  | inl yes_case ↦ inl (
    is_relevant-Mentions l yes_case,
    (relevant_lines ls, rw yes_case refl, relevant_lines-Picked ls),
  )
  | inr no_case ↦ inr (
    not_relevant-Mentions l no_case,
    subst (Picked ls) (rw no_case refl) (relevant_lines-Picked ls),
  )
]

capture_logs-Picked : (file : Option Str) → Picked (last_of 100 (lines_in file)) (capture_logs file)
unfolding capture_logs
capture_logs-Picked file =
    subst (λ ls. Picked ls (relevant_lines (read_last_lines 100 file)))
      (read_last_lines-scan 100 file) (relevant_lines-Picked (read_last_lines 100 file))

-- One report for each tick up to the first one after the end: of the last 100 lines that the scanner
-- yields of the file, those that mention one of the two texts.
abbrev pub Reports : ℕ → List (ℕ × Option Str) → List (List Str) → Type 0
Reports until [] reports = reports ≡ []
Reports until ((now, file) ∷ ticks) reports =
    ((until < now) × (reports ≡ []))
    ⊎ ((now ≤ until)
        × ((report : List Str) × (rest : List (List Str)) × (reports ≡ report ∷ rest)
            × Picked (last_of 100 (lines_in file)) report
            × Reports until ticks rest))

module _ (json : Json) (cfg : Settings) (until : ℕ) where
  captured-Reports :
      (ticks : List (ℕ × Option Str)) → Reports until ticks (captured json cfg until ticks)
  unfolding captured
  captured-Reports [] = refl
  captured-Reports ((now, file) ∷ ticks) = elim (Bool-cases (ltb until now)) [
    | inl late ↦ inl (ground (arith, late), rw late refl)
    | inr early ↦ inr (
      ground (arith, early),
      (
        capture_logs file,
        captured json cfg until ticks,
        rw early refl,
        capture_logs-Picked file,
        captured-Reports ticks,
      ),
    )
  ]

-- Where every command works, a capture enables debug, sends a report at each tick up to the first one
-- after its end, and disables debug, whatever the backend answers. A report has those of the last 100
-- lines that the scanner yields of the log then, in their order, in which "Result for" or "parent"
-- occurs; one without lines is not sent.
pub capture_and_send_logs-events :
    (json : Json) (cfg : Settings) (until : ℕ) (ticks : List (ℕ × Option Str)) (h : Host)
    → h.calls ≡ []
    → (reports : List (List Str)) × Reports until ticks reports
      × ((capture_and_send_logs json cfg until ticks h).1.events
          ≡ configured debug_enabled (codes "0")
            ∷ with_messages json cfg reports (
                configured debug_tags (codes "parent_select")
                ∷ configured debug_enabled (codes "1")
                ∷ h.events))
capture_and_send_logs-events json cfg until ticks h calm = (
  captured json cfg until ticks,
  captured-Reports json cfg until ticks,
  (Run-both (capture_and_send_logs json cfg until ticks) h
      (capture-Calm json cfg until ticks h.events) (calm, refl)).1,
)
