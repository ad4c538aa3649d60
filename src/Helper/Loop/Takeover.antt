-- ===== src/Helper/Loop/Takeover.antt =====
-- What a turn of `doSync` leaves of helper/cmd/helper/main.go when the configuration has changed.
use ats_proxy_manager.Prelude.{
  Option, none, some, List, [], ◌∷◌, ◌≡◌, ◌⊎◌, inl, inr, refl, sym, ap, subst, ◌∙◌, Str, codes,
}
use ats_proxy_manager.Helper.Host.{Host, Event, sent, reloaded, Message, file, ignore, ◌>>=◌}
use ats_proxy_manager.Helper.Client.{
  Json, Settings, ConfigFiles, ConfigResponse, do_request, accepted,
}
use ats_proxy_manager.Helper.Client
use ats_proxy_manager.Helper.Manager.{
  parent_file, sni_file, ip_allow_file, hash_file, apply_config, reload, save_hash,
}
use ats_proxy_manager.Helper.Loop.{take_over, send_stats}
use ats_proxy_manager.Helper.Logic.{
  Run, Run-either, Run-bind, Run-fail, Run-post, Run-exists, Run-both,
}
use ats_proxy_manager.Helper.Requests.{request-Run, command-Run}
use ats_proxy_manager.Helper.Manager.Apply.{set_text, At, Partly, All, apply-Run, save_hash-Run}

abbrev pub texts : Option ConfigFiles → ConfigFiles
texts none = record { parent_config = []; sni_yaml = []; ip_allow_yaml = [] }
texts (some cfg) = cfg

module _ (json : Json) (settings : Settings) (trim : Str → Str) (resp : ConfigResponse)
    (before : Host) where
  -- All files of the answer are in place, Traffic Server has then been reloaded, and then the request
  -- that says so was sent, whether it has reached the backend or not.
  abbrev pub TakenOver : Host → Type 0
  TakenOver h =
      (cfg : ConfigFiles) × ((resp.config ≡ some cfg)
        × (All cfg (file parent_file before.files) (file sni_file before.files)
              (file ip_allow_file before.files) h
            × (h.events
                ≡ sent (Message.stats settings.hostname)
                  ∷ sent (Message.ack settings.hostname resp.hash (codes "ok"))
                  ∷ reloaded
                  ∷ before.events)))

  -- Each file is the old one or the answer's, the hash is the old one, and a request that reports an
  -- error was sent, whether it has reached the backend or not.
  abbrev pub NotTaken : Host → Type 0
  NotTaken h =
      Partly (texts resp.config) (file parent_file before.files) (file sni_file before.files)
        (file ip_allow_file before.files) (file hash_file before.files)
        (sent (Message.ack settings.hostname resp.hash (codes "error")) ∷ before.events) h

  abbrev Ended : Host → Type 0
  Ended h = TakenOver h ⊎ NotTaken h

  abbrev PartlyNow : Option ConfigFiles → Host → Type 0
  PartlyNow o h =
      Partly (texts o) (file parent_file before.files) (file sni_file before.files)
        (file ip_allow_file before.files) (file hash_file before.files) before.events h

  abbrev AllNow : Option ConfigFiles → Host → Type 0
  AllNow o h =
      (cfg : ConfigFiles) × ((o ≡ some cfg)
        × At (set_text cfg.parent_config (file parent_file before.files))
            (set_text cfg.sni_yaml (file sni_file before.files))
            (set_text cfg.ip_allow_yaml (file ip_allow_file before.files))
            (file hash_file before.files) before.events h)

  abbrev Start : Host → Type 0
  Start h =
      At (file parent_file before.files) (file sni_file before.files)
        (file ip_allow_file before.files) (file hash_file before.files) before.events h

  applied-Run : (o : Option ConfigFiles) → Run Start (apply_config o) (PartlyNow o) (λ _. AllNow o)
  unfolding apply_config
  applied-Run none = Run-fail _ (λ h a. (inl a.0, (inl a.1.0, (inl a.1.1.0, a.1.1.1))))
  applied-Run (some cfg) =
      Run-post _ (λ h e. e) (λ _ h a. (cfg, (refl, a)))
        (apply-Run (file hash_file before.files) before.events cfg (file parent_file before.files)
          (file sni_file before.files) (file ip_allow_file before.files))

  report-Run :
      {E : Host → Type 0}
      → Run
          (PartlyNow resp.config)
          (ignore (Client.ack json settings resp.hash (codes "error")))
          E
          (λ _. Ended)
  unfolding Client.ack
  report-Run = request-Run _ _ _ (λ h p. inr (
    p.0,
    (
      p.1.0,
      (
        p.1.1.0,
        (
          p.1.1.1.0,
          ap (λ l. sent (Message.ack settings.hostname resp.hash (codes "error")) ∷ l) p.1.1.1.1,
        ),
      ),
    ),
  ))

  -- The files of an answer that has them are in place, and these are the events.
  abbrev Placed : ConfigFiles → List Event → Host → Type 0
  Placed cfg events h =
      All cfg (file parent_file before.files) (file sni_file before.files)
        (file ip_allow_file before.files) h
      × (h.events ≡ events)

  told-Run :
      {E : Host → Type 0} (cfg : ConfigFiles)
      → resp.config ≡ some cfg
      → Run
          (Placed cfg (reloaded ∷ before.events))
          (ignore (save_hash resp.hash) >>= λ _.
            ignore (Client.ack json settings resp.hash (codes "ok")) >>= λ _.
            send_stats json settings trim)
          E
          (λ _. Ended)
  unfolding Client.ack Client.send_stats send_stats
  told-Run cfg is = Run-bind _ _ (save_hash-Run cfg _ _ _ _ resp.hash) λ _.
      Run-bind _ _
        (request-Run
          {Q = Placed cfg (
            sent (Message.ack settings.hostname resp.hash (codes "ok")) ∷ reloaded ∷ before.events)}
          _ _ _
          (λ h p.
            (p.0, ap (λ l. sent (Message.ack settings.hostname resp.hash (codes "ok")) ∷ l) p.1)))
        λ _.
          request-Run _ _ _ (λ h p.
            inl (cfg, (is, (p.0, ap (λ l. sent (Message.stats settings.hostname) ∷ l) p.1))))

  take_over-Run : Run Start (take_over json settings trim resp) Ended (λ _. Ended)
  unfolding take_over reload
  take_over-Run =
      Run-either _ _ _ (applied-Run resp.config)
        (λ _.
          Run-either _ _ _
            (command-Run {E = PartlyNow resp.config}
              {Q = λ _ h.
                (cfg : ConfigFiles) × ((resp.config ≡ some cfg)
                  × Placed cfg (reloaded ∷ before.events) h)}
              reloaded
              (λ h h' (cfg, (is, a)) fs ev. of_failed h' cfg is (moved_At h h' cfg a fs ev))
              (λ h h' (cfg, (is, a)) fs ev. (
                cfg,
                (
                  is,
                  (
                    (
                      ap (file parent_file) fs ∙ a.0,
                      (ap (file sni_file) fs ∙ a.1.0, ap (file ip_allow_file) fs ∙ a.1.1.0),
                    ),
                    ev ∙ ap (λ l. reloaded ∷ l) a.1.1.1.1,
                  ),
                ),
              )))
            (λ _. Run-exists _ λ cfg. Run-exists _ λ is. told-Run cfg is) (λ x. report-Run))
        (λ x. report-Run)
    where
      New : ConfigFiles → Host → Type 0
      New cfg h =
          At (set_text cfg.parent_config (file parent_file before.files))
            (set_text cfg.sni_yaml (file sni_file before.files))
            (set_text cfg.ip_allow_yaml (file ip_allow_file before.files))
            (file hash_file before.files) before.events h

      moved_At :
          (h h' : Host) (cfg : ConfigFiles)
          → New cfg h
          → h'.files ≡ h.files
          → h'.events ≡ h.events
          → New cfg h'
      moved_At h h' cfg a fs ev = (
        ap (file parent_file) fs ∙ a.0,
        (
          ap (file sni_file) fs ∙ a.1.0,
          (
            ap (file ip_allow_file) fs ∙ a.1.1.0,
            (ap (file hash_file) fs ∙ a.1.1.1.0, ev ∙ a.1.1.1.1),
          ),
        ),
      )

      of_failed :
          (h : Host) (cfg : ConfigFiles)
          → resp.config ≡ some cfg
          → New cfg h
          → PartlyNow resp.config h
      of_failed h cfg is a =
          subst (λ o. PartlyNow o h) (sym is) (inr a.0, (inr a.1.0, (inr a.1.1.0, a.1.1.1)))

-- Whatever fails while a changed configuration is taken over, in the file system, in `traffic_ctl` or
-- on the way to the backend: either all files of the answer are in place (an empty text leaves its
-- file), Traffic Server was reloaded after that, and the helper then sent the backend one "ok" and the
-- counters; or the helper sent one "error", the stored hash is the old one, and each file is as a
-- whole the old one or the answer's. A request counts as sent once it is attempted: neither case says
-- that it has reached the backend.
pub take_over-Ended :
    (json : Json) (settings : Settings) (trim : Str → Str) (resp : ConfigResponse) (h : Host)
    → TakenOver json settings trim resp h (take_over json settings trim resp h).1
      ⊎ NotTaken json settings trim resp h (take_over json settings trim resp h).1
take_over-Ended json settings trim resp h =
    Run-both (take_over json settings trim resp) h (take_over-Run json settings trim resp h)
      (refl, (refl, (refl, (refl, refl))))
