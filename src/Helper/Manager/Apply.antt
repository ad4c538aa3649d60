-- ===== src/Helper/Manager/Apply.antt =====
-- The files that `ApplyConfig` and `SaveHash` of helper/internal/ats/manager.go leave.
use ats_proxy_manager.Prelude.{
  Option, some, List, [], ◌∷◌, ◌≡◌, ◌⊎◌, inl, inr, refl, ◌∙◌, Str, str_eq,
}
use ats_proxy_manager.Helper.Host.{
  Host, Event, Call, works, fails, leaves, file, write_file_once, write_with, ignore, next_call,
  later_calls, put,
}
use ats_proxy_manager.Helper.Client.{ConfigFiles}
use ats_proxy_manager.Helper.Manager.{
  parent_file, sni_file, ip_allow_file, hash_file, write_if_set, apply_config, save_hash,
}
use ats_proxy_manager.Helper.Logic.{
  Run, Run-bind, Run-give, Run-ignore, Run-post, write_file-At, Post, file-put_other,
}

-- What a file holds after a text was written, an empty one not.
abbrev pub set_text : Str → Option Str → Option Str
set_text [] old = old
set_text (c ∷ s) old = some (c ∷ s)

-- The three files, the file of the hash and the events.
abbrev pub At : Option Str → Option Str → Option Str → Option Str → List Event → Host → Type 0
At parent sni ip hash events h =
    (file parent_file h.files ≡ parent)
    × ((file sni_file h.files ≡ sni)
        × ((file ip_allow_file h.files ≡ ip)
            × ((file hash_file h.files ≡ hash) × (h.events ≡ events))))

-- The old text or the new one, as a whole.
abbrev pub OldOrNew : Str → Option Str → Option Str → Type 0
OldOrNew new old now = (now ≡ old) ⊎ (now ≡ set_text new old)

module _ (hash : Option Str) (events : List Event) where
  parent-Run :
      (s : Str) (p n i : Option Str)
      → Run
          (At p n i hash events)
          (write_if_set parent_file s)
          (At p n i hash events)
          (λ _. At (set_text s p) n i hash events)
  unfolding write_if_set str_eq
  parent-Run [] p n i = Run-give tt (λ h a. a)
  parent-Run (c ∷ s) p n i =
      write_file-At parent_file (c ∷ s) refl
        (λ h h' a same others ev. (
          same ∙ a.0,
          (
            others sni_file refl refl ∙ a.1.0,
            (
              others ip_allow_file refl refl ∙ a.1.1.0,
              (others hash_file refl refl ∙ a.1.1.1.0, ev ∙ a.1.1.1.1),
            ),
          ),
        ))
        (λ h h' a new others ev. (
          new,
          (
            others sni_file refl refl ∙ a.1.0,
            (
              others ip_allow_file refl refl ∙ a.1.1.0,
              (others hash_file refl refl ∙ a.1.1.1.0, ev ∙ a.1.1.1.1),
            ),
          ),
        ))

  sni-Run :
      (s : Str) (p n i : Option Str)
      → Run
          (At p n i hash events)
          (write_if_set sni_file s)
          (At p n i hash events)
          (λ _. At p (set_text s n) i hash events)
  unfolding write_if_set str_eq
  sni-Run [] p n i = Run-give tt (λ h a. a)
  sni-Run (c ∷ s) p n i =
      write_file-At sni_file (c ∷ s) refl
        (λ h h' a same others ev. (
          others parent_file refl refl ∙ a.0,
          (
            same ∙ a.1.0,
            (
              others ip_allow_file refl refl ∙ a.1.1.0,
              (others hash_file refl refl ∙ a.1.1.1.0, ev ∙ a.1.1.1.1),
            ),
          ),
        ))
        (λ h h' a new others ev. (
          others parent_file refl refl ∙ a.0,
          (
            new,
            (
              others ip_allow_file refl refl ∙ a.1.1.0,
              (others hash_file refl refl ∙ a.1.1.1.0, ev ∙ a.1.1.1.1),
            ),
          ),
        ))

  ip_allow-Run :
      (s : Str) (p n i : Option Str)
      → Run
          (At p n i hash events)
          (write_if_set ip_allow_file s)
          (At p n i hash events)
          (λ _. At p n (set_text s i) hash events)
  unfolding write_if_set str_eq
  ip_allow-Run [] p n i = Run-give tt (λ h a. a)
  ip_allow-Run (c ∷ s) p n i =
      write_file-At ip_allow_file (c ∷ s) refl
        (λ h h' a same others ev. (
          others parent_file refl refl ∙ a.0,
          (
            others sni_file refl refl ∙ a.1.0,
            (same ∙ a.1.1.0, (others hash_file refl refl ∙ a.1.1.1.0, ev ∙ a.1.1.1.1)),
          ),
        ))
        (λ h h' a new others ev. (
          others parent_file refl refl ∙ a.0,
          (
            others sni_file refl refl ∙ a.1.0,
            (new, (others hash_file refl refl ∙ a.1.1.1.0, ev ∙ a.1.1.1.1)),
          ),
        ))

abbrev pub Partly :
    ConfigFiles → Option Str → Option Str → Option Str → Option Str → List Event → Host → Type 0
Partly cfg p n i hash events h =
    OldOrNew cfg.parent_config p (file parent_file h.files)
    × (OldOrNew cfg.sni_yaml n (file sni_file h.files)
        × (OldOrNew cfg.ip_allow_yaml i (file ip_allow_file h.files)
            × ((file hash_file h.files ≡ hash) × (h.events ≡ events))))

abbrev pub All : ConfigFiles → Option Str → Option Str → Option Str → Host → Type 0
All cfg p n i h =
    (file parent_file h.files ≡ set_text cfg.parent_config p)
    × ((file sni_file h.files ≡ set_text cfg.sni_yaml n)
        × (file ip_allow_file h.files ≡ set_text cfg.ip_allow_yaml i))

module _ (hash : Option Str) (events : List Event) (cfg : ConfigFiles) (p n i : Option Str) where
  pub apply-Run :
      Run (At p n i hash events) (apply_config (some cfg)) (Partly cfg p n i hash events) (λ _.
        At
          (set_text cfg.parent_config p)
          (set_text cfg.sni_yaml n)
          (set_text cfg.ip_allow_yaml i)
          hash
          events)
  unfolding apply_config
  apply-Run =
      Run-bind _ _
        (Run-post _ (λ h a. (inl a.0, (inl a.1.0, (inl a.1.1.0, a.1.1.1)))) (λ _ h a. a)
          (parent-Run hash events cfg.parent_config p n i))
        λ _.
          Run-bind _ _
            (Run-post _ (λ h a. (inr a.0, (inl a.1.0, (inl a.1.1.0, a.1.1.1)))) (λ _ h a. a)
              (sni-Run hash events cfg.sni_yaml (set_text cfg.parent_config p) n i))
            λ _.
              Run-post _ (λ h a. (inr a.0, (inr a.1.0, (inl a.1.1.0, a.1.1.1)))) (λ _ h a. a)
                (ip_allow-Run hash events cfg.ip_allow_yaml (set_text cfg.parent_config p)
                  (set_text cfg.sni_yaml n) i)

-- The files of the configuration are not touched by a write to the hash.
pub save_hash-Run :
    {E : Host → Type 0} (cfg : ConfigFiles) (p n i : Option Str) (events : List Event) (hash : Str)
    → Run
        (λ h. All cfg p n i h × (h.events ≡ events))
        (ignore (save_hash hash))
        E
        (λ _ h. All cfg p n i h × (h.events ≡ events))
unfolding save_hash write_file_once str_eq
save_hash-Run {E} cfg p n i events hash = Run-ignore _ (record {
  at = λ h a. of_call (next_call h.calls) (record h { calls = later_calls h.calls }) a;
})
  where
    Kept : Host → Type 0
    Kept h = All cfg p n i h × (h.events ≡ events)

    put_Kept : (s : Str) (h : Host) → Kept h → Kept (record h { files = put hash_file s h.files })
    put_Kept s h a = (
      (
        file-put_other hash_file parent_file s h.files refl ∙ a.0.0,
        (
          file-put_other hash_file sni_file s h.files refl ∙ a.0.1.0,
          file-put_other hash_file ip_allow_file s h.files refl ∙ a.0.1.1,
        ),
      ),
      a.1,
    )

    of_call : (c : Call) (h : Host) → Kept h → Post Kept (λ _. Kept) (write_with c hash_file hash h)
    of_call works h a = put_Kept hash h a
    of_call fails h a = a
    of_call (leaves t) h a = put_Kept t h a
