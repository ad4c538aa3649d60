-- ===== src/Helper/Logic.antt =====
-- What holds after an action of the helper, whether it returns or fails, and the files after a write.
use ats_proxy_manager.Prelude.{
  false, some, List, [], ◌∷◌, ◌≡◌, refl, sym, ◌∙◌, subst, ap, Bool-cases, inl, inr, Str, str_eq,
  str_eq_sound, str_eq_refl, if◌then◌else◌,
}
use ats_proxy_manager.Helper.Host.{
  Host, Event, Call, works, fails, leaves, Failure, Outcome, done, failed, Act, give, fail, either,
  proceed, ignore, ◌>>=◌, file, without, put, moved, write_with, rename_with, write_file_once,
  rename, next_call, later_calls,
}
use ats_proxy_manager.Helper.Manager.{write_file, temporary}

abbrev pub Post : {A : Type 0} → (Host → Type 0) → (A → Host → Type 0) → Outcome A × Host → Type 0
Post E Q (done a, h) = Q a h
Post E Q (failed x, h) = E h

pub record Run {A : Type 0} (P : Host → Type 0) (m : Act A) (E : Host → Type 0)
    (Q : A → Host → Type 0) : Type 0 where
  pub at : (h : Host) → P h → Post E Q (m h)

Post-map :
    {A : Type 0} (E F : Host → Type 0) (Q R : A → Host → Type 0) (o : Outcome A × Host)
    → ((h : Host) → E h → F h)
    → ((a : A) (h : Host) → Q a h → R a h)
    → Post E Q o
    → Post F R o
Post-map E F Q R (done a, h) e q p = q a h p
Post-map E F Q R (failed x, h) e q p = e h p

pub Run-post :
    {A : Type 0} {P E F : Host → Type 0} {Q R : A → Host → Type 0} (m : Act A)
    → ((h : Host) → E h → F h)
    → ((a : A) (h : Host) → Q a h → R a h)
    → Run P m E Q
    → Run P m F R
Run-post {E} {F} {Q} {R} m e q s = record { at = λ h p. Post-map E F Q R (m h) e q (s.at h p) }

pub Run-exists :
    {A X : Type 0} {R : X → Host → Type 0} {E : Host → Type 0} {Q : A → Host → Type 0} (m : Act A)
    → ((x : X) → Run (R x) m E Q)
    → Run (λ h. (x : X) × R x h) m E Q
Run-exists m k = record { at = λ h p. (k p.0).at h p.1 }

pub Run-both :
    {A : Type 0} {P Q : Host → Type 0} (m : Act A) (h : Host) → Run P m Q (λ _. Q) → P h → Q (m h).1
Run-both {A} {P} {Q} m h s p = of_outcome (m h) (s.at h p)
  where
    of_outcome : (o : Outcome A × Host) → Post Q (λ _. Q) o → Q o.1
    of_outcome (done a, h') q = q
    of_outcome (failed x, h') q = q

module _ {A B : Type 0} {P E F : Host → Type 0} {Q : A → Host → Type 0}
    {R : B → Host → Type 0} where
  pub Run-either :
      (m : Act A) (f : A → Act B) (g : Failure → Act B)
      → Run P m E Q
      → ((a : A) → Run (Q a) (f a) F R)
      → ((x : Failure) → Run E (g x) F R)
      → Run P (either m f g) F R
  unfolding either
  Run-either m f g hm hf hg = record { at = λ h p. of_outcome (m h) (hm.at h p) }
    where
      of_outcome : (o : Outcome A × Host) → Post E Q o → Post F R (proceed o f g)
      of_outcome (done a, h) q = (hf a).at h q
      of_outcome (failed x, h) q = (hg x).at h q

module _ {A : Type 0} {P E : Host → Type 0} {Q : A → Host → Type 0} where
  pub Run-give : (a : A) → ((h : Host) → P h → Q a h) → Run P (give a) E Q
  unfolding give
  Run-give a k = record { at = λ h p. k h p }

  pub Run-fail : (x : Failure) → ((h : Host) → P h → E h) → Run P (fail {A = A} x) E Q
  unfolding fail
  Run-fail x k = record { at = λ h p. k h p }

  pub Run-pre :
      {P' : Host → Type 0} (m : Act A) → ((h : Host) → P h → P' h) → Run P' m E Q → Run P m E Q
  Run-pre m k s = record { at = λ h p. s.at h (k h p) }

module _ {A B : Type 0} {P E : Host → Type 0} {Q : A → Host → Type 0} {R : B → Host → Type 0} where
  pub Run-bind :
      (m : Act A) (f : A → Act B)
      → Run P m E Q
      → ((a : A) → Run (Q a) (f a) E R)
      → Run P (m >>= f) E R
  unfolding ◌>>=◌
  Run-bind m f hm hf = Run-either m f fail hm hf (λ x. Run-fail x (λ h e. e))

module _ {P E : Host → Type 0} where
  pub Run-ignore : {A : Type 0} (m : Act A) → Run P m P (λ _. P) → Run P (ignore m) E (λ _. P)
  unfolding ignore
  Run-ignore m s = Run-either m _ _ s (λ a. Run-give tt (λ h p. p)) (λ x. Run-give tt (λ h p. p))

-- Another file is as before.
pub file-without :
    (name other_name : Str) (fs : List (Str × Str))
    → str_eq name other_name ≡ false
    → file other_name (without name fs) ≡ file other_name fs
unfolding file without
file-without name other_name [] d = refl
file-without name other_name ((n, s) ∷ fs) d = elim (Bool-cases (str_eq n name)) [
  | inl gone ↦ rw gone (
      rw (subst (λ k. str_eq k other_name ≡ false) (sym (str_eq_sound n name gone)) d)
        (file-without name other_name fs d))
  | inr kept ↦
      rw kept
        (ap (λ r. if str_eq n other_name then some s else r) (file-without name other_name fs d))
]

pub file-put : (name s : Str) (fs : List (Str × Str)) → file name (put name s fs) ≡ some s
unfolding file
file-put name s fs = rw (str_eq_refl name) refl

pub file-put_other :
    (name other_name s : Str) (fs : List (Str × Str))
    → str_eq name other_name ≡ false
    → file other_name (put name s fs) ≡ file other_name fs
unfolding file
file-put_other name other_name s fs d = rw d (file-without name other_name fs d)

-- Every file but these two is as in `fs`.
abbrev pub Else : Str → List (Str × Str) → Host → Type 0
Else name fs h =
    (n : Str)
    → str_eq name n ≡ false
    → str_eq (temporary name) n ≡ false
    → file n h.files ≡ file n fs

-- The file is replaced as a whole or not at all, and the events are the same.
pub write_file-Run :
    (name content : Str) (fs : List (Str × Str)) (events : List Event)
    → str_eq (temporary name) name ≡ false
    → Run
        (λ h. (h.files ≡ fs) × (h.events ≡ events))
        (write_file name content)
        (λ h. (file name h.files ≡ file name fs) × (Else name fs h × (h.events ≡ events)))
        (λ _ h. (file name h.files ≡ some content) × (Else name fs h × (h.events ≡ events)))
unfolding write_file write_file_once rename
write_file-Run name content fs events d =
    Run-bind _ _
      (record {
        at = λ h p. of_write (next_call h.calls) (record h { calls = later_calls h.calls }) p;
      })
      λ _. record {
        at = λ h p. of_rename (next_call h.calls) (record h { calls = later_calls h.calls }) p;
      }
  where
    Intact : Host → Type 0
    Intact h = (file name h.files ≡ file name fs) × (Else name fs h × (h.events ≡ events))

    Written : Host → Type 0
    Written h = (h.files ≡ put (temporary name) content fs) × (h.events ≡ events)

    of_tmp :
        (s : Str) (h : Host)
        → (h.files ≡ put (temporary name) s fs) × (h.events ≡ events)
        → Intact h
    of_tmp s h p = (
      ap (file name) p.0 ∙ file-put_other (temporary name) name s fs d,
      (λ n _ e. ap (file n) p.0 ∙ file-put_other (temporary name) n s fs e, p.1),
    )

    of_write :
        (c : Call) (h : Host)
        → (h.files ≡ fs) × (h.events ≡ events)
        → Post Intact (λ _. Written) (write_with c (temporary name) content h)
    of_write works h p = (ap (put (temporary name) content) p.0, p.1)
    of_write fails h p = (ap (file name) p.0, (λ n _ _. ap (file n) p.0, p.1))
    of_write (leaves t) h p =
        of_tmp t (record h { files = put (temporary name) t h.files })
          (ap (put (temporary name) t) p.0, p.1)

    of_rename :
        (c : Call) (h : Host)
        → Written h
        → Post Intact
            (λ _ h'. (file name h'.files ≡ some content) × (Else name fs h' × (h'.events ≡ events)))
            (rename_with c (temporary name) name h)
    of_rename works h p = (ap (file name) moved_is ∙ file-put name content _, (others, p.1))
      where
        moved_is :
            moved (temporary name) (file (temporary name) h.files) name h.files
            ≡ put name content (without (temporary name) h.files)
        moved_is = rw (ap (file (temporary name)) p.0 ∙ file-put (temporary name) content fs) refl

        others : Else name fs (record h {
          files = moved (temporary name) (file (temporary name) h.files) name h.files;
        })
        others n e k =
            ap (file n) moved_is
            ∙ (file-put_other name n content _ e
                ∙ (file-without (temporary name) n h.files k
                    ∙ (ap (file n) p.0 ∙ file-put_other (temporary name) n content fs k)))
    of_rename fails h p = of_tmp content h p
    of_rename (leaves t) h p = of_tmp content h p

-- The same from any state, in terms of what the files were.
pub write_file-At :
    {P E : Host → Type 0} {Q : Unit {0} → Host → Type 0} (name content : Str)
    → str_eq (temporary name) name ≡ false
    → ((h h' : Host)
        → P h
        → file name h'.files ≡ file name h.files
        → Else name h.files h'
        → h'.events ≡ h.events
        → E h')
    → ((h h' : Host)
        → P h
        → file name h'.files ≡ some content
        → Else name h.files h'
        → h'.events ≡ h.events
        → Q tt h')
    → Run P (write_file name content) E Q
write_file-At {E} {Q} name content d e q = record {
  at = λ h p.
      Post-map _ E _ Q (write_file name content h) (λ h' r. e h h' p r.0 r.1.0 r.1.1)
        (λ a h' r. q h h' p r.0 r.1.0 r.1.1)
        ((write_file-Run name content h.files h.events d).at h (refl, refl));
}
