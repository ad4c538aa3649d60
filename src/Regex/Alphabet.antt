-- ===== src/Regex/Alphabet.antt =====
-- A text that a pattern accepts is written in the pattern's alphabet.
use ats_proxy_manager.Prelude.{
  ℕ, Bool, true, false, [], ◌∷◌, ◌&&◌, ◌||◌, ◌≡◌, refl, arith, Bool-cases, inl, inr, Str,
}
use ats_proxy_manager.Regex.{
  Regex, nothing, empty, one_of, seq, alt, star, nullable, derivative, accepts,
}

-- Every class of bytes in `r` lies within `ok`.
abbrev pub Within : (ℕ → Bool) → Regex → Type 0
Within good nothing = Unit
Within good empty = Unit
Within good (one_of p) = (c : ℕ) → p c ≡ true → good c ≡ true
Within good (seq r s) = Within good r × Within good s
Within good (alt r s) = Within good r × Within good s
Within good (star r) = Within good r

-- Patterns that are seen to match nothing.
is_void : Regex → Bool
is_void nothing = true
is_void (seq r s) = is_void r || is_void s
is_void (alt r s) = is_void r && is_void s
is_void _ = false

nullable-void : (r : Regex) → is_void r ≡ true → nullable r ≡ false
unfolding is_void nullable
nullable-void nothing h = refl
nullable-void empty h = ground arith
nullable-void (one_of p) h = refl
nullable-void (seq r s) h = ground (arith, nullable-void r, nullable-void s)
nullable-void (alt r s) h = ground (arith, nullable-void r, nullable-void s)
nullable-void (star r) h = ground arith

derivative-void : (c : ℕ) (r : Regex) → is_void r ≡ true → is_void (derivative c r) ≡ true
unfolding is_void derivative
derivative-void c nothing h = refl
derivative-void c empty h = ground arith
derivative-void c (one_of p) h = ground arith
derivative-void c (seq r s) h =
    ground (arith, derivative-void c r, derivative-void c s, nullable-void r)
derivative-void c (alt r s) h = ground (arith, derivative-void c r, derivative-void c s)
derivative-void c (star r) h = ground arith

accepts-void : (r : Regex) (s : Str) → is_void r ≡ true → accepts r s ≡ false
unfolding accepts
accepts-void r [] h = nullable-void r h
accepts-void r (c ∷ s) h = accepts-void (derivative c r) s (derivative-void c r h)

-- A byte outside the alphabet leads nowhere.
derivative_outside :
    (good : ℕ → Bool) (c : ℕ) (r : Regex)
    → good c ≡ false
    → Within good r
    → is_void (derivative c r) ≡ true
unfolding is_void derivative
derivative_outside good c nothing o w = refl
derivative_outside good c empty o w = refl
derivative_outside good c (one_of p) o w = ground (arith, w c)
derivative_outside good c (seq r s) o w =
    ground (arith, derivative_outside good c r o w.0, derivative_outside good c s o w.1)
derivative_outside good c (alt r s) o w =
    ground (arith, derivative_outside good c r o w.0, derivative_outside good c s o w.1)
derivative_outside good c (star r) o w = ground (arith, derivative_outside good c r o w)

derivative-Within :
    (good : ℕ → Bool) (c : ℕ) (r : Regex) → Within good r → Within good (derivative c r)
unfolding derivative
derivative-Within good c nothing w = tt
derivative-Within good c empty w = tt
derivative-Within good c (one_of p) w = elim (Bool-cases (p c)) [
  | inl e ↦ rw e tt
  | inr e ↦ rw e tt
]
derivative-Within good c (seq r s) w = elim (Bool-cases (nullable r)) [
  | inl e ↦ rw e ((derivative-Within good c r w.0, w.1), derivative-Within good c s w.1)
  | inr e ↦ rw e (derivative-Within good c r w.0, w.1)
]
derivative-Within good c (alt r s) w =
    (derivative-Within good c r w.0, derivative-Within good c s w.1)
derivative-Within good c (star r) w = (derivative-Within good c r w, w)

-- Every byte of a text passes the test.
abbrev pub AllBytes : (ℕ → Bool) → Str → Type 0
AllBytes good [] = Unit
AllBytes good (c ∷ s) = (good c ≡ true) × AllBytes good s

pub accepts-AllBytes :
    (good : ℕ → Bool) (r : Regex) (s : Str) → Within good r → accepts r s ≡ true → AllBytes good s
unfolding accepts
accepts-AllBytes good r [] w h = tt
accepts-AllBytes good r (c ∷ s) w h = elim (Bool-cases (good c)) [
  | inl inside ↦ (inside, accepts-AllBytes good (derivative c r) s (derivative-Within good c r w) h)
  | inr outside ↦ cc (accepts-void (derivative c r) s (derivative_outside good c r outside w))
]
