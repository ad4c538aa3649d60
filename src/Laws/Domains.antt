-- ===== src/Laws/Domains.antt =====
-- `domainPattern` of backend/internal/service/config_service.go, and the texts that
-- `domainToATS` and `domainToSNI` make of a domain that it accepts.
use ats_proxy_manager.Prelude.{
  ℕ, Bool, true, [], ◌∷◌, ◌≡◌, ◌==◌, ◌&&◌, ◌||◌, arith, Str, Bool-cases, inl, inr,
}
use ats_proxy_manager.Regex.{accepts}
use ats_proxy_manager.Regex.Alphabet.{Within, AllBytes, accepts-AllBytes}
use ats_proxy_manager.Generate.Files.{domain_to_ats, domain_to_sni}
use ats_proxy_manager.Service.ConfigInput.{domain_pattern, is_letter_or_digit, is_label_byte, label}

-- Letters, digits, `-`, `.` and `*`.
abbrev pub is_domain_byte : ℕ → Bool
is_domain_byte c = is_letter_or_digit c || (c == b'-' || (c == b'.' || c == b'*'))

letter_in : (c : ℕ) → is_letter_or_digit c ≡ true → is_domain_byte c ≡ true
letter_in c h = ground arith

label_byte_in : (c : ℕ) → is_label_byte c ≡ true → is_domain_byte c ≡ true
label_byte_in c h = ground arith

dot_in : (c : ℕ) → (c == b'.') ≡ true → is_domain_byte c ≡ true
dot_in c h = ground arith

star_in : (c : ℕ) → (c == b'*') ≡ true → is_domain_byte c ≡ true
star_in c h = ground arith

label-Within : Within is_domain_byte label
label-Within = (letter_in, (tt, (label_byte_in, letter_in)))

domain_pattern-Within : Within is_domain_byte domain_pattern
unfolding domain_pattern
domain_pattern-Within =
    ((tt, (star_in, dot_in)), (label-Within, ((dot_in, label-Within), (dot_in, label-Within))))

domain_to_ats-AllBytes :
    (s : Str) → AllBytes is_domain_byte s → AllBytes is_domain_byte (domain_to_ats s)
unfolding domain_to_ats
domain_to_ats-AllBytes [] h = tt
domain_to_ats-AllBytes (a ∷ []) h = h
domain_to_ats-AllBytes (a ∷ b ∷ rest) h = elim (Bool-cases (a == b'*' && b == b'.')) [
  | inl wild ↦ rw wild h.1
  | inr plain ↦ rw plain h
]

domain_to_sni-AllBytes :
    (s : Str) → AllBytes is_domain_byte s → AllBytes is_domain_byte (domain_to_sni s)
unfolding domain_to_sni
domain_to_sni-AllBytes [] h = tt
domain_to_sni-AllBytes (a ∷ rest) h = elim (Bool-cases (a == b'.')) [
  | inl suffix ↦ rw suffix (star_in 42 (ground arith), h)
  | inr plain ↦ rw plain h
]

-- What parent.config and sni.yaml show of a domain that the pattern accepts has only letters,
-- digits, `-`, `.` and `*`: no quote, no blank and no end of line.
pub domain_pattern-AllBytes :
    (s : Str)
    → accepts domain_pattern s ≡ true
    → AllBytes is_domain_byte (domain_to_ats s) × AllBytes is_domain_byte (domain_to_sni s)
domain_pattern-AllBytes s h =
    let all : AllBytes is_domain_byte s =
      accepts-AllBytes is_domain_byte domain_pattern s domain_pattern-Within h in
    (domain_to_ats-AllBytes s all, domain_to_sni-AllBytes s all)
