-- ===== src/Tests/Tokens.antt =====
-- Tokens that are readable texts: what is signed is written out, and read back until it expires.
-- They show what the results ask of the library, and protect nothing.
use ats_proxy_manager.Prelude.{
  ℕ, zero, suc, ◌*◌, Option, none, some, [], ◌∷◌, ◌≡◌, refl, ap, subst, ltb, if◌then◌else◌, Str,
  str_eq,
}
use ats_proxy_manager.Domain.Enums.{UserRole}
use ats_proxy_manager.Auth.{Crypto, Identity, Payload}
use ats_proxy_manager.Auth.Round.{ReadsSigned}
use ats_proxy_manager.Repository.ProxyRepo.{second}

-- Each byte behind a 1, and a 0 at the end.
abbrev write : Str → Str → Str
write [] rest = 0 ∷ rest
write (c ∷ s) rest = 1 ∷ c ∷ write s rest

abbrev front : ℕ → Str × Str → Str × Str
front c (s, rest) = (c ∷ s, rest)

abbrev read : Str → Str × Str
read [] = ([], [])
read (zero ∷ s) = ([], s)
read (suc n ∷ []) = ([], [])
read (suc n ∷ c ∷ s) = front c (read s)

read-write : (s rest : Str) → read (write s rest) ≡ (s, rest)
read-write [] rest = refl
read-write (c ∷ s) rest = ap (front c) (read-write s rest)

abbrev write_role : UserRole → Str → Str
write_role UserRole.root rest = 0 ∷ rest
write_role UserRole.admin rest = 1 ∷ rest
write_role UserRole.regular rest = 2 ∷ rest
write_role (UserRole.other s) rest = 3 ∷ write s rest

abbrev other_role : Str × Str → UserRole × Str
other_role (s, rest) = (UserRole.other s, rest)

abbrev read_role : Str → UserRole × Str
read_role [] = (UserRole.root, [])
read_role (zero ∷ s) = (UserRole.root, s)
read_role (suc zero ∷ s) = (UserRole.admin, s)
read_role (suc (suc zero) ∷ s) = (UserRole.regular, s)
read_role (suc (suc (suc n)) ∷ s) = other_role (read s)

read_role-write_role :
    (role : UserRole) (rest : Str) → read_role (write_role role rest) ≡ (role, rest)
read_role-write_role UserRole.root rest = refl
read_role-write_role UserRole.admin rest = refl
read_role-write_role UserRole.regular rest = refl
read_role-write_role (UserRole.other s) rest = ap other_role (read-write s rest)

abbrev write_identity : Option Identity → Str → Str
write_identity none rest = 0 ∷ rest
write_identity (some i) rest =
    1 ∷ i.user_id ∷ write i.username (write i.email (write_role i.role rest))

abbrev with_role : ℕ → Str → Str → UserRole × Str → Option Identity × Str
with_role id username email (role, rest) =
    (some (record { user_id = id; username = username; email = email; role = role }), rest)

abbrev with_email : ℕ → Str → Str × Str → Option Identity × Str
with_email id username (email, rest) = with_role id username email (read_role rest)

abbrev with_name : ℕ → Str × Str → Option Identity × Str
with_name id (username, rest) = with_email id username (read rest)

abbrev read_identity : Str → Option Identity × Str
read_identity [] = (none, [])
read_identity (zero ∷ s) = (none, s)
read_identity (suc n ∷ []) = (none, [])
read_identity (suc n ∷ id ∷ s) = with_name id (read s)

read_identity-write_identity :
    (i : Option Identity) (rest : Str) → read_identity (write_identity i rest) ≡ (i, rest)
read_identity-write_identity none rest = refl
read_identity-write_identity (some i) rest =
    rw (read-write i.username (write i.email (write_role i.role rest))) (
      rw (read-write i.email (write_role i.role rest)) (rw (read_role-write_role i.role rest) refl))

abbrev written : Payload → Str
written p =
    write_identity p.identity (write p.subject (p.issued_at ∷ p.expires_at ∷ write p.token_id []))

abbrev with_id : Option Identity → Str → ℕ → ℕ → Str × Str → Payload
with_id i subject issued expires (id, rest) = record {
  identity = i;
  subject = subject;
  issued_at = issued;
  expires_at = expires;
  token_id = id;
}

abbrev with_subject : Option Identity → Str × Str → Option Payload
with_subject i (subject, issued ∷ expires ∷ s) = some (with_id i subject issued expires (read s))
with_subject i (subject, _) = none

abbrev with_identity : Option Identity × Str → Option Payload
with_identity (i, s) = with_subject i (read s)

abbrev unexpired : ℕ → Option Payload → Option Payload
unexpired now none = none
unexpired now (some p) = if ltb now (p.expires_at * second) then some p else none

abbrev read_payload : Str → Option Payload
read_payload s = with_identity (read_identity s)

read_payload-written : (p : Payload) → read_payload (written p) ≡ some p
read_payload-written p =
    rw
      (read_identity-write_identity p.identity
        (write p.subject (p.issued_at ∷ p.expires_at ∷ write p.token_id [])))
      (rw (read-write p.subject (p.issued_at ∷ p.expires_at ∷ write p.token_id []))
        (rw (read-write p.token_id []) refl))

unfoldable pub plain_tokens : Crypto
plain_tokens = record {
  sign = λ secret p. some (written p);
  parse = λ secret now s. unexpired now (read_payload s);
  hash_password = λ salt s. some (salt ∷ s);
  verify_password = λ hash s. str_eq hash (7 ∷ s);
}

pub plain_tokens-ReadsSigned : (secret : Str) → ReadsSigned plain_tokens secret
unfolding plain_tokens
plain_tokens-ReadsSigned secret p token now e h = of_text (cc e)
  where
    of_text : written p ≡ token → unexpired now (read_payload token) ≡ some p
    of_text is =
        subst (λ t. unexpired now (read_payload t) ≡ some p) is
          (rw (read_payload-written p) (rw h refl))
