-- ===== src/Handler/Answer.antt =====
-- What a handler of backend/internal/handler answers: a status with the value that the body shows,
-- or with the `error` field of `respondError`; messages are left out.
use ats_proxy_manager.Prelude.{ℕ, Option, none, some, Str, codes}
use ats_proxy_manager.Domain.Enums.{Error}
use ats_proxy_manager.Store.{Db, World, Result, ok, err, M, pure}
use ats_proxy_manager.Store.Sat.{Sat, Post}
use ats_proxy_manager.Handler.Response.{respond_domain_error}

pub data Answer (A : Type 0) : Type 0 where
  success : ℕ → A → Answer A
  failure : ℕ → Str → Answer A

abbrev pub failed_with : {A : Type 0} → ℕ × Str → Answer A
failed_with (status, error) = failure status error

abbrev pub answered :
    {A B : Type 0} → ℕ → (A → B) → (Error → Answer B) → Result A × World → Result (Answer B) × World
answered status show on_error (ok a, w) = (ok (success status (show a)), w)
answered status show on_error (err e, w) = (ok (on_error e), w)

-- Call the service, then show its result or answer its error.
unfoldable pub respond : {A B : Type 0} → ℕ → (A → B) → (Error → Answer B) → M A → M (Answer B)
respond status show on_error m w = answered status show on_error (m w)

abbrev pub domain_error : {B : Type 0} → Error → Answer B
domain_error e = failed_with (respond_domain_error e)

-- A body or an ID that cannot be read.
unfoldable pub bad_request_answer : {B : Type 0} → M (Answer B)
bad_request_answer = pure (failure 400 (codes "bad_request"))

-- `uuid.Parse` of the ID, or the decoding of the body, before the rest of a handler.
abbrev pub with_parsed : {A B : Type 0} → Option A → (A → M (Answer B)) → M (Answer B)
with_parsed none f = bad_request_answer
with_parsed (some a) f = f a

-- An answer is given whether the service fails or not; the tables are the service's.
answered-Post :
    {A B : Type 0} (I J : Db → Type 0) (status : ℕ) (show : A → B) (on_error : Error → Answer B)
    (o : Result A × World)
    → Post I (λ _. I) o
    → Post J (λ _. I) (answered status show on_error o)
answered-Post I J status show on_error (ok a, w) h = h
answered-Post I J status show on_error (err e, w) h = h

pub respond-Sat :
    {A B : Type 0} {P I J : Db → Type 0} (status : ℕ) (show : A → B) (on_error : Error → Answer B)
    (m : M A)
    → Sat P m I (λ _. I)
    → Sat P (respond status show on_error m) J (λ _. I)
unfolding respond
respond-Sat {I} {J} status show on_error m s = record {
  at = λ w p. answered-Post I J status show on_error (m w) (s.at w p);
}
