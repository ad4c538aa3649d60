-- ===== src/Store/Total.antt =====
-- Total correctness: from tables that satisfy `P`, and with no failure from outside, an action
-- succeeds and leaves tables that satisfy `Q` of its value.
use ats_proxy_manager.Prelude.{
  ℕ, Bool, true, false, Option, none, some, [], ◌≡◌, refl, subst, some_unique,
}
use ats_proxy_manager.Domain.Enums.{Error}
use ats_proxy_manager.Store.{
  Db, World, Result, ok, err, M, Statement, pure, continue, ◌>>=◌, guard, or_raise, ignore,
  statement, send, attempt, answer, dropped, next_fault, later_faults, is_aborted,
}

-- Nothing is going to fail, and nothing has failed in the transaction that is running.
abbrev pub Calm : World → Type 0
Calm w = (w.faults ≡ []) × (is_aborted w.tx ≡ false)

abbrev pub Answered : {A : Type 0} → (A → Db → Type 0) → Option (A × Db) → Type 0
Answered Q none = false ≡ true
Answered Q (some (a, db)) = Q a db

abbrev pub Success : {A : Type 0} → (A → Db → Type 0) → Result A × World → Type 0
Success Q (ok a, w) = Calm w × Q a w.db
Success Q (err e, w) = false ≡ true

pub record Total {A : Type 0} (P : Db → Type 0) (m : M A) (Q : A → Db → Type 0) : Type 0 where
  pub at : (w : World) → Calm w → P w.db → Success Q (m w)

module _ {A : Type 0} (Q : A → Db → Type 0) where
  answer-Success :
      (r : Option (A × Db)) (w : World) → Calm w → Answered Q r → Success Q (answer r w)
  answer-Success none w c q = q
  answer-Success (some (a, db)) w c q = (c, q)

  attempt-Success :
      (b : Bool) (f : Statement A) (w : World)
      → b ≡ false
      → Calm w
      → Answered Q (f w.now w.db)
      → Success Q (attempt b f w)
  attempt-Success true f w e c q = cc
  attempt-Success false f w e c q = answer-Success (f w.now w.db) w c q

  send-Success :
      (b : Bool) (f : Statement A) (w : World)
      → b ≡ false
      → Calm w
      → Answered Q (f w.now w.db)
      → Success Q (send b f w)
  send-Success true f w e c q = cc
  send-Success false f w e c q =
      attempt-Success (next_fault w.faults) f (record w { faults = later_faults w.faults })
        (rw c.0 refl) (rw c.0 refl, c.1) q

or_raise-Success :
    {A : Type 0} (Q : A → Db → Type 0) (o : Option A) (e : Error) (w : World) (a : A)
    → o ≡ some a
    → Calm w
    → Q a w.db
    → Success Q (or_raise o e w)
unfolding or_raise
or_raise-Success Q none e w a is c q = cc
or_raise-Success Q (some b) e w a is c q = (c, subst (λ x. Q x w.db) (some_unique a b is refl) q)

module _ {A : Type 0} {P : Db → Type 0} {Q : A → Db → Type 0} where
  pub Total-statement :
      (f : Statement A)
      → ((now : ℕ) (db : Db) → P db → Answered Q (f now db))
      → Total P (statement f) Q
  unfolding statement
  Total-statement f h = record {
    at = λ w c p. send-Success Q (is_aborted w.tx) f w c.1 c (h w.now w.db p);
  }

  pub Total-pure : (a : A) → ((db : Db) → P db → Q a db) → Total P (pure a) Q
  unfolding pure
  Total-pure a h = record { at = λ w c p. (c, h w.db p) }

  pub Total-or_raise :
      (o : Option A) (e : Error) (a : A)
      → o ≡ some a
      → ((db : Db) → P db → Q a db)
      → Total P (or_raise o e) Q
  Total-or_raise o e a is h = record { at = λ w c p. or_raise-Success Q o e w a is c (h w.db p) }

  -- A part of the precondition that does not speak of the tables.
  pub Total-fact : {F : Type 0} (m : M A) → (F → Total P m Q) → Total (λ db. F × P db) m Q
  Total-fact m h = record { at = λ w c p. (h p.0).at w c p.1 }

-- A precondition with a witness.
pub Total-exists :
    {A X : Type 0} {Q : A → Db → Type 0} {R : X → Db → Type 0} (m : M A)
    → ((x : X) → Total (R x) m Q)
    → Total (λ db. (x : X) × R x db) m Q
Total-exists m h = record { at = λ w c p. (h p.0).at w c p.1 }

module _ {A B : Type 0} (Q : A → Db → Type 0) (R : B → Db → Type 0) where
  continue-Success :
      (r : Result A) (w : World) (f : A → M B)
      → Success Q (r, w)
      → ((a : A) → Total (Q a) (f a) R)
      → Success R (continue r f w)
  continue-Success (ok a) w f s h = (h a).at w s.0 s.1
  continue-Success (err e) w f s h = cc s

module _ {A B : Type 0} {P : Db → Type 0} {Q : A → Db → Type 0} {R : B → Db → Type 0} where
  pub Total-bind :
      (m : M A) (f : A → M B) → Total P m Q → ((a : A) → Total (Q a) (f a) R) → Total P (m >>= f) R
  unfolding ◌>>=◌
  Total-bind m f hm hf = record {
    at = λ w c p. let (r, w') = m w in continue-Success Q R r w' f (hm.at w c p) hf;
  }

dropped-Success :
    {A : Type 0} (P : Db → Type 0) (o : Result A × World)
    → Success (λ _. P) o
    → Success (λ _. P) (dropped o)
dropped-Success P (ok a, w) s = s
dropped-Success P (err e, w) s = cc s

module _ {P : Db → Type 0} where
  pub Total-guard : (b : Bool) (e : Error) → b ≡ true → Total P (guard b e) (λ _. P)
  unfolding guard
  Total-guard true e h = record { at = λ w c p. (c, p) }
  Total-guard false e h = cc

  pub Total-ignore : {A : Type 0} (m : M A) → Total P m (λ _. P) → Total P (ignore m) (λ _. P)
  unfolding ignore
  Total-ignore m h = record { at = λ w c p. dropped-Success P (m w) (h.at w c p) }

post-Success :
    {A : Type 0} (Q R : A → Db → Type 0) (o : Result A × World)
    → ((a : A) (db : Db) → Q a db → R a db)
    → Success Q o
    → Success R o
post-Success Q R (ok a, w) h s = (s.0, h a w.db s.1)
post-Success Q R (err e, w) h s = s

pub Total-post :
    {A : Type 0} {P : Db → Type 0} {Q R : A → Db → Type 0} (m : M A)
    → ((a : A) (db : Db) → Q a db → R a db)
    → Total P m Q
    → Total P m R
Total-post {Q} {R} m h t = record { at = λ w c p. post-Success Q R (m w) h (t.at w c p) }

-- The outcome itself.
pub Total-ok :
    {A : Type 0} {P : Db → Type 0} {Q : A → Db → Type 0} (m : M A) (w : World)
    → Total P m Q
    → Calm w
    → P w.db
    → (a : A) × (w' : World) × (m w ≡ (ok a, w')) × Q a w'.db
Total-ok {A} {Q} m w h c p = of_outcome (m w) (h.at w c p)
  where
    of_outcome :
        (o : Result A × World) → Success Q o → (a : A) × (w' : World) × (o ≡ (ok a, w')) × Q a w'.db
    of_outcome (ok a, w') s = (a, w', refl, s.1)
    of_outcome (err e, w') s = cc s
