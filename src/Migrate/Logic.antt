-- ===== src/Migrate/Logic.antt =====
-- Rules for actions on a connection: from a base that satisfies `P`, an action that succeeds leaves
-- a base that satisfies `Q` of its value, and one that fails a base that satisfies `I`; and `Works`,
-- where nothing fails from outside, that it does succeed.
use ats_proxy_manager.Prelude.{Bool, true, false, Option, none, some, ◌≡◌, refl, subst, some_unique}
use ats_proxy_manager.Migrate.Run.{or_fail}
use ats_proxy_manager.Migrate.Conn.{
  Base, Conn, Action, pure, continue, ◌>>=◌, answer, attempt, statement, transaction, commit,
  finish, begin, next_fault, later_faults,
}

abbrev pub Answer : {S A : Type 0} → (A → Base S → Type 0) → Option (A × Base S) → Type 0
Answer Q none = Unit
Answer Q (some (a, base)) = Q a base

abbrev pub Post :
    {S A : Type 0} → (Base S → Type 0) → (A → Base S → Type 0) → Option A × Conn S → Type 0
Post I Q (none, c) = I c.base
Post I Q (some a, c) = Q a c.base

pub record Holds {S A : Type 0} (P : Base S → Type 0) (m : Action S A) (I : Base S → Type 0)
    (Q : A → Base S → Type 0) : Type 0 where
  pub at : (c : Conn S) → P c.base → Post I Q (m c)

module _ {S A : Type 0} (I : Base S → Type 0) (Q : A → Base S → Type 0) where
  answer-Post :
      (r : Option (A × Base S)) (c : Conn S) → I c.base → Answer Q r → Post I Q (answer r c)
  answer-Post none c i q = i
  answer-Post (some (a, base)) c i q = q

  attempt-Post :
      (b : Bool) (f : Base S → Option (A × Base S)) (c : Conn S)
      → I c.base
      → Answer Q (f c.base)
      → Post I Q (attempt b f c)
  attempt-Post true f c i q = i
  attempt-Post false f c i q = answer-Post (f c.base) c i q

  commit-Post :
      (b : Bool) (before : Base S) (a : A) (c : Conn S)
      → I before
      → Q a c.base
      → Post I Q (commit b before a c)
  commit-Post true before a c i q = i
  commit-Post false before a c i q = q

  finish-Post :
      (before : Base S) (o : Option A × Conn S)
      → I before
      → Post (λ _. Unit {0}) Q o
      → Post I Q (finish before o)
  finish-Post before (none, c) i q = i
  finish-Post before (some a, c) i q =
      commit-Post (next_fault c.faults) before a (record c { faults = later_faults c.faults }) i q

  begin-Post :
      (b : Bool) (m : Action S A) (c : Conn S)
      → I c.base
      → Post (λ _. Unit {0}) Q (m c)
      → Post I Q (begin b m c)
  begin-Post true m c i q = i
  begin-Post false m c i q = finish-Post c.base (m c) i q

module _ {S A : Type 0} {P I : Base S → Type 0} {Q : A → Base S → Type 0} where
  pub Holds-pure : (a : A) → ((b : Base S) → P b → Q a b) → Holds P (pure a) I Q
  unfolding pure
  Holds-pure a h = record { at = λ c p. h c.base p }

  pub Holds-statement :
      (f : Base S → Option (A × Base S))
      → ((b : Base S) → P b → I b)
      → ((b : Base S) → P b → Answer Q (f b))
      → Holds P (statement f) I Q
  unfolding statement
  Holds-statement f hi hq = record {
    at = λ c p.
        attempt-Post I Q (next_fault c.faults) f (record c { faults = later_faults c.faults })
          (hi c.base p) (hq c.base p);
  }

  -- What the body does when it fails is undone.
  pub Holds-transaction :
      (m : Action S A)
      → ((b : Base S) → P b → I b)
      → Holds P m (λ _. Unit {0}) Q
      → Holds P (transaction m) I Q
  unfolding transaction
  Holds-transaction m hi hm = record {
    at = λ c p.
        begin-Post I Q (next_fault c.faults) m (record c { faults = later_faults c.faults })
          (hi c.base p) (hm.at (record c { faults = later_faults c.faults }) p);
  }

  pub Holds-pre :
      {P' : Base S → Type 0} (m : Action S A)
      → ((b : Base S) → P b → P' b)
      → Holds P' m I Q
      → Holds P m I Q
  Holds-pre m h s = record { at = λ c p. s.at c (h c.base p) }

Post-Post :
    {S A : Type 0} (I : Base S → Type 0) (Q R : A → Base S → Type 0) (o : Option A × Conn S)
    → ((a : A) (b : Base S) → Q a b → R a b)
    → Post I Q o
    → Post I R o
Post-Post I Q R (none, c) h q = q
Post-Post I Q R (some a, c) h q = h a c.base q

any-Post : {S A : Type 0} (o : Option A × Conn S) → Post (λ _. Unit {0}) (λ (a : A) _. Unit {0}) o
any-Post (none, c) = tt
any-Post (some a, c) = tt

-- Nothing is asked, so any action will do.
pub Holds-any :
    {S A : Type 0} {P : Base S → Type 0} (m : Action S A)
    → Holds P m (λ _. Unit {0}) (λ _ _. Unit {0})
Holds-any m = record { at = λ c p. any-Post (m c) }

module _ {S A : Type 0} {P I : Base S → Type 0} {Q R : A → Base S → Type 0} where
  pub Holds-post :
      (m : Action S A) → ((a : A) (b : Base S) → Q a b → R a b) → Holds P m I Q → Holds P m I R
  Holds-post m h s = record { at = λ c p. Post-Post I Q R (m c) h (s.at c p) }

module _ {S A B : Type 0} (I : Base S → Type 0) (Q : A → Base S → Type 0)
    (R : B → Base S → Type 0) where
  continue-Post :
      (r : Option A) (c : Conn S) (f : A → Action S B)
      → Post I Q (r, c)
      → ((a : A) → Holds (Q a) (f a) I R)
      → Post I R (continue r f c)
  continue-Post none c f h hf = h
  continue-Post (some a) c f h hf = (hf a).at c h

module _ {S A B : Type 0} {P I : Base S → Type 0} {Q : A → Base S → Type 0}
    {R : B → Base S → Type 0} where
  pub Holds-bind :
      (m : Action S A) (f : A → Action S B)
      → Holds P m I Q
      → ((a : A) → Holds (Q a) (f a) I R)
      → Holds P (m >>= f) I R
  unfolding ◌>>=◌
  Holds-bind m f hm hf = record {
    at = λ c p. let (r, c') = m c in continue-Post I Q R r c' f (hm.at c p) hf;
  }

-- One outcome.
pub Holds-some :
    {S A : Type 0} {P I : Base S → Type 0} {Q : A → Base S → Type 0} (m : Action S A)
    (c c' : Conn S) (a : A)
    → Holds P m I Q
    → P c.base
    → m c ≡ (some a, c')
    → Q a c'.base
Holds-some {I} {Q} m c c' a s p e = subst (Post I Q) e (s.at c p)

-- Either outcome.
pub Holds-both :
    {S A : Type 0} {P : Base S → Type 0} (m : Action S A) (c : Conn S)
    → Holds P m P (λ _. P)
    → P c.base
    → P (m c).1.base
Holds-both {P} m c s p = of_outcome P (m c) (s.at c p)
  where
    of_outcome :
        {S A : Type 0} (P : Base S → Type 0) (o : Option A × Conn S)
        → Post P (λ _. P) o
        → P o.1.base
    of_outcome P (none, c) q = q
    of_outcome P (some a, c) q = q

-- A part of the precondition that does not speak of the base.
pub Holds-fact :
    {S A F : Type 0} {P I : Base S → Type 0} {Q : A → Base S → Type 0} (m : Action S A)
    → (F → Holds P m I Q)
    → Holds (λ b. F × P b) m I Q
Holds-fact m h = record { at = λ c p. (h p.0).at c p.1 }

-- A value that is there.
pub or_fail-Holds :
    {S A : Type 0} {P I : Base S → Type 0} (o : Option A) (a : A)
    → o ≡ some a
    → Holds P (or_fail o) I (λ x b. (x ≡ a) × P b)
unfolding or_fail
or_fail-Holds none a e = cc e
or_fail-Holds (some x) a e = record { at = λ c p. (some_unique x a refl e, p) }
