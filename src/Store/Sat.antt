-- ===== src/Store/Sat.antt =====
-- Partial correctness of actions: from tables that satisfy `P`, an action that succeeds leaves
-- tables that satisfy `Q` of its value, and one that fails leaves tables that satisfy `I`.
use ats_proxy_manager.Prelude.{
  ℕ, Bool, true, false, Option, none, some, ◌≡◌, refl, sym, subst, if◌then◌else◌,
}
use ats_proxy_manager.Domain.Enums.{Error}
use ats_proxy_manager.Store.{
  Db, World, Result, ok, err, M, Statement, pure, raise, continue, ◌>>=◌, guard, or_raise, get_now,
  ignore, statement, with_tx, Tx, idle, running, aborted, dropped, send, attempt, answer, begin,
  finish, commit, next_fault, later_faults, is_aborted,
}

-- What `Sat` asks of a statement's answer.
abbrev pub Answer : {A : Type 0} → (A → Db → Type 0) → Option (A × Db) → Type 0
Answer Q none = Unit
Answer Q (some (a, db)) = Q a db

-- What `Sat` asks of an outcome.
abbrev pub Post : {A : Type 0} → (Db → Type 0) → (A → Db → Type 0) → Result A × World → Type 0
Post I Q (ok a, w) = Q a w.db
Post I Q (err e, w) = I w.db

pub record Sat {A : Type 0} (P : Db → Type 0) (m : M A) (I : Db → Type 0) (Q : A → Db → Type 0)
    : Type 0 where
  pub at : (w : World) → P w.db → Post I Q (m w)

module _ {A : Type 0} (I : Db → Type 0) (Q : A → Db → Type 0) where
  answer-Post : (r : Option (A × Db)) (w : World) → I w.db → Answer Q r → Post I Q (answer r w)
  answer-Post none w i q = i
  answer-Post (some (a, db')) w i q = q

  attempt-Post :
      (b : Bool) (f : Statement A) (w : World)
      → I w.db
      → Answer Q (f w.now w.db)
      → Post I Q (attempt b f w)
  attempt-Post true f w i q = i
  attempt-Post false f w i q = answer-Post (f w.now w.db) w i q

  pub send-Post :
      (b : Bool) (f : Statement A) (w : World)
      → I w.db
      → Answer Q (f w.now w.db)
      → Post I Q (send b f w)
  send-Post true f w i q = i
  send-Post false f w i q =
      attempt-Post (next_fault w.faults) f (record w { faults = later_faults w.faults }) i q

  commit-Post :
      (b : Bool) (t : Tx) (before : Db) (a : A) (w : World)
      → I before
      → Q a w.db
      → Post I Q (commit b t before a w)
  commit-Post true t before a w i q = i
  commit-Post false idle before a w i q = q
  commit-Post false running before a w i q = q
  commit-Post false aborted before a w i q = i

  finish-Post :
      (before : Db) (r : Result A × World)
      → I before
      → Post (λ _. Unit {0}) Q r
      → Post I Q (finish before r)
  finish-Post before (err e, w) i h = i
  finish-Post before (ok a, w) i h =
      commit-Post (next_fault w.faults) w.tx before a (record w { faults = later_faults w.faults })
        i h

  begin-Post :
      (b : Bool) (m : M A) (w : World)
      → I w.db
      → ((w' : World) → w'.db ≡ w.db → Post (λ _. Unit {0}) Q (m w'))
      → Post I Q (begin b m w)
  begin-Post true m w i h = i
  begin-Post false m w i h = finish-Post w.db (m (record w { tx = running })) i (h _ refl)

module _ {A : Type 0} {P I : Db → Type 0} {Q : A → Db → Type 0} where
  pub Sat-pure : (a : A) → ((db : Db) → P db → Q a db) → Sat P (pure a) I Q
  unfolding pure
  Sat-pure a h = record { at = λ w p. h w.db p }

  pub Sat-raise : (e : Error) → ((db : Db) → P db → I db) → Sat P (raise e) I Q
  unfolding raise
  Sat-raise e h = record { at = λ w p. h w.db p }

  pub Sat-or_raise :
      (o : Option A) (e : Error)
      → ((db : Db) → P db → I db)
      → ((a : A) (db : Db) → o ≡ some a → P db → Q a db)
      → Sat P (or_raise o e) I Q
  unfolding or_raise
  Sat-or_raise none e hi hq = record { at = λ w p. hi w.db p }
  Sat-or_raise (some a) e hi hq = record { at = λ w p. hq a w.db refl p }

  pub Sat-statement :
      (f : Statement A)
      → ((db : Db) → P db → I db)
      → ((now : ℕ) (db : Db) → P db → Answer Q (f now db))
      → Sat P (statement f) I Q
  unfolding statement
  Sat-statement f hi hq = record {
    at = λ w p. send-Post I Q (is_aborted w.tx) f w (hi w.db p) (hq w.now w.db p);
  }

  -- What the body does when it fails is undone.
  pub Sat-with_tx :
      (m : M A) → ((db : Db) → P db → I db) → Sat P m (λ _. Unit {0}) Q → Sat P (with_tx m) I Q
  unfolding with_tx
  Sat-with_tx m hi hm = record {
    at = λ w p.
        begin-Post I Q (next_fault w.faults) m (record w { faults = later_faults w.faults })
          (hi w.db p) (λ w' e. hm.at w' (subst P (sym e) p));
  }

  pub Sat-if :
      (b : Bool) (m n : M A)
      → (b ≡ true → Sat P m I Q)
      → (b ≡ false → Sat P n I Q)
      → Sat P (if b then m else n) I Q
  Sat-if true m n hm hn = hm refl
  Sat-if false m n hm hn = hn refl

  pub Sat-pre :
      {P' : Db → Type 0} (m : M A) → ((db : Db) → P db → P' db) → Sat P' m I Q → Sat P m I Q
  Sat-pre m h s = record { at = λ w p. s.at w (h w.db p) }

module _ {A : Type 0} (I J : Db → Type 0) (Q R : A → Db → Type 0) where
  Post-map :
      (o : Result A × World)
      → ((db : Db) → I db → J db)
      → ((a : A) (db : Db) → Q a db → R a db)
      → Post I Q o
      → Post J R o
  Post-map (ok a, w) hi hq q = hq a w.db q
  Post-map (err e, w) hi hq q = hi w.db q

module _ {A : Type 0} {P I J : Db → Type 0} {Q R : A → Db → Type 0} where
  pub Sat-post :
      (m : M A)
      → ((db : Db) → I db → J db)
      → ((a : A) (db : Db) → Q a db → R a db)
      → Sat P m I Q
      → Sat P m J R
  Sat-post m hi hq s = record { at = λ w p. Post-map I J Q R (m w) hi hq (s.at w p) }

module _ {A B : Type 0} (I : Db → Type 0) (Q : A → Db → Type 0) (R : B → Db → Type 0) where
  continue-Post :
      (r : Result A) (w : World) (f : A → M B)
      → Post I Q (r, w)
      → ((a : A) → Sat (Q a) (f a) I R)
      → Post I R (continue r f w)
  continue-Post (ok a) w f h hf = (hf a).at w h
  continue-Post (err e) w f h hf = h

module _ {A B : Type 0} {P I : Db → Type 0} {Q : A → Db → Type 0} {R : B → Db → Type 0} where
  pub Sat-bind :
      (m : M A) (f : A → M B) → Sat P m I Q → ((a : A) → Sat (Q a) (f a) I R) → Sat P (m >>= f) I R
  unfolding ◌>>=◌
  Sat-bind m f hm hf = record {
    at = λ w p. let (r, w') = m w in continue-Post I Q R r w' f (hm.at w p) hf;
  }

dropped-Post :
    {A : Type 0} (P I : Db → Type 0) (o : Result A × World)
    → Post P (λ _. P) o
    → Post I (λ _. P) (dropped o)
dropped-Post P I (ok a, w) h = h
dropped-Post P I (err e, w) h = h

module _ {P I : Db → Type 0} where
  pub Sat-guard :
      {Q : Unit {0} → Db → Type 0} (b : Bool) (e : Error)
      → ((db : Db) → P db → I db)
      → ((db : Db) → b ≡ true → P db → Q tt db)
      → Sat P (guard b e) I Q
  unfolding guard
  Sat-guard true e hi hq = record { at = λ w p. hq w.db refl p }
  Sat-guard false e hi hq = record { at = λ w p. hi w.db p }

  pub Sat-get_now : Sat P get_now I (λ _. P)
  unfolding get_now
  Sat-get_now = record { at = λ w p. p }

  pub Sat-ignore : {A : Type 0} (m : M A) → Sat P m P (λ _. P) → Sat P (ignore m) I (λ _. P)
  unfolding ignore
  Sat-ignore m s = record { at = λ w p. dropped-Post P I (m w) (s.at w p) }

-- `m` keeps `P`, whether it returns or fails.
abbrev pub Keeps : {A : Type 0} → (Db → Type 0) → M A → Type 0
Keeps P m = Sat P m P (λ _. P)

module _ {A B : Type 0} {P I : Db → Type 0} {R : B → Db → Type 0} where
  -- A step that keeps what is known, before the rest of the block.
  pub Sat-then :
      (m : M A) (f : A → M B)
      → ((db : Db) → P db → I db)
      → Keeps P m
      → ((a : A) → Sat P (f a) I R)
      → Sat P (m >>= f) I R
  Sat-then m f h hm hf = Sat-bind m f (Sat-post m h (λ a db p. p) hm) hf

-- A part of the precondition that does not speak of the tables.
pub Sat-fact :
    {A F : Type 0} {P I : Db → Type 0} {Q : A → Db → Type 0} (m : M A)
    → (F → Sat P m I Q)
    → Sat (λ db. F × P db) m I Q
Sat-fact m h = record { at = λ w p. (h p.0).at w p.1 }
