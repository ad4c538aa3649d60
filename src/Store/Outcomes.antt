-- ===== src/Store/Outcomes.antt =====
-- What the rules of Store/Sat say about one outcome of an action.
use ats_proxy_manager.Prelude.{Bool, true, false, ◌≡◌, refl, subst}
use ats_proxy_manager.Domain.Enums.{Error}
use ats_proxy_manager.Store.{
  Db, World, Result, ok, err, M, Statement, guard, ignore, statement, send, dropped, is_aborted,
}
use ats_proxy_manager.Store.Sat.{Answer, Post, Sat, send-Post}

module _ {A : Type 0} {P I : Db → Type 0} {Q : A → Db → Type 0} where
  pub Sat-ok :
      (m : M A) (w w' : World) (a : A) → Sat P m I Q → P w.db → m w ≡ (ok a, w') → Q a w'.db
  Sat-ok m w w' a s p e = subst (Post I Q) e (s.at w p)

  pub Sat-err :
      (m : M A) (w w' : World) (x : Error) → Sat P m I Q → P w.db → m w ≡ (err x, w') → I w'.db
  Sat-err m w w' x s p e = subst (Post I Q) e (s.at w p)

-- Nothing is asked, so any action will do.
pub Sat-any : {A : Type 0} {P : Db → Type 0} (m : M A) → Sat P m (λ _. Unit {0}) (λ _ _. Unit {0})
Sat-any m = record { at = λ w p. of_outcome (m w) }
  where
    of_outcome :
        {A : Type 0} (o : Result A × World) → Post (λ _. Unit {0}) (λ (a : A) _. Unit {0}) o
    of_outcome (ok a, w) = tt
    of_outcome (err e, w) = tt

-- A precondition with a witness.
pub Sat-exists :
    {A X : Type 0} {R : X → Db → Type 0} {I : Db → Type 0} {Q : A → Db → Type 0} (m : M A)
    → ((x : X) → Sat (R x) m I Q)
    → Sat (λ db. (x : X) × R x db) m I Q
Sat-exists m h = record { at = λ w p. (h p.0).at w p.1 }

-- What is never reached.
pub Sat-absurd :
    {A : Type 0} {I : Db → Type 0} {Q : A → Db → Type 0} (m : M A) → Sat (λ _. false ≡ true) m I Q
Sat-absurd m = record { at = λ w p. cc p }

-- An action that cannot succeed from `P` fails.
pub Sat-fails :
    {A : Type 0} {P I : Db → Type 0} (m : M A) (w : World)
    → Sat P m I (λ _ _. false ≡ true)
    → P w.db
    → (e : Error) × (((m w).0 ≡ err e) × I (m w).1.db)
Sat-fails {I} m w s p = of_outcome (m w) (s.at w p)
  where
    of_outcome :
        {A : Type 0} (o : Result A × World)
        → Post I (λ (a : A) _. false ≡ true) o
        → (e : Error) × ((o.0 ≡ err e) × I o.1.db)
    of_outcome (ok a, w') q = cc q
    of_outcome (err e, w') q = (e, (refl, q))

dropped-db :
    {A : Type 0} (P : Db → Type 0) (o : Result A × World) → Post P (λ _. P) o → P (dropped o).1.db
dropped-db P (ok a, w) p = p
dropped-db P (err e, w) p = p

-- One statement, at its time, and its error dropped.
pub ignore_statement-lem :
    {A : Type 0} (P : Db → Type 0) (f : Statement A) (w : World)
    → P w.db
    → Answer (λ _. P) (f w.now w.db)
    → P (ignore (statement f) w).1.db
unfolding ignore statement
ignore_statement-lem P f w p q =
    dropped-db P (send (is_aborted w.tx) f w) (send-Post P (λ _. P) (is_aborted w.tx) f w p q)

-- A guard that holds.
pub Sat-passed :
    {P I : Db → Type 0} (b : Bool) (e : Error) → b ≡ true → Sat P (guard b e) I (λ _. P)
unfolding guard
Sat-passed true e h = record { at = λ w p. p }
Sat-passed false e h = cc

-- What holds of the tables whether the action returns or fails.
pub Sat-db :
    {A : Type 0} {P I : Db → Type 0} (m : M A) (w : World)
    → Sat P m I (λ _. I)
    → P w.db
    → I (ignore m w).1.db
unfolding ignore
Sat-db {A} {I} m w s p = dropped-db I (m w) (s.at w p)
