-- ===== src/Service/Collect.antt =====
-- `for _, x := range xs { y, err := f(x); if err != nil { return err }; ys = append(ys, y) }`.
use ats_proxy_manager.Prelude.{List, [], ◌∷◌}
use ats_proxy_manager.Store.{Db, M, pure, ◌>>=◌}
use ats_proxy_manager.Store.Sat.{Keeps, Sat-pure, Sat-bind}

module _ {A B : Type 0} where
  unfoldable pub collect : (A → M B) → List A → M (List B)
  collect f [] = pure []
  collect f (x ∷ xs) = do y ← f x; ys ← collect f xs; pure (y ∷ ys)

  pub collect-Keeps :
      {P : Db → Type 0} (f : A → M B) (xs : List A)
      → ((x : A) → Keeps P (f x))
      → Keeps P (collect f xs)
  unfolding collect
  collect-Keeps f [] h = Sat-pure [] (λ db p. p)
  collect-Keeps f (x ∷ xs) h =
      Sat-bind (f x) _ (h x)
        λ y. Sat-bind (collect f xs) _ (collect-Keeps f xs h) λ ys. Sat-pure (y ∷ ys) (λ db p. p)
