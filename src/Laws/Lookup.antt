-- ===== src/Laws/Lookup.antt =====
-- `err != nil && !errors.Is(err, ErrNotFound)` after a query for one row.
use ats_proxy_manager.Prelude.{Bool, true, false, Option, none, some, ◌≡◌, refl}
use ats_proxy_manager.Domain.Enums.{not_found}
use ats_proxy_manager.Store.{
  Db, World, Result, Statement, ◌>>=◌, continue, attempt, send, statement, or_raise, next_fault,
  later_faults, is_aborted,
}
use ats_proxy_manager.Store.Sat.{Sat, Post}
use ats_proxy_manager.Service.SyncService.{or_none, missing_to_none}

-- The answer is the row, or none where there is no row; a failure of the statement stays one.
pub lookup-Sat :
    {A : Type 0} {P I : Db → Type 0} (g : Db → Option A)
    → ((db : Db) → P db → I db)
    → Sat P
        (or_none (statement (λ now db. some (g db, db)) >>= λ found. or_raise found not_found))
        I
        (λ o db. (o ≡ g db) × P db)
unfolding or_none statement ◌>>=◌ or_raise
lookup-Sat {A} {P} {I} g hi = record { at = λ w p. of_send w p (is_aborted w.tx) }
  where
    query : Statement (Option A)
    query now db = some (g db, db)

    post : Result A × World → Type 0
    post o = Post I (λ o db. (o ≡ g db) × P db) (missing_to_none o)

    of_row : (w : World) → P w.db → (x : Option A) → x ≡ g w.db → post (or_raise x not_found w)
    of_row w p none e = (e, p)
    of_row w p (some a) e = (e, p)

    of_attempt :
        (w : World)
        → P w.db
        → (b : Bool)
        → post
            (let (r, w') = attempt b query w in continue r (λ found. or_raise found not_found) w')
    of_attempt w p true = hi w.db p
    of_attempt w p false = of_row w p (g w.db) refl

    of_send :
        (w : World)
        → P w.db
        → (b : Bool)
        → post (let (r, w') = send b query w in continue r (λ found. or_raise found not_found) w')
    of_send w p true = hi w.db p
    of_send w p false =
        of_attempt (record w { faults = later_faults w.faults }) p (next_fault w.faults)
