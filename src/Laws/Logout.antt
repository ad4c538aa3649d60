-- ===== src/Laws/Logout.antt =====
-- Logout and beacon of backend/internal/service/auth_service.go.
use ats_proxy_manager.Prelude.{
  str_eq, arith, ℕ, Bool, true, false, not, Option, none, some, List, [], ◌∷◌, ◌≡◌, refl, ◌∙◌, ◌==◌,
  ◌&&◌, Bool-cases, inl, inr, Str,
}
use ats_proxy_manager.Prelude.Table.{select_first, some_row, update_where, some_row-update_where}
use ats_proxy_manager.Domain.Enums.{Error, unauthorized, not_found}
use ats_proxy_manager.Domain.Models.{Session}
use ats_proxy_manager.Store.{
  Db, World, Result, ok, err, M, Statement, idle, statement, send, attempt, or_raise, ◌>>=◌,
  continue, is_aborted, next_fault, later_faults,
}
use ats_proxy_manager.Store.Sat.{Keeps, Sat-statement}
use ats_proxy_manager.Repository.SessionRepo
use ats_proxy_manager.Repository.SessionRepo.{is_live, is_open, session_row, set_session}
use ats_proxy_manager.Server.Safety.{Post-db}
use ats_proxy_manager.Invariant.Access.{beacon-Keeps, logout-Keeps}
use ats_proxy_manager.Service.AuthService
use ats_proxy_manager.Service.AuthService.{LoginResponse, as_error, failed_as, done_on_error}

-- A query that finds nothing, and a failure of it, are the same error to the service.
missing_fails :
    {A : Type 0} (f : ℕ → Db → Option A) (e : Error) (w : World)
    → f w.now w.db ≡ none
    → (x : Error) × ((((statement (λ now db. some (f now db, db)) >>= λ found. or_raise found e)
            w).0
          ≡ err x)
        × (((statement (λ now db. some (f now db, db)) >>= λ found. or_raise found e) w).1.db
            ≡ w.db))
unfolding statement ◌>>=◌ or_raise
missing_fails {A} f e w is = of_send (is_aborted w.tx)
  where
    query : Statement (Option A)
    query now db = some (f now db, db)

    rest : Result (Option A) × World → Result A × World
    rest o = let (r, w') = o in continue r (λ found. or_raise found e) w'

    Failed : Result A × World → Type 0
    Failed o = (x : Error) × ((o.0 ≡ err x) × (o.1.db ≡ w.db))

    of_attempt :
        (b : Bool) → Failed (rest (attempt b query (record w { faults = later_faults w.faults })))
    of_attempt true = (_, (refl, refl))
    of_attempt false = rw is (_, (refl, refl))

    of_send : (b : Bool) → Failed (rest (send b query w))
    of_send true = (_, (refl, refl))
    of_send false = of_attempt (next_fault w.faults)

select_first-none :
    {A : Type 0} (p : A → Bool) (xs : List A) → some_row p xs ≡ false → select_first p xs ≡ none
unfolding some_row select_first
select_first-none p [] h = refl
select_first-none p (x ∷ xs) h = ground (arith, select_first-none p xs)

missing-some_row :
    {A : Type 0} (p : A → Bool) (xs : List A) → select_first p xs ≡ none → some_row p xs ≡ false
unfolding some_row select_first
missing-some_row p [] h = refl
missing-some_row p (x ∷ xs) h = ground (arith, missing-some_row p xs)

as_error-fails :
    {A B : Type 0} (m : M A) (f : A → M B) (e x : Error) (w : World)
    → (m w).0 ≡ err x
    → (((as_error m e >>= f) w).0 ≡ err e) × (((as_error m e >>= f) w).1.db ≡ (m w).1.db)
unfolding as_error ◌>>=◌
as_error-fails {A} {B} m f e x w is = of_outcome (m w) is
  where
    of_outcome :
        (o : Result A × World)
        → o.0 ≡ err x
        → ((let (r, w') = failed_as e o in continue r f w').0 ≡ err e)
          × ((let (r, w') = failed_as e o in continue r f w').1.db ≡ o.1.db)
    of_outcome (ok a, w') is = cc is
    of_outcome (err y, w') is = (refl, refl)

-- A beacon for which there is no live session is refused, and nothing changes.
pub beacon_refused :
    (hash : Str) (w : World)
    → some_row (is_live hash w.now) w.db.sessions ≡ false
    → ((AuthService.beacon hash w).0 ≡ err unauthorized) × ((AuthService.beacon hash w).1.db ≡ w.db)
unfolding AuthService.beacon SessionRepo.get_by_token_hash
beacon_refused hash w h =
    let (x, (e, d)) =
      missing_fails (λ now db. select_first (is_live hash now) db.sessions) not_found w
        (select_first-none _ _ h) in
    let (refused, kept) = as_error-fails _ _ unauthorized x w e in (refused, kept ∙ d)

-- A session with this hash that is not revoked, expired or not.
abbrev pub is_open_with : Str → Session → Bool
is_open_with hash s = str_eq s.token_hash hash && is_open s.revoked_at

abbrev pub NoneOpen : Str → Db → Type 0
NoneOpen hash db = some_row (is_open_with hash) db.sessions ≡ false

closed_dead :
    (hash : Str) (now : ℕ) (xs : List Session)
    → some_row (is_open_with hash) xs ≡ false
    → some_row (is_live hash now) xs ≡ false
unfolding some_row
closed_dead hash now [] h = refl
closed_dead hash now (x ∷ xs) h = ground (arith, h, closed_dead hash now xs)

-- Revoking a session opens none.
revoked_closed :
    (hash : Str) (id t : ℕ) (xs : List Session)
    → some_row (is_open_with hash) xs ≡ false
    → some_row
        (is_open_with hash)
        (update_where (λ s. s.id == id) (λ s. record s { revoked_at = some t }) xs)
      ≡ false
unfolding some_row update_where
revoked_closed hash id t [] h = refl
revoked_closed hash id t (x ∷ xs) h = elim (Bool-cases (x.id == id)) [
  | inl hit ↦ rw hit (ground (arith, h, revoked_closed hash id t xs))
  | inr miss ↦ rw miss (ground (arith, h, revoked_closed hash id t xs))
]

-- Revoking the only open one leaves none.
revoked_rows :
    (hash : Str) (id t : ℕ) (xs : List Session)
    → some_row (λ s. is_open_with hash s && not (s.id == id)) xs ≡ false
    → some_row
        (is_open_with hash)
        (update_where (λ s. s.id == id) (λ s. record s { revoked_at = some t }) xs)
      ≡ false
unfolding some_row update_where
revoked_rows hash id t [] h = refl
revoked_rows hash id t (x ∷ xs) h = elim (Bool-cases (x.id == id)) [
  | inl hit ↦ rw hit (ground (arith, hit, h, revoked_rows hash id t xs))
  | inr miss ↦ rw miss (ground (arith, miss, h, revoked_rows hash id t xs))
]

-- The live session with this hash that the query finds is the only open one.
abbrev pub OnlyOpen : Str → ℕ → List Session → Type 0
OnlyOpen hash now xs =
    (s : Session) × (select_first (is_live hash now) xs ≡ some s)
    × (some_row (λ t. is_open_with hash t && not (t.id == s.id)) xs ≡ false)

abbrev pub calm_at : ℕ → Db → World
calm_at now db = record { db = db; faults = []; now = now; tx = idle }

logged_out :
    (hash : Str) (now : ℕ) (db : Db)
    → OnlyOpen hash now db.sessions
    → NoneOpen hash (AuthService.logout hash (calm_at now db)).1.db
unfolding AuthService.logout SessionRepo.get_by_token_hash SessionRepo.revoke statement ◌>>=◌
    or_raise set_session
logged_out hash now db (s, found, only) = rw found (revoked_rows hash s.id now db.sessions only)

-- What other holders of tokens may do.
pub data SessionCall : Type 0 where
  beacon logout : Str → SessionCall

unfoldable pub call : SessionCall → M (Unit {0})
call (beacon hash) = AuthService.beacon hash
call (logout hash) = AuthService.logout hash

-- The tables after such calls, each at its time and with its failures.
unfoldable pub after_calls : List (SessionCall × ℕ × List Bool) → Db → Db
unfolding call
after_calls [] db = db
after_calls ((c, now, faults) ∷ calls) db =
    after_calls calls (call c (record { db = db; faults = faults; now = now; tx = idle })).1.db

module _ (hash : Str) where
  renew-Keeps : (id expiry : ℕ) → Keeps (NoneOpen hash) (SessionRepo.update_beacon id expiry)
  unfolding SessionRepo.update_beacon set_session
  renew-Keeps id expiry =
      Sat-statement _ (λ db h. h)
        (λ now db h.
          some_row-update_where (is_open_with hash) (λ s. s.id == id)
            (λ s. record s { last_beacon = now; expires_at = expiry }) db.sessions (λ x. refl)
          ∙ h)

  revoke-Keeps : (id : ℕ) → Keeps (NoneOpen hash) (SessionRepo.revoke id)
  unfolding SessionRepo.revoke set_session
  revoke-Keeps id =
      Sat-statement _ (λ db h. h) (λ now db h. revoked_closed hash id now db.sessions h)

  call-Keeps : (c : SessionCall) → Keeps (NoneOpen hash) (call c)
  unfolding call
  call-Keeps (beacon other) = beacon-Keeps renew-Keeps revoke-Keeps other
  call-Keeps (logout other) = logout-Keeps renew-Keeps revoke-Keeps other

  after_calls-NoneOpen :
      (calls : List (SessionCall × ℕ × List Bool)) (db : Db)
      → NoneOpen hash db
      → NoneOpen hash (after_calls calls db)
  unfolding after_calls
  after_calls-NoneOpen [] db h = h
  after_calls-NoneOpen ((c, now, faults) ∷ calls) db h = after_calls-NoneOpen calls _ (
      Post-db (call c) (call-Keeps c) (record { db = db; faults = faults; now = now; tx = idle }) h)

-- After a logout none of whose statements fails, where the live session that the token's hash finds is
-- the only one with that hash that is not revoked: whatever beacons and logouts follow, of any tokens,
-- at any times and with any failures, a beacon with this token is then refused and changes nothing,
-- whichever of its statements fail.
pub logout-beacon :
    (hash : Str) (now later : ℕ) (calls : List (SessionCall × ℕ × List Bool)) (faults : List Bool)
    (db : Db)
    → OnlyOpen hash now db.sessions
    → let after = after_calls calls (AuthService.logout hash (calm_at now db)).1.db in
      let again =
        AuthService.beacon hash (record { db = after; faults = faults; now = later; tx = idle }) in
      (again.0 ≡ err unauthorized) × (again.1.db ≡ after)
logout-beacon hash now later calls faults db only =
    let after = after_calls calls (AuthService.logout hash (calm_at now db)).1.db in
    beacon_refused hash (record { db = after; faults = faults; now = later; tx = idle })
      (closed_dead hash later after.sessions
        (after_calls-NoneOpen hash calls _ (logged_out hash now db only)))
