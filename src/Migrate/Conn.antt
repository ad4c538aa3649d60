-- ===== src/Migrate/Conn.antt =====
-- The connection that migrations run on: the schema, the table `schema_migrations`, and the schedule
-- of failures. An action is a result, or none for an error, with the next connection; the code
-- returns at the first error, so a transaction that a statement has aborted is never used again.
use ats_proxy_manager.Prelude.{ℕ, Bool, true, false, Option, none, some, List, [], ◌∷◌, Str}

-- A row of `schema_migrations`.
pub record Applied : Type 0 where
  pub version : ℕ
  pub filename : Str

-- `tracking` is none until the table is created.
pub record Base (S : Type 0) : Type 0 where
  pub schema : S
  pub tracking : Option (List Applied)

pub record Conn (S : Type 0) : Type 0 where
  pub base : Base S
  pub faults : List Bool

-- What PostgreSQL does with a file, and what `information_schema` says.
pub record Postgres (S : Type 0) : Type 0 where
  pub exec : Str → S → Option S
  pub table_exists : Str → S → Bool
  pub column_exists : Str → Str → S → Bool

abbrev pub next_fault : List Bool → Bool
next_fault [] = false
next_fault (b ∷ bs) = b

abbrev pub later_faults : List Bool → List Bool
later_faults [] = []
later_faults (b ∷ bs) = bs

abbrev pub Action : Type 0 → Type 0 → Type 0
Action S A = Conn S → Option A × Conn S

module _ {S : Type 0} where
  unfoldable pub pure : {A : Type 0} → A → Action S A
  pure a c = (some a, c)

  abbrev pub continue : {A B : Type 0} → Option A → (A → Action S B) → Action S B
  continue none f c = (none, c)
  continue (some a) f c = f a c

  infixl 5 ◌>>=◌ ◌>>◌
  unfoldable pub ◌>>=◌ : {A B : Type 0} → Action S A → (A → Action S B) → Action S B
  ◌>>=◌ m f c = let (r, c') = m c in continue r f c'

  abbrev pub ◌>>◌ : {A B : Type 0} → Action S A → Action S B → Action S B
  m >> k = m >>= λ _. k

  abbrev pub answer : {A : Type 0} → Option (A × Base S) → Action S A
  answer none c = (none, c)
  answer (some (a, base)) c = (some a, record c { base = base })

  abbrev pub attempt : {A : Type 0} → Bool → (Base S → Option (A × Base S)) → Action S A
  attempt true f c = (none, c)
  attempt false f c = answer (f c.base) c

  -- One statement: it fails if the schedule says so, or if PostgreSQL refuses it.
  unfoldable pub statement : {A : Type 0} → (Base S → Option (A × Base S)) → Action S A
  statement f c = attempt (next_fault c.faults) f (record c { faults = later_faults c.faults })

  -- Reading, or a call outside the database that may fail.
  unfoldable pub read : {A : Type 0} → (Base S → A) → Action S A
  unfolding statement
  read g = statement λ base. some (g base, base)

  abbrev pub commit : {A : Type 0} → Bool → Base S → A → Action S A
  commit true before a c = (none, record c { base = before })
  commit false before a c = (some a, c)

  abbrev pub finish : {A : Type 0} → Base S → Option A × Conn S → Option A × Conn S
  finish before (none, c) = (none, record c { base = before })
  finish before (some a, c) =
      commit (next_fault c.faults) before a (record c { faults = later_faults c.faults })

  abbrev pub begin : {A : Type 0} → Bool → Action S A → Action S A
  begin true m c = (none, c)
  begin false m c = finish c.base (m c)

  -- `Begin`, the body, then `Rollback` on an error and `Commit` otherwise.
  unfoldable pub transaction : {A : Type 0} → Action S A → Action S A
  transaction m c = begin (next_fault c.faults) m (record c { faults = later_faults c.faults })
