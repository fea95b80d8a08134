-- ===== src/Store/Success.antt =====
-- Requests that succeed: the rules for guards that pass and rows that are found.
use Prim.{absurd}
use mathlib.Core.Path.{subst}
use mathlib.Core.Option.{some-injective}
use harpia_api.Prelude.{Bool, true, false, Option, none, some, ◌≡◌, refl, sym, not}
use harpia_api.Store.Tables.{Database}
use harpia_api.Store.Monad.{
  Outcome, done, thrown, Error, Action, gets, or_raise, raise_if, check_rows, transaction,
  rolled_back, ◌>>=◌, ◌>>◌, check_violation, modify_db,
}
use harpia_api.Store.Rules.{Ensures}

-- The request ends normally, with a value and a database of which `Q` holds.
abbrev pub Succeeds : {A : Type 0} → (A → Database → Type 0) → Outcome A → Type 0
Succeeds {A} Q o = (a : A) × (db : Database) × (o ≡ done a db) × Q a db

pub Succeeds-Ensures :
    {A : Type 0} {Q : A → Database → Type 0} (o : Outcome A) → Ensures Q (λ _. ⊥) o → Succeeds Q o
Succeeds-Ensures (done a db) h = (a, db, refl, h.at)
Succeeds-Ensures (thrown e db) h = absurd h.at

-- The request throws, and leaves a database of which `E` holds.
abbrev pub Fails : {A : Type 0} → (Database → Type 0) → Outcome A → Type 0
Fails E o = (e : Error) × (db : Database) × (o ≡ thrown e db) × E db

pub Fails-Ensures :
    {A : Type 0} {E : Database → Type 0} (o : Outcome A) → Ensures (λ _ _. ⊥) E o → Fails E o
Fails-Ensures (done a db) h = absurd h.at
Fails-Ensures (thrown e db) h = (e, db, refl, h.at)

pub Ensures-commit :
    {A : Type 0} {Q : A → Database → Type 0} {E : Database → Type 0} (m : Action A) (db : Database)
    → Ensures Q (λ _. ⊥) (m db)
    → Ensures Q E (transaction m db)
unfolding transaction
Ensures-commit {A} {Q} {E} m db h = go (m db) h
  where
    go : (o : Outcome A) → Ensures Q (λ _. ⊥) o → Ensures Q E (rolled_back db o)
    go (done a db') h' = record { at = h'.at }
    go (thrown e db') h' = absurd h'.at

module _ {B : Type 0} {Q : B → Database → Type 0} {E : Database → Type 0} where
  pub Ensures-pass :
      (c : Bool) (e : Error) (n : Action B) (db : Database)
      → c ≡ false
      → Ensures Q E (n db)
      → Ensures Q E ((raise_if c e >> n) db)
  unfolding ◌>>◌ raise_if
  Ensures-pass true e n db off h = cc
  Ensures-pass false e n db off h = h

  pub Ensures-allowed :
      (holds : Database → Bool) (n : Action B) (db : Database)
      → holds db ≡ true
      → Ensures Q E (n db)
      → Ensures Q E ((check_rows holds >> n) db)
  unfolding ◌>>◌ check_rows raise_if
  Ensures-allowed holds n db e h = go (holds db) e
    where
      go : (c : Bool) → c ≡ true → Ensures Q E ((raise_if (not c) check_violation >> n) db)
      go true is = h
      go false is = cc

  pub Ensures-present :
      {A : Type 0} (g : Database → Option A) (e : Error) (f : A → Action B) (db : Database) (a : A)
      → g db ≡ some a
      → Ensures Q E (f a db)
      → Ensures Q E (((gets g >>= (λ o. or_raise o e)) >>= f) db)
  unfolding ◌>>=◌ gets or_raise
  Ensures-present {A} g e f db a found h = go (g db) found
    where
      go : (o : Option A) → o ≡ some a → Ensures Q E ((or_raise o e >>= f) db)
      go none is = cc
      go (some b) is = subst (λ y. Ensures Q E (f y db)) (sym (some-injective _ _ is)) h

  pub Ensures-present_then :
      {A : Type 0} (o : Option A) (e : Error) (n : Action B) (db : Database) (a : A)
      → o ≡ some a
      → Ensures Q E (n db)
      → Ensures Q E ((or_raise o e >> n) db)
  unfolding ◌>>◌ or_raise
  Ensures-present_then none e n db a is h = cc
  Ensures-present_then (some b) e n db a is h = h

-- A transaction whose write a constraint refuses.
pub transaction_refused :
    {A : Type 0} (f : Database → Database) (holds : Database → Bool) (n : Action A) (db : Database)
    → holds (f db) ≡ false
    → transaction (modify_db f >> (check_rows holds >> n)) db ≡ thrown check_violation db
unfolding transaction ◌>>◌ modify_db check_rows raise_if
transaction_refused {A} f holds n db off = go (holds (f db)) off
  where
    go :
        (c : Bool)
        → c ≡ false
        → transaction (modify_db f >> (raise_if (not c) check_violation >> n)) db
          ≡ thrown check_violation db
    go true is = cc
    go false is = refl
