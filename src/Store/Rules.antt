-- ===== src/Store/Rules.antt =====
-- What a request guarantees about its end, and one rule for each way that a request is composed.
use mathlib.Core.Path.{subst}
use harpia_api.Prelude.{Bool, true, false, Option, none, some, List, ◌≡◌, refl, ◌++◌, ◌∷◌, [], not}
use harpia_api.Store.Tables.{Database, AuditEntry}
use harpia_api.Store.Monad.{
  Outcome, done, thrown, Error, Action, pure, gets, or_raise, transaction, on_unique_violation,
  ◌>>=◌, ◌>>◌, raise_if, check_violation, modify_db, record_many, record_one, state_of, rolled_back,
  translated, check_rows,
}

abbrev Holds : {A : Type 0} → (A → Database → Type 0) → (Database → Type 0) → Outcome A → Type 0
Holds Q E (done a db) = Q a db
Holds Q E (thrown e db) = E db

-- `Q` holds of the value and the database of a normal end, `E` of the database of an exception.
pub record Ensures {A : Type 0} (Q : A → Database → Type 0) (E : Database → Type 0) (o : Outcome A)
    : Type 0 where
  pub at : Holds Q E o

pub returns :
    {A : Type 0} {Q : A → Database → Type 0} {E : Database → Type 0} (a : A) (db : Database)
    → Q a db
    → Ensures Q E (done a db)
returns a db h = record { at = h }

pub state_of-Ensures :
    {A : Type 0} (P : Database → Type 0) (o : Outcome A)
    → Ensures (λ _ db. P db) P o
    → P (state_of o)
state_of-Ensures P (done a db) h = h.at
state_of-Ensures P (thrown e db) h = h.at

pub Ensures-weaken :
    {A : Type 0} {Q Q' : A → Database → Type 0} {E : Database → Type 0} (o : Outcome A)
    → ((a : A) (db : Database) → Q a db → Q' a db)
    → Ensures Q E o
    → Ensures Q' E o
Ensures-weaken (done a db) k h = record { at = k a db h.at }
Ensures-weaken (thrown e db) k h = record { at = h.at }

module _ {A : Type 0} {Q : A → Database → Type 0} {E : Database → Type 0} where
  pub Ensures-pure : (a : A) (db : Database) → Q a db → Ensures Q E (pure a db)
  unfolding pure
  Ensures-pure a db h = record { at = h }

  pub Ensures-or_raise :
      (o : Option A) (e : Error) (db : Database)
      → ((a : A) → o ≡ some a → Q a db)
      → E db
      → Ensures Q E (or_raise o e db)
  unfolding or_raise
  Ensures-or_raise none e db h x = record { at = x }
  Ensures-or_raise (some a) e db h x = record { at = h a refl }

  -- A callback that throws leaves the database as it was.
  pub Ensures-transaction :
      (m : Action A) (db : Database)
      → Ensures Q (λ _. Unit {0}) (m db)
      → E db
      → Ensures Q E (transaction m db)
  unfolding transaction
  Ensures-transaction m db h x = go (m db) h
    where
      go : (o : Outcome A) → Ensures Q (λ _. Unit {0}) o → Ensures Q E (rolled_back db o)
      go (done a db') h' = record { at = h'.at }
      go (thrown e db') h' = record { at = x }

  pub Ensures-unique :
      (e : Error) (m : Action A) (db : Database)
      → Ensures Q E (m db)
      → Ensures Q E (on_unique_violation e m db)
  unfolding on_unique_violation
  Ensures-unique e m db h = go (m db) h
    where
      go : (o : Outcome A) → Ensures Q E o → Ensures Q E (translated e o)
      go (done a db') h' = h'
      go (thrown x db') h' = record { at = h'.at }

module _ {A B : Type 0} {Q : B → Database → Type 0} {E : Database → Type 0} where
  -- A call whose guarantee `R` is known, and what follows it.
  pub Ensures-bind :
      (R : A → Database → Type 0) (m : Action A) (f : A → Action B) (db : Database)
      → Ensures R E (m db)
      → ((a : A) (db' : Database) → R a db' → Ensures Q E (f a db'))
      → Ensures Q E ((m >>= f) db)
  unfolding ◌>>=◌
  Ensures-bind R m f db h k = go (m db) h
    where
      go :
          (o : Outcome A)
          → Ensures R E o
          → Ensures Q E (elim o [ done a db' ↦ f a db' | thrown e db' ↦ thrown e db' ])
      go (done a db') h' = k a db' h'.at
      go (thrown e db') h' = record { at = h'.at }

  pub Ensures-then :
      (R : A → Database → Type 0) (m : Action A) (n : Action B) (db : Database)
      → Ensures R E (m db)
      → ((a : A) (db' : Database) → R a db' → Ensures Q E (n db'))
      → Ensures Q E ((m >> n) db)
  unfolding ◌>>◌
  Ensures-then R m n db h k = go (m db) h
    where
      go :
          (o : Outcome A)
          → Ensures R E o
          → Ensures Q E (elim o [ done a db' ↦ n db' | thrown e db' ↦ thrown e db' ])
      go (done a db') h' = k a db' h'.at
      go (thrown e db') h' = record { at = h'.at }

  pub Ensures-get :
      (g : Database → A) (f : A → Action B) (db : Database)
      → Ensures Q E (f (g db) db)
      → Ensures Q E ((gets g >>= f) db)
  unfolding ◌>>=◌ gets
  Ensures-get g f db h = h

  -- `if (!row) throw …`
  pub Ensures-row :
      (o : Option A) (e : Error) (f : A → Action B) (db : Database)
      → ((a : A) → o ≡ some a → Ensures Q E (f a db))
      → E db
      → Ensures Q E ((or_raise o e >>= f) db)
  unfolding ◌>>=◌ or_raise
  Ensures-row none e f db h x = record { at = x }
  Ensures-row (some a) e f db h x = h a refl

  -- A query for one row that throws where there is none, as a call of its own.
  pub Ensures-found :
      (g : Database → Option A) (e : Error) (f : A → Action B) (db : Database)
      → ((a : A) → g db ≡ some a → Ensures Q E (f a db))
      → E db
      → Ensures Q E (((gets g >>= (λ o. or_raise o e)) >>= f) db)
  unfolding ◌>>=◌ gets or_raise
  Ensures-found g e f db h x = go (g db) h
    where
      go :
          (o : Option A)
          → ((a : A) → o ≡ some a → Ensures Q E (f a db))
          → Ensures Q E ((or_raise o e >>= f) db)
      go none k = record { at = x }
      go (some a) k = k a refl

  pub Ensures-row_then :
      (o : Option A) (e : Error) (n : Action B) (db : Database)
      → ((a : A) → o ≡ some a → Ensures Q E (n db))
      → E db
      → Ensures Q E ((or_raise o e >> n) db)
  unfolding ◌>>◌ or_raise
  Ensures-row_then none e n db h x = record { at = x }
  Ensures-row_then (some a) e n db h x = h a refl

module _ {B : Type 0} {Q : B → Database → Type 0} {E : Database → Type 0} where
  -- `if (c) throw …`
  pub Ensures-guard :
      (c : Bool) (e : Error) (n : Action B) (db : Database)
      → (c ≡ false → Ensures Q E (n db))
      → E db
      → Ensures Q E ((raise_if c e >> n) db)
  unfolding ◌>>◌ raise_if
  Ensures-guard true e n db h x = record { at = x }
  Ensures-guard false e n db h x = h refl

  pub Ensures-check :
      (holds : Database → Bool) (n : Action B) (db : Database)
      → (holds db ≡ true → Ensures Q E (n db))
      → E db
      → Ensures Q E ((check_rows holds >> n) db)
  unfolding ◌>>◌ check_rows raise_if
  Ensures-check holds n db h x = go (holds db) h
    where
      go :
          (c : Bool)
          → (c ≡ true → Ensures Q E (n db))
          → Ensures Q E ((raise_if (not c) check_violation >> n) db)
      go true k = k refl
      go false k = record { at = x }

  pub Ensures-write :
      (f : Database → Database) (n : Action B) (db : Database)
      → Ensures Q E (n (f db))
      → Ensures Q E ((modify_db f >> n) db)
  unfolding ◌>>◌ modify_db
  Ensures-write f n db h = h

  pub Ensures-record_many :
      (l : List AuditEntry) (n : Action B) (db : Database)
      → Ensures Q E (n (record db { audit_logs = db.audit_logs ++ l }))
      → Ensures Q E ((record_many l >> n) db)
  unfolding ◌>>◌ record_many
  Ensures-record_many l n db h = h

  pub Ensures-record_one :
      (x : AuditEntry) (n : Action B) (db : Database)
      → Ensures Q E (n (record db { audit_logs = db.audit_logs ++ x ∷ [] }))
      → Ensures Q E ((record_one x >> n) db)
  unfolding ◌>>◌ record_one
  Ensures-record_one x n db h = h

module _ {Q : Unit {0} → Database → Type 0} {E : Database → Type 0} where
  pub Ensures-written :
      (f : Database → Database) (db : Database) → Q tt (f db) → Ensures Q E (modify_db f db)
  unfolding modify_db
  Ensures-written f db h = record { at = h }

  pub Ensures-recorded_many :
      (l : List AuditEntry) (db : Database)
      → Q tt (record db { audit_logs = db.audit_logs ++ l })
      → Ensures Q E (record_many l db)
  unfolding record_many
  Ensures-recorded_many l db h = record { at = h }

  pub Ensures-recorded_one :
      (x : AuditEntry) (db : Database)
      → Q tt (record db { audit_logs = db.audit_logs ++ x ∷ [] })
      → Ensures Q E (record_one x db)
  unfolding record_one
  Ensures-recorded_one x db h = record { at = h }

  pub Ensures-guarded :
      (c : Bool) (e : Error) (db : Database)
      → (c ≡ false → Q tt db)
      → E db
      → Ensures Q E (raise_if c e db)
  unfolding raise_if
  Ensures-guarded true e db h x = record { at = x }
  Ensures-guarded false e db h x = record { at = h refl }

-- What is known of a normal end.
pub Ensures-done :
    {A : Type 0} {Q : A → Database → Type 0} {E : Database → Type 0} (o : Outcome A) (a : A)
    (db : Database)
    → o ≡ done a db
    → Ensures Q E o
    → Q a db
Ensures-done {A} {Q} {E} o a db is h = (subst (λ x. Ensures Q E x) is h).at

pub Ensures-any :
    {A : Type 0} (o : Outcome A) → Ensures (λ (a : A) (d : Database). Unit {0}) (λ _. Unit {0}) o
Ensures-any (done a d) = record { at = tt }
Ensures-any (thrown e d) = record { at = tt }
