-- ===== src/Table.antt =====
-- Database tables as lists of rows: the queries that the services send through Prisma, by their
-- `where` conditions, and the laws of counting rows.
pub mod Single
pub mod Keys
use mathlib.Core.Path.{subst}
use mathlib.Core.Option.{some-injective}
use harpia_api.Prelude.{
  ℕ, ◌+◌, ◌≤◌, ◌≡◌, refl, Bool, true, false, not, ◌&&◌, Option, none, some, List, [], ◌∷◌, ◌++◌,
  arith, bit, All, if◌then◌else◌, Bool-cases, inl, inr,
}

module _ {R : Type 0} where
  -- `findFirst({ where })`
  abbrev pub find_first : (R → Bool) → List R → Option R
  find_first p [] = none
  find_first p (r ∷ rs) = if p r then some r else find_first p rs

  -- `findMany({ where })`
  abbrev pub find_many : (R → Bool) → List R → List R
  find_many p [] = []
  find_many p (r ∷ rs) = let rest = find_many p rs in if p r then r ∷ rest else rest

  -- `updateMany({ where, data })`, and `update` where the condition names a key
  abbrev pub modify : (R → Bool) → (R → R) → List R → List R
  modify p f [] = []
  modify p f (r ∷ rs) = (if p r then f r else r) ∷ modify p f rs

  -- `count({ where })`
  abbrev pub count_by : (R → Bool) → List R → ℕ
  count_by p [] = 0
  count_by p (r ∷ rs) = bit (p r) + count_by p rs

module _ {R : Type 0} where
  pub count_by-append :
      (p : R → Bool) (rs ss : List R) → count_by p (rs ++ ss) ≡ count_by p rs + count_by p ss
  count_by-append p [] ss = omega arith
  count_by-append p (r ∷ rs) ss = omega (arith, count_by-append p rs ss)

  -- A row that a query found is counted by whatever holds of it.
  pub count_by-find_first :
      (p q : R → Bool) (rs : List R) (r : R)
      → find_first p rs ≡ some r
      → q r ≡ true
      → 1 ≤ count_by q rs
  count_by-find_first p q [] r e h = cc
  count_by-find_first p q (x ∷ rs) r e h = ground (arith, count_by-find_first p q rs r)

  pub find_first_holds :
      (p : R → Bool) (rs : List R) (r : R) → find_first p rs ≡ some r → p r ≡ true
  find_first_holds p [] r e = cc
  find_first_holds p (x ∷ rs) r e = ground (arith, find_first_holds p rs r)

  pub find_first-none : (p : R → Bool) (rs : List R) → find_first p rs ≡ none → count_by p rs ≡ 0
  find_first-none p [] e = refl
  find_first-none p (x ∷ rs) e = ground (arith, find_first-none p rs)

  pub count_by_none : (q : R → Bool) (rs : List R) → ((r : R) → q r ≡ false) → count_by q rs ≡ 0
  count_by_none q [] h = refl
  count_by_none q (x ∷ rs) h = ground (arith, h x, count_by_none q rs h)

  pub count_by_mono :
      (p q : R → Bool) (rs : List R)
      → ((r : R) → p r ≡ true → q r ≡ true)
      → count_by p rs ≤ count_by q rs
  count_by_mono p q [] h = omega arith
  count_by_mono p q (x ∷ rs) h = ground (arith, h x, count_by_mono p q rs h)

  pub count_by_congr :
      (p q : R → Bool) (rs : List R) → ((r : R) → p r ≡ q r) → count_by p rs ≡ count_by q rs
  count_by_congr p q [] h = refl
  count_by_congr p q (x ∷ rs) h = ground (arith, h x, count_by_congr p q rs h)

  -- The rows of a table that satisfy `p`, by a second condition.
  pub count_by_split :
      (p q : R → Bool) (rs : List R)
      → count_by (λ r. p r && q r) rs + count_by (λ r. p r && not (q r)) rs ≡ count_by p rs
  count_by_split p q [] = omega arith
  count_by_split p q (x ∷ rs) = ground (arith, count_by_split p q rs)

  -- How an update moves a count: the updated rows leave it as they were and enter it as they are.
  pub count_by-modify :
      (p q : R → Bool) (f : R → R) (rs : List R)
      → count_by q (modify p f rs) + count_by (λ r. p r && q r) rs
        ≡ count_by q rs + count_by (λ r. p r && q (f r)) rs
  count_by-modify p q f [] = omega arith
  count_by-modify p q f (x ∷ rs) = ground (arith, count_by-modify p q f rs)

  -- An update that no row enters or leaves the count by.
  pub count_by-modify_same :
      (p q : R → Bool) (f : R → R) (rs : List R)
      → ((r : R) → p r ≡ true → q (f r) ≡ q r)
      → count_by q (modify p f rs) ≡ count_by q rs
  count_by-modify_same p q f [] h = refl
  count_by-modify_same p q f (x ∷ rs) h = ground (arith, h x, count_by-modify_same p q f rs h)

  -- An update that no row enters the count by.
  pub count_by-modify_le :
      (p q : R → Bool) (f : R → R) (rs : List R)
      → ((r : R) → p r ≡ true → q (f r) ≡ true → q r ≡ true)
      → count_by q (modify p f rs) ≤ count_by q rs
  count_by-modify_le p q f [] h = omega arith
  count_by-modify_le p q f (x ∷ rs) h = ground (arith, h x, count_by-modify_le p q f rs h)

  pub modify-All {κ} :
      (P : R → Type κ) (p : R → Bool) (f : R → R) (rs : List R)
      → ((r : R) → p r ≡ true → P r → P (f r))
      → All P rs
      → All P (modify p f rs)
  modify-All P p f [] h a = a
  modify-All P p f (x ∷ rs) h (px, a) = elim (Bool-cases (p x)) [
    | inl e ↦ (rw e (h x e px), modify-All P p f rs h a)
    | inr e ↦ (rw e px, modify-All P p f rs h a)
  ]

  pub find_first-All {κ} :
      (P : R → Type κ) (p : R → Bool) (rs : List R) (r : R)
      → All P rs
      → find_first p rs ≡ some r
      → P r
  find_first-All P p [] r a e = cc
  find_first-All P p (x ∷ rs) r (px, a) e = elim (Bool-cases (p x)) [
    | inl t ↦ subst P (some-injective _ _ (rw t at e)) px
    | inr t ↦ find_first-All P p rs r a (rw t at e)
  ]

  -- A query whose condition an update leaves alone finds the same row, updated.
  pub find_first-modify :
      (q p : R → Bool) (f : R → R) (rs : List R) (r : R)
      → ((x : R) → q (f x) ≡ q x)
      → find_first q rs ≡ some r
      → find_first q (modify p f rs) ≡ some (if p r then f r else r)
  find_first-modify q p f [] r h e = cc
  find_first-modify q p f (x ∷ rs) r h e = ground (arith, h x, find_first-modify q p f rs r h)

  -- The row that a query finds after an update is a row that it found before, updated.
  pub find_first-unmodify :
      (q p : R → Bool) (f : R → R) (rs : List R) (r : R)
      → ((x : R) → q (f x) ≡ q x)
      → find_first q (modify p f rs) ≡ some r
      → (x : R) × (find_first q rs ≡ some x) × (r ≡ (if p x then f x else x))
  find_first-unmodify q p f [] r h e = cc
  find_first-unmodify q p f (x ∷ rs) r h e = elim (Bool-cases (q x)) [
    | inl t ↦ (x, ground (arith, h x), ground (arith, h x))
    | inr t ↦
        let (y, fy, ey) = find_first-unmodify q p f rs r h (ground (arith, h x)) in
        (y, ground (arith, h x), ey)
  ]

  pub modify_none :
      (p : R → Bool) (f : R → R) (rs : List R) → ((r : R) → p r ≡ false) → modify p f rs ≡ rs
  modify_none p f [] h = refl
  modify_none p f (x ∷ rs) h = ground (arith, h x, modify_none p f rs h)

  pub find_first-find_many :
      (p : R → Bool) (rs : List R) (e : R) (es : List R)
      → find_many p rs ≡ e ∷ es
      → find_first p rs ≡ some e
  find_first-find_many p [] e es h = cc
  find_first-find_many p (r ∷ rs) e es h = ground (arith, find_first-find_many p rs e es)

  pub find_first-append :
      (p : R → Bool) (rs ss : List R) (r : R)
      → find_first p rs ≡ some r
      → find_first p (rs ++ ss) ≡ some r
  find_first-append p [] ss r h = cc
  find_first-append p (x ∷ rs) ss r h = ground (arith, find_first-append p rs ss r)

  -- A row that is found by one condition is found by another that no two rows meet.
  pub find_first_only :
      (p q : R → Bool) (rs : List R) (r : R)
      → count_by p rs ≤ 1
      → find_first q rs ≡ some r
      → p r ≡ true
      → find_first p rs ≡ some r
  find_first_only p q [] r one found is = cc
  find_first_only p q (x ∷ rs) r one found is =
      ground (arith, find_first_only p q rs r, count_by-find_first q p rs r)

  -- What holds of all rows after an update, of the updated ones and of the others.
  pub modify-All_to {κ} :
      (P P' : R → Type κ) (p : R → Bool) (f : R → R) (rs : List R)
      → ((x : R) → P x → p x ≡ true → P' (f x))
      → ((x : R) → P x → p x ≡ false → P' x)
      → All P rs
      → All P' (modify p f rs)
  modify-All_to P P' p f [] new old a = tt
  modify-All_to P P' p f (x ∷ rs) new old (px, a) = elim (Bool-cases (p x)) [
    | inl e ↦ (rw e (new x px e), modify-All_to P P' p f rs new old a)
    | inr e ↦ (rw e (old x px e), modify-All_to P P' p f rs new old a)
  ]
