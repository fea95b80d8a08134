-- ===== src/Table/Single.antt =====
-- Updates of one row by its key, in a table where no two rows share the key.
use Prim.{absurd}
use mathlib.Core.Path.{subst}
use mathlib.Core.Option.{some-injective}
use harpia_api.Prelude.{
  ℕ, ◌+◌, ◌≤◌, ◌≡◌, refl, sym, Bool, true, false, some, List, [], ◌∷◌, arith, All, sum_by,
  Bool-cases, inl, inr,
}
use harpia_api.Table.{find_first, modify, count_by, count_by-find_first}

module _ {R : Type 0} where
  -- No row has the key.
  modify_zero-All {κ} :
      (P P' : R → Type κ) (p : R → Bool) (f : R → R) (rs : List R)
      → count_by p rs ≡ 0
      → ((x : R) → P x → p x ≡ false → P' x)
      → All P rs
      → All P' (modify p f rs)
  modify_zero-All P P' p f [] c h a = tt
  modify_zero-All P P' p f (x ∷ rs) c h (px, a) = elim (Bool-cases (p x)) [
    | inl e ↦ absurd (omega (arith, rw e at c))
    | inr e ↦ (rw e (h x px e), modify_zero-All P P' p f rs (omega (arith, rw e at c)) h a)
  ]

  -- A property of all rows after the update of the one row that a query `q` found.
  pub modify_one-All {κ} :
      (P P' : R → Type κ) (p q : R → Bool) (f : R → R) (rs : List R) (r : R)
      → count_by p rs ≤ 1
      → find_first q rs ≡ some r
      → p r ≡ true
      → ((x : R) → P x → p x ≡ false → P' x)
      → P' (f r)
      → All P rs
      → All P' (modify p f rs)
  modify_one-All P P' p q f [] r c e pr h new a = cc
  modify_one-All P P' p q f (x ∷ rs) r c e pr h new (px, a) = elim (Bool-cases (q x)) [
    | inl t ↦
        let same = some-injective _ _ (rw t at e) in
        let px_true = subst (λ y. p y ≡ true) (sym same) pr in
        (
          rw px_true (subst (λ y. P' (f y)) (sym same) new),
          modify_zero-All P P' p f rs (omega (arith, rw px_true at c)) h a,
        )
    | inr t ↦
        let later = rw t at e in
        elim (Bool-cases (p x)) [
          | inl s ↦ absurd (omega (arith, count_by-find_first q p rs r later pr, rw s at c))
          | inr s ↦ (
            rw s (h x px s),
            modify_one-All P P' p q f rs r (omega (arith, rw s at c)) later pr h new a,
          )
        ]
  ]

  sum_by-modify_zero :
      (w : R → ℕ) (p : R → Bool) (f : R → R) (rs : List R)
      → count_by p rs ≡ 0
      → sum_by w (modify p f rs) ≡ sum_by w rs
  sum_by-modify_zero w p f [] c = refl
  sum_by-modify_zero w p f (x ∷ rs) c = ground (arith, sum_by-modify_zero w p f rs)

  pub sum_by-modify_one :
      (w : R → ℕ) (p q : R → Bool) (f : R → R) (rs : List R) (r : R)
      → count_by p rs ≤ 1
      → find_first q rs ≡ some r
      → p r ≡ true
      → sum_by w (modify p f rs) + w r ≡ sum_by w rs + w (f r)
  sum_by-modify_one w p q f [] r c e pr = cc
  sum_by-modify_one w p q f (x ∷ rs) r c e pr = ground (
    arith,
    sum_by-modify_one w p q f rs r,
    sum_by-modify_zero w p f rs,
    count_by-find_first q p rs r,
  )
