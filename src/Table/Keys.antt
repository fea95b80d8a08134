-- ===== src/Table/Keys.antt =====
-- The identifier that the database gives a new row, in the model one above all that are there.
use harpia_api.Prelude.{ℕ, suc, ◌≤◌, ◌≡◌, refl, List, [], ◌∷◌, arith, ltb, ◌==◌, if◌then◌else◌}
use harpia_api.Table.{count_by}

module _ {R : Type 0} where
  abbrev pub next_id : (R → ℕ) → List R → ℕ
  next_id id [] = 0
  next_id id (r ∷ rs) = let rest = next_id id rs in if ltb (id r) rest then rest else suc (id r)

  pub count_by-next_id :
      (id : R → ℕ) (rs : List R) (k : ℕ) → next_id id rs ≤ k → count_by (λ r. id r == k) rs ≡ 0
  count_by-next_id id [] k h = refl
  count_by-next_id id (r ∷ rs) k h = ground (arith, count_by-next_id id rs k)
