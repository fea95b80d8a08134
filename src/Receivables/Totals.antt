-- ===== src/Receivables/Totals.antt =====
-- The amounts of the receivables of `generateForSale` of src/receivables/receivables.service.ts.
use Prim.{absurd}
use harpia_api.Prelude.{
  ℕ, ◌+◌, ◌≤◌, ◌≡◌, refl, ◌&&◌, List, [], ◌∷◌, map, arith, ◌==◌, elem, All, sum_by, sum_by-append,
  length, inl, inr, length-append,
}
use harpia_api.Dates.{UtcDate}
use harpia_api.Table.{find_many}
use harpia_api.Table.Keys.{next_id}
use harpia_api.Store.{
  Database, Ensures, Ensures-get, Ensures-write, Ensures-pure, Ensures-bind, Ensures-then,
  Ensures-recorded_many, Succeeds, Succeeds-Ensures,
}
use harpia_api.Receivables.Split.{IsSplit, split_amount, split_amount_lem}
use harpia_api.Receivables.Generation.{
  ReceivableSaleSource, ReceivablePlanSource, new_receivable, insert_receivable, create_instalments,
  create_plans, record_created, generate_for_sale, count_of, first_due_date, create_unless,
}

-- What the receivables were issued for.
abbrev pub issued : Database → ℕ
issued db = sum_by (λ r. r.original_amount) db.receivables

-- A plan that can be split: 1 to 600 instalments of at least one cent each.
pub record IsPlan (plan : ReceivablePlanSource) : Type 0 where
  pub some_part : 1 ≤ count_of plan
  pub parts : count_of plan ≤ 600
  pub cents : count_of plan ≤ plan.amount

Ensures-split_amount :
    (plan : ReceivablePlanSource) (db : Database)
    → IsPlan plan
    → Ensures
        (λ amounts d. (d ≡ db) × IsSplit plan.amount (count_of plan) amounts)
        (λ _. ⊥)
        (split_amount plan.amount (count_of plan) db)
Ensures-split_amount plan db ok = elim (split_amount_lem plan.amount (count_of plan) db) [
  | inl (one, most, enough, amounts, is, whole) ↦ rw is (record { at = (refl, whole) })
  | inr (e, is, bad) ↦ absurd (elim bad [
    | inl none_left ↦ omega (arith, none_left, ok.some_part)
    | inr (inl many) ↦ omega (arith, many, ok.parts)
    | inr (inr little) ↦ omega (arith, little, ok.cents)
  ])
]

-- The database has `amount` more issued, in `n` receivables.
record Issues (db : Database) (amount n : ℕ) (ids : List ℕ) (d : Database) : Type 0 where
  total : issued d ≡ issued db + amount
  count : length ids ≡ n

module _ (sale : ReceivableSaleSource) where
  create_instalments-Ensures :
      (plan : ReceivablePlanSource) (count : ℕ) (due : UtcDate) (index : ℕ) (amounts : List ℕ)
      (db : Database)
      → Ensures
          (Issues db (sum_by (λ a. a) amounts) (length amounts))
          (λ _. ⊥)
          (create_instalments [] sale plan count due index amounts db)
  unfolding create_instalments create_unless insert_receivable
  create_instalments-Ensures plan count due index [] db =
      Ensures-pure _ _ (record { total = omega arith; count = refl })
  create_instalments-Ensures plan count due index (amount ∷ amounts) db =
      Ensures-bind (λ _ d. issued d ≡ issued db + amount) _ _ _
        (Ensures-get _ _ _ (
          Ensures-write _ _ _ (
            Ensures-pure _ _ (
              omega (
                arith,
                sum_by-append (λ r. r.original_amount) db.receivables
                    (new_receivable sale plan count due index amount
                        (next_id (λ r. r.id) db.receivables)
                      ∷ []),
              )))))
        (λ id d one.
          Ensures-bind (Issues d (sum_by (λ a. a) amounts) (length amounts)) _ _ _
            (create_instalments-Ensures plan count due (index + 1) amounts d)
            (λ ids d' rest. Ensures-pure _ _ (record {
              total = omega (arith, one, rest.total);
              count = omega (arith, rest.count);
            })))

  create_plans-Ensures :
      (plans : List ReceivablePlanSource) (db : Database)
      → All IsPlan plans
      → Ensures
          (Issues db (sum_by (λ p. p.amount) plans) (sum_by count_of plans))
          (λ _. ⊥)
          (create_plans [] sale plans db)
  unfolding create_plans
  create_plans-Ensures [] db ok = Ensures-pure _ _ (record { total = omega arith; count = refl })
  create_plans-Ensures (plan ∷ plans) db (first, ok) =
      Ensures-bind _ _ _ _ (Ensures-split_amount plan db first) (λ amounts d (same, split).
        rw same (
          Ensures-bind (Issues db (sum_by (λ a. a) amounts) (length amounts)) _ _ _
            (create_instalments-Ensures plan (count_of plan) (first_due_date sale plan) 0 amounts
              db)
            (λ ids d1 one.
              Ensures-bind (Issues d1 (sum_by (λ p. p.amount) plans) (sum_by count_of plans)) _ _ _
                (create_plans-Ensures plans d1 ok)
                (λ rest d2 more. Ensures-pure _ _ (record {
                  total = omega (arith, one.total, more.total, split.whole);
                  count =
                      omega (arith, one.count, more.count, split.counted, length-append ids rest);
                })))))

  record_created-Ensures :
      (actor_user_id : ℕ) (ids : List ℕ) (db : Database)
      → Ensures (λ _ d. issued d ≡ issued db) (λ _. ⊥) (record_created sale actor_user_id ids db)
  unfolding record_created
  record_created-Ensures actor_user_id [] db = Ensures-pure _ _ refl
  record_created-Ensures actor_user_id (id ∷ ids) db = Ensures-recorded_many _ _ refl

  -- Where every plan of a sale can be split and none has receivables yet, the generation succeeds,
  -- and issues receivables for exactly the amounts of the plans, as many as their instalments.
  pub generate_for_sale_lem :
      (plans : List ReceivablePlanSource) (actor_user_id : ℕ) (db : Database)
      → All IsPlan plans
      → find_many
          (λ r.
            r.organization_id == sale.organization_id
            && elem r.source_id (map (λ (p : ReceivablePlanSource). p.id) plans))
          db.receivables
        ≡ []
      → Succeeds
          (λ ids d.
            (issued d ≡ issued db + sum_by (λ p. p.amount) plans)
            × (length ids ≡ sum_by count_of plans))
          (generate_for_sale sale plans actor_user_id db)
  unfolding generate_for_sale
  generate_for_sale_lem plans actor_user_id db ok none_yet = Succeeds-Ensures _ (
      Ensures-get _ _ _ (
        rw none_yet (
          Ensures-bind (Issues db (sum_by (λ p. p.amount) plans) (sum_by count_of plans)) _ _ _
            (create_plans-Ensures plans db ok)
            (λ ids d more.
              Ensures-then (λ _ d'. issued d' ≡ issued d) _ _ _
                (record_created-Ensures actor_user_id ids d)
                (λ _ d' still. Ensures-pure _ _ (omega (arith, more.total, still), more.count))))))
