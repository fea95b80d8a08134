-- ===== src/Matching/ScoreLaws.antt =====
-- The compatibility score of src/crm/unit-compatibility-score.ts: its bounds, and units that fit.
use Prim.{absurd}
use native.Mathlib.Nat.{le-div_iff_mul-le}
use harpia_api.Prelude.{
  ℕ, ◌+◌, ◌-◌, ◌*◌, ◌≤◌, ◌<◌, ◌≡◌, ◌⊎◌, refl, false, Option, none, some, arith, ltb, ltb→lt, ◌==◌,
  or_else, Bool-cases, inl, inr, is_some, not, ap, Bool, true, ◌&&◌, ◌||◌, ◌∙◌,
}
use harpia_api.Matching.Score.{
  below, above, deviated, bounded_score, range_score, score_bedrooms, Scores, scores_of,
  MatchInterest, MatchRow, weighted_points, evaluated_weight, rounded, compatibility_score,
  weight_if, price_weight, area_weight, score_unit_compatibility, price_multiplier, area_multiplier,
  CompatibilityLevel, compatibility_level,
}

abbrev pub IsScore : Option ℕ → Type 0
IsScore o = or_else o 0 ≤ 100

rounded_le : (points weight : ℕ) → 0 < weight → points ≤ 100 * weight → rounded points weight ≤ 100
rounded_le points weight some_weight within = elim (Bool-cases (ltb 100 (rounded points weight))) [
  | inl e ↦
      let over : 101 * (2 * weight) ≤ 2 * points + weight =
        (le-div_iff_mul-le (omega (arith, some_weight))).0
          (omega (arith, ltb→lt 100 (rounded points weight) e)) in
      absurd (omega (arith, over, within, some_weight))
  | inr e ↦ ground arith
]

deviated_le : (distance boundary multiplier : ℕ) → deviated distance boundary multiplier ≤ 100
deviated_le distance boundary multiplier = elim (Bool-cases (boundary == 0)) [
  | inl e ↦ rw e (omega arith)
  | inr e ↦
      rw e
        (rounded_le (100 * boundary - distance * multiplier) boundary (ground arith) (omega arith))
]

bounded_score_le :
    (actual : ℕ) (minimum maximum : Option ℕ) (multiplier : ℕ)
    → bounded_score actual minimum maximum multiplier ≤ 100
bounded_score_le actual minimum maximum multiplier = elim (Bool-cases (below actual minimum)) [
  | inl e ↦ rw e (deviated_le (or_else minimum 0 - actual) (or_else minimum 0) multiplier)
  | inr e ↦ rw e (elim (Bool-cases (above actual maximum)) [
    | inl a ↦ rw a (deviated_le (actual - or_else maximum 0) (or_else maximum 0) multiplier)
    | inr a ↦ rw a (omega arith)
  ])
]

range_score-IsScore :
    (value minimum maximum : Option ℕ) (multiplier : ℕ)
    → IsScore (range_score value minimum maximum multiplier)
range_score-IsScore none minimum maximum multiplier = omega arith
range_score-IsScore (some a) none none multiplier = omega arith
range_score-IsScore (some a) (some low) maximum multiplier =
    bounded_score_le a (some low) maximum multiplier
range_score-IsScore (some a) none (some high) multiplier =
    bounded_score_le a none (some high) multiplier

score_bedrooms-IsScore :
    (value minimum maximum : Option ℕ) → IsScore (score_bedrooms value minimum maximum)
score_bedrooms-IsScore none minimum maximum = omega arith
score_bedrooms-IsScore (some a) none none = omega arith
score_bedrooms-IsScore (some a) (some low) maximum = omega arith
score_bedrooms-IsScore (some a) none (some high) = omega arith

price_points_le :
    (o : Option ℕ) → IsScore o → or_else o 0 * price_weight ≤ 100 * weight_if o price_weight
price_points_le none h = omega arith
price_points_le (some a) h = omega (arith, h)

area_points_le :
    (o : Option ℕ) → IsScore o → or_else o 0 * area_weight ≤ 100 * weight_if o area_weight
area_points_le none h = omega arith
area_points_le (some a) h = omega (arith, h)

compatibility_score-IsScore :
    (s : Scores)
    → IsScore s.price
    → IsScore s.area
    → IsScore s.bedrooms
    → IsScore (compatibility_score s)
compatibility_score-IsScore s p a b = elim (Bool-cases (evaluated_weight s == 0)) [
  | inl e ↦ rw e (omega arith)
  | inr e ↦ rw e (
      rounded_le (weighted_points s) (evaluated_weight s) (ground arith) (
        omega
          (arith, price_points_le s.price p, area_points_le s.area a, area_points_le s.bedrooms b)))
]

-- The compatibility score of any unit for any interest is at most 100, and so is the score of each
-- criterion; there is no score exactly where the evaluated weight is 0.
pub score_unit_compatibility-IsScore :
    (i : MatchInterest) (c : MatchRow)
    → IsScore (score_unit_compatibility i c).score
      × IsScore (scores_of i c).price
      × IsScore (scores_of i c).area
      × IsScore (scores_of i c).bedrooms
      × (is_some (score_unit_compatibility i c).score
          ≡ not ((score_unit_compatibility i c).weight == 0))
unfolding score_unit_compatibility
score_unit_compatibility-IsScore i c =
    let price = range_score-IsScore c.price i.min_price i.max_price price_multiplier in
    let area = range_score-IsScore c.area i.min_area i.max_area area_multiplier in
    let bedrooms = score_bedrooms-IsScore c.bedrooms i.min_bedrooms i.max_bedrooms in
    (
      compatibility_score-IsScore (scores_of i c) price area bedrooms,
      price,
      area,
      bedrooms,
      scored (scores_of i c),
    )
  where
    scored : (s : Scores) → is_some (compatibility_score s) ≡ not (evaluated_weight s == 0)
    scored s = elim (Bool-cases (evaluated_weight s == 0)) [ inl e ↦ rw e refl | inr e ↦ rw e refl ]

-- A value that violates neither bound.
abbrev pub IsWithin : Option ℕ → Option ℕ → Option ℕ → Type 0
IsWithin none minimum maximum = Unit {0}
IsWithin (some a) minimum maximum = (below a minimum ≡ false) × (above a maximum ≡ false)

-- A criterion can be compared where the unit has the value and the interest has a bound.
abbrev pub is_compared : Option ℕ → Option ℕ → Option ℕ → Bool
is_compared value minimum maximum = is_some value && (is_some minimum || is_some maximum)

-- The score 100 where a criterion is compared, else none.
abbrev full_if : Bool → Option ℕ
full_if true = some 100
full_if false = none

range_score-full :
    (value minimum maximum : Option ℕ) (multiplier : ℕ)
    → IsWithin value minimum maximum
    → range_score value minimum maximum multiplier ≡ full_if (is_compared value minimum maximum)
range_score-full none minimum maximum multiplier h = refl
range_score-full (some a) none none multiplier h = refl
range_score-full (some a) (some low) maximum multiplier (l, u) = rw l (rw u refl)
range_score-full (some a) none (some high) multiplier (l, u) = rw u refl

score_bedrooms-full :
    (value minimum maximum : Option ℕ)
    → IsWithin value minimum maximum
    → score_bedrooms value minimum maximum ≡ full_if (is_compared value minimum maximum)
score_bedrooms-full none minimum maximum h = refl
score_bedrooms-full (some a) none none h = refl
score_bedrooms-full (some a) (some low) maximum (l, u) = rw l (rw u refl)
score_bedrooms-full (some a) none (some high) (l, u) = rw u refl

compatibility_score-full :
    (p a b : Bool)
    → compatibility_score (record { price = full_if p; area = full_if a; bedrooms = full_if b })
      ≡ full_if (p || a || b)
compatibility_score-full true true true = refl
compatibility_score-full true true false = refl
compatibility_score-full true false true = refl
compatibility_score-full true false false = refl
compatibility_score-full false true true = refl
compatibility_score-full false true false = refl
compatibility_score-full false false true = refl
compatibility_score-full false false false = refl

-- Whether any criterion of a unit can be compared with an interest.
abbrev pub is_comparable : MatchInterest → MatchRow → Bool
is_comparable i c =
    is_compared c.price i.min_price i.max_price
    || is_compared c.area i.min_area i.max_area
    || is_compared c.bedrooms i.min_bedrooms i.max_bedrooms

comparable_score :
    (i : MatchInterest) (c : MatchRow)
    → IsWithin c.price i.min_price i.max_price
    → IsWithin c.area i.min_area i.max_area
    → IsWithin c.bedrooms i.min_bedrooms i.max_bedrooms
    → compatibility_score (scores_of i c) ≡ full_if (is_comparable i c)
comparable_score i c price area bedrooms =
    rw
      (
        range_score-full c.price i.min_price i.max_price price_multiplier price,
        range_score-full c.area i.min_area i.max_area area_multiplier area,
        score_bedrooms-full c.bedrooms i.min_bedrooms i.max_bedrooms bedrooms,
      )
      (compatibility_score-full (is_compared c.price i.min_price i.max_price)
        (is_compared c.area i.min_area i.max_area)
        (is_compared c.bedrooms i.min_bedrooms i.max_bedrooms))

-- A unit whose price, area and bedrooms violate no bound of the interest, where it has them, has the
-- score 100 and is excellent where one of them can be compared, the unit having the value and the
-- interest a bound, and has no score where none can.
pub score_unit_compatibility-full :
    (i : MatchInterest) (c : MatchRow)
    → IsWithin c.price i.min_price i.max_price
    → IsWithin c.area i.min_area i.max_area
    → IsWithin c.bedrooms i.min_bedrooms i.max_bedrooms
    → ((is_comparable i c ≡ true)
        × ((score_unit_compatibility i c).score ≡ some 100)
        × ((score_unit_compatibility i c).level ≡ CompatibilityLevel.excelente))
      ⊎ ((is_comparable i c ≡ false) × ((score_unit_compatibility i c).score ≡ none))
unfolding score_unit_compatibility
score_unit_compatibility-full i c price area bedrooms =
    let e = comparable_score i c price area bedrooms in
    elim (Bool-cases (is_comparable i c)) [
      | inl h ↦
          let full : compatibility_score (scores_of i c) ≡ some 100 = e ∙ rw h refl in
          inl (h, full, ap compatibility_level full)
      | inr h ↦ inr (h, e ∙ rw h refl)
    ]
