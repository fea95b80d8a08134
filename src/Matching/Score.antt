-- ===== src/Matching/Score.antt =====
-- src/crm/unit-compatibility-score.ts: the score of a unit for an interest. Prices and areas are in
-- hundredths, and the quotients are exact: the twenty digits of the source's decimals round to the
-- same whole numbers for values below 10^15 hundredths.
use harpia_api.Prelude.{
  ℕ, ◌+◌, ◌-◌, ◌*◌, ◌/◌, Bool, false, Option, none, some, ltb, leb, ◌==◌, if◌then◌else◌, or_else,
}

-- COMPATIBILITY_WEIGHTS and COMPATIBILITY_DEVIATION_MULTIPLIERS
abbrev pub price_weight : ℕ
price_weight = 50

abbrev pub area_weight : ℕ
area_weight = 25

abbrev pub bedrooms_weight : ℕ
bedrooms_weight = 25

abbrev pub price_multiplier : ℕ
price_multiplier = 1000

abbrev pub area_multiplier : ℕ
area_multiplier = 500

pub data CompatibilityLevel : Type 0 where
  excelente alta moderada baixa not_evaluated : CompatibilityLevel

-- The bound that a value violates.
abbrev pub below : ℕ → Option ℕ → Bool
below actual none = false
below actual (some minimum) = ltb actual minimum

abbrev pub above : ℕ → Option ℕ → Bool
above actual none = false
above actual (some maximum) = ltb maximum actual

-- The numerator of `actual.minus(boundary).abs().mul(multiplier)` over the boundary: 100 less that,
-- to the nearest whole number, halves up, between 0 and 100 (`clampScore`).
abbrev pub deviated : ℕ → ℕ → ℕ → ℕ
deviated distance boundary multiplier =
    if boundary == 0
    then 0
    else (2 * (100 * boundary - distance * multiplier) + boundary) / (2 * boundary)

-- `rangeScore` for a value with a bound
abbrev pub bounded_score : ℕ → Option ℕ → Option ℕ → ℕ → ℕ
bounded_score actual minimum maximum multiplier =
    if below actual minimum
    then deviated (or_else minimum 0 - actual) (or_else minimum 0) multiplier
    else if above actual maximum
    then deviated (actual - or_else maximum 0) (or_else maximum 0) multiplier
    else 100

-- `rangeScore`
abbrev pub range_score : Option ℕ → Option ℕ → Option ℕ → ℕ → Option ℕ
range_score none minimum maximum multiplier = none
range_score (some actual) none none multiplier = none
range_score (some actual) (some low) maximum multiplier =
    some (bounded_score actual (some low) maximum multiplier)
range_score (some actual) none (some high) multiplier =
    some (bounded_score actual none (some high) multiplier)

abbrev pub score_price : Option ℕ → Option ℕ → Option ℕ → Option ℕ
score_price price minimum maximum = range_score price minimum maximum price_multiplier

abbrev pub score_area : Option ℕ → Option ℕ → Option ℕ → Option ℕ
score_area area minimum maximum = range_score area minimum maximum area_multiplier

abbrev pub bedroom_distance : ℕ → Option ℕ → Option ℕ → ℕ
bedroom_distance bedrooms minimum maximum =
    if below bedrooms minimum
    then or_else minimum 0 - bedrooms
    else if above bedrooms maximum
    then bedrooms - or_else maximum 0
    else 0

-- `Math.max(0, 100 - distance * 50)`
abbrev pub score_bedrooms : Option ℕ → Option ℕ → Option ℕ → Option ℕ
score_bedrooms none minimum maximum = none
score_bedrooms (some bedrooms) none none = none
score_bedrooms (some bedrooms) (some low) maximum =
    some (100 - bedroom_distance bedrooms (some low) maximum * 50)
score_bedrooms (some bedrooms) none (some high) =
    some (100 - bedroom_distance bedrooms none (some high) * 50)

abbrev pub compatibility_level : Option ℕ → CompatibilityLevel
compatibility_level none = CompatibilityLevel.not_evaluated
compatibility_level (some score) =
    if leb 90 score
    then CompatibilityLevel.excelente
    else if leb 75 score
    then CompatibilityLevel.alta
    else if leb 50 score
    then CompatibilityLevel.moderada
    else CompatibilityLevel.baixa

-- The bounds of a MatchInterest and the values of a MatchRow that are scored.
pub record MatchInterest : Type 0 where
  pub min_price : Option ℕ
  pub max_price : Option ℕ
  pub min_area : Option ℕ
  pub max_area : Option ℕ
  pub min_bedrooms : Option ℕ
  pub max_bedrooms : Option ℕ

pub record MatchRow : Type 0 where
  pub price : Option ℕ
  pub area : Option ℕ
  pub bedrooms : Option ℕ

pub record Scores : Type 0 where
  pub price : Option ℕ
  pub area : Option ℕ
  pub bedrooms : Option ℕ

abbrev pub scores_of : MatchInterest → MatchRow → Scores
scores_of i c = record {
  price = score_price c.price i.min_price i.max_price;
  area = score_area c.area i.min_area i.max_area;
  bedrooms = score_bedrooms c.bedrooms i.min_bedrooms i.max_bedrooms;
}

abbrev pub weight_if : Option ℕ → ℕ → ℕ
weight_if none weight = 0
weight_if (some score) weight = weight

abbrev pub evaluated_weight : Scores → ℕ
evaluated_weight s =
    weight_if s.price price_weight
    + weight_if s.area area_weight
    + weight_if s.bedrooms bedrooms_weight

abbrev pub weighted_points : Scores → ℕ
weighted_points s =
    or_else s.price 0 * price_weight
    + or_else s.area 0 * area_weight
    + or_else s.bedrooms 0 * bedrooms_weight

-- `Math.round(points / weight)`, halves up
abbrev pub rounded : ℕ → ℕ → ℕ
rounded points weight = (2 * points + weight) / (2 * weight)

abbrev pub compatibility_score : Scores → Option ℕ
compatibility_score s =
    if evaluated_weight s == 0
    then none
    else some (rounded (weighted_points s) (evaluated_weight s))

pub record Compatibility : Type 0 where
  pub score : Option ℕ
  pub level : CompatibilityLevel
  pub weight : ℕ

-- `scoreUnitCompatibility`, without the texts of `scoreFactors`
unfoldable pub score_unit_compatibility : MatchInterest → MatchRow → Compatibility
score_unit_compatibility i c = record {
  score = compatibility_score (scores_of i c);
  level = compatibility_level (compatibility_score (scores_of i c));
  weight = evaluated_weight (scores_of i c);
}
