-- ===== src/Tests/Matching.antt =====
-- The match of a unit with an interest, at values of src/crm/unit-compatibility-score.spec.ts.
use harpia_api.Prelude.{◌≡◌, ◌⊎◌, refl, none, some, ◌==◌, not, is_some, true, false}
use harpia_api.Matching.Score.{
  CompatibilityLevel, MatchInterest, MatchRow, score_price, scores_of, score_unit_compatibility,
}
use harpia_api.Matching.ScoreLaws.{
  IsScore, score_unit_compatibility-IsScore, score_unit_compatibility-full, is_comparable,
}

-- A price of 105 for at most 100 is five hundredths off, 50 of the score.
price_test : score_price (some 10500) none (some 10000) ≡ some 50
price_test = refl

abbrev interest : MatchInterest
interest = record {
  min_price = none;
  max_price = some 50000;
  min_area = some 6000;
  max_area = none;
  min_bedrooms = some 2;
  max_bedrooms = some 3;
}

abbrev far : MatchRow
far = record { price = some 51000; area = none; bedrooms = some 1 }

abbrev near : MatchRow
near = record { price = some 48000; area = none; bedrooms = some 3 }

far_test : (score_unit_compatibility interest far).score ≡ some 70
unfolding score_unit_compatibility
far_test = refl

score_unit_compatibility-IsScore_example :
    IsScore (score_unit_compatibility interest far).score
    × IsScore (scores_of interest far).price
    × IsScore (scores_of interest far).area
    × IsScore (scores_of interest far).bedrooms
    × (is_some (score_unit_compatibility interest far).score
        ≡ not ((score_unit_compatibility interest far).weight == 0))
score_unit_compatibility-IsScore_example = score_unit_compatibility-IsScore interest far

score_unit_compatibility-full_example :
    ((is_comparable interest near ≡ true)
      × ((score_unit_compatibility interest near).score ≡ some 100)
      × ((score_unit_compatibility interest near).level ≡ CompatibilityLevel.excelente))
    ⊎ ((is_comparable interest near ≡ false)
        × ((score_unit_compatibility interest near).score ≡ none))
score_unit_compatibility-full_example =
    score_unit_compatibility-full interest near (refl, refl) tt (refl, refl)
