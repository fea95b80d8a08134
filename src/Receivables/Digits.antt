-- ===== src/Receivables/Digits.antt =====
-- The numbers in the descriptions of receivables, `description` of
-- src/receivables/receivables.service.ts.
use mathlib.Core.List.{append_assoc}
use harpia_api.Prelude.{
  ℕ, zero, suc, ◌+◌, ◌-◌, ◌*◌, ◌/◌, ◌%◌, ◌<◌, ◌≡◌, refl, ◌∙◌, [], ◌∷◌, ◌++◌, arith, Text, ◌==◌,
  if◌then◌else◌, Bool-cases, inl, inr, ap,
}
use harpia_api.Store.{PaymentConditionType}
use harpia_api.Receivables.Generation.{digits_from, decimal, pad, default_description}

-- The number that a text of decimal digits stands for, read from the left after `read`.
abbrev number_after : ℕ → Text → ℕ
number_after read [] = read
number_after read (c ∷ s) = number_after (read * 10 + (c - 48)) s

-- The number before the next "/" and the number after it.
abbrev fraction_after : ℕ → Text → ℕ × ℕ
fraction_after read [] = (read, 0)
fraction_after read (c ∷ s) =
    let rest = fraction_after (read * 10 + (c - 48)) s in
    if c == 47 then (read, number_after 0 s) else rest

-- The numbers in a text that starts with eight other characters.
abbrev pub numbers_in : Text → ℕ × ℕ
numbers_in (_ ∷ _ ∷ _ ∷ _ ∷ _ ∷ _ ∷ _ ∷ _ ∷ s) = fraction_after 0 s
numbers_in _ = (0, 0)

number_after-digits_from :
    (fuel n : ℕ) (rest : Text)
    → n < fuel
    → number_after 0 (digits_from fuel n rest) ≡ number_after n rest
unfolding digits_from
number_after-digits_from zero n rest h = omega (arith, h)
number_after-digits_from (suc fuel) n rest h = elim (Bool-cases (n / 10 == 0)) [
  | inl e ↦ rw e (ap (λ k. number_after k rest) (ground arith))
  | inr e ↦ rw e (
      number_after-digits_from fuel (n / 10) ((48 + n % 10) ∷ rest) (ground arith)
      ∙ ap (λ k. number_after k rest) (omega arith))
]

fraction_after_digit :
    (read d : ℕ) (s : Text) → fraction_after read ((48 + d) ∷ s) ≡ fraction_after (read * 10 + d) s
fraction_after_digit read d s = elim (Bool-cases (48 + d == 47)) [
  | inl e ↦ ground arith
  | inr e ↦ rw e (ap (λ k. fraction_after (read * 10 + k) s) (omega arith))
]

fraction_after-digits_from :
    (fuel n : ℕ) (rest s : Text)
    → n < fuel
    → fraction_after 0 (digits_from fuel n rest ++ s) ≡ fraction_after n (rest ++ s)
unfolding digits_from
fraction_after-digits_from zero n rest s h = absurd (omega (arith, h))
fraction_after-digits_from (suc fuel) n rest s h = elim (Bool-cases (n / 10 == 0)) [
  | inl e ↦ rw e (
      fraction_after_digit 0 (n % 10) (rest ++ s)
      ∙ ap (λ k. fraction_after k (rest ++ s)) (ground arith))
  | inr e ↦ rw e (
      fraction_after-digits_from fuel (n / 10) ((48 + n % 10) ∷ rest) s (ground arith)
      ∙ fraction_after_digit (n / 10) (n % 10) (rest ++ s)
      ∙ ap (λ k. fraction_after k (rest ++ s)) (omega arith))
]

fraction_after-pad : (t s : Text) → fraction_after 0 (pad t ++ s) ≡ fraction_after 0 (t ++ s)
fraction_after-pad [] s = refl
fraction_after-pad (c ∷ []) s = refl
fraction_after-pad (c ∷ d ∷ t) s = refl

number_after-decimal : (n : ℕ) → number_after 0 (decimal n) ≡ n
unfolding decimal
number_after-decimal n = number_after-digits_from (suc n) n [] (omega arith)

fraction_after-decimal : (n : ℕ) (s : Text) → fraction_after 0 (decimal n ++ s) ≡ fraction_after n s
unfolding decimal
fraction_after-decimal n s = fraction_after-digits_from (suc n) n [] s (omega arith)

-- The default description of an instalment of a plan of type PARCELAS reads back as its number
-- and the number of instalments.
pub numbers_in-default_description :
    (sequence count : ℕ)
    → numbers_in (default_description PaymentConditionType.parcelas sequence count)
      ≡ (sequence, count)
numbers_in-default_description sequence count =
    ap (fraction_after 0) (append_assoc (pad (decimal sequence)) (47 ∷ []) (decimal count))
    ∙ fraction_after-pad (decimal sequence) (47 ∷ decimal count)
    ∙ fraction_after-decimal sequence (47 ∷ decimal count)
    ∙ ap (λ k. (sequence, k)) (number_after-decimal count)
