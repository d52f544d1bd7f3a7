-- ===== src/Categorization/Categorizers/Degraded.antt =====
-- `AICategorizer`: when it degrades to its fallback, and what its provider can do to it.
use finty.Base.{◌≡◌, refl, ◌⊎◌, inl, inr, true, some, List, [], ◌∷◌, arith, All, Bool-cases}
use finty.Base.Text.{Text, strip, text_eq, text_eq_iff}
use finty.Shared.Errors.{domain, validation_error, overflow_error, Result, ok, err}
use finty.Shared.Currency.{RawText}
use finty.Finance.ValueObjects.{
  TransactionType, Raw, ai, Float, finite, infinity, minus_infinity, nan, float_leb,
  CategorySuggestion, category_suggestion,
}
use finty.Categorization.Categorizers.{
  RawConfidence, number, not_numeric, too_large, Answer, failed, pair, Provider, Categorizer, clamp,
  is_member, with_confidence, suggestion_or_fallback, ai_categorize,
}
use finty.Categorization.Categorizers.Rules.{IsName, IsConfidence, category_suggestion_lem}

-- `float` reads the confidence, or refuses it as the code expects; it is not NaN.
abbrev pub IsUsable : RawConfidence → Type 0
IsUsable (number nan) = ⊥
IsUsable (number (finite _)) = Unit
IsUsable (number infinity) = Unit
IsUsable (number minus_infinity) = Unit
IsUsable not_numeric = Unit
IsUsable too_large = ⊥

clamp-IsConfidence : (c : Float) → IsUsable (number c) → IsConfidence (clamp c)
unfolding clamp float_leb
clamp-IsConfidence (finite z) u = ground arith
clamp-IsConfidence infinity u = (refl, refl)
clamp-IsConfidence minus_infinity u = (refl, refl)
clamp-IsConfidence nan u = absurd u

clamp-nan : clamp nan ≡ nan
unfolding clamp float_leb
clamp-nan = refl

is_member-IsName :
    (s : Text) (names : List Text) → All IsName names → is_member s names ≡ true → IsName s
unfolding is_member
is_member-IsName s [] h e = cc
is_member-IsName s (t ∷ names) (here, rest) e = elim (Bool-cases (text_eq s t)) [
  | inl same ↦ rw ((text_eq_iff s t).0 same) here
  | inr other ↦ is_member-IsName s names rest (rw other at e)
]

-- What the provider is trusted with: a name of the list, and a confidence in range.
pub record IsTrusted (allowed : List Text) (g : CategorySuggestion) : Type 0 where
  pub by_provider : g.source ≡ ai
  pub allowed_name : is_member g.category_name allowed ≡ true
  pub in_range : IsConfidence g.confidence

-- The answer has an allowed name, and a confidence that the code does not foresee.
abbrev pub IsUnforeseen : List Text → Answer → Type 0
IsUnforeseen allowed failed = ⊥
IsUnforeseen allowed (pair RawText.other c) = ⊥
IsUnforeseen allowed (pair (RawText.text name) c) =
    (is_member (strip name) allowed ≡ true) × (IsUsable c → ⊥)

with_confidence-answers :
    (allowed : List Text) (fallback : Result CategorySuggestion) (name : Text) (c : RawConfidence)
    → IsName (strip name)
    → is_member (strip name) allowed ≡ true
    → IsUsable c
    → (with_confidence fallback name c ≡ fallback)
      ⊎ ((g : CategorySuggestion) × (with_confidence fallback name c ≡ ok g) × IsTrusted allowed g)
unfolding with_confidence
with_confidence-answers allowed fallback name not_numeric clean m u = inl refl
with_confidence-answers allowed fallback name too_large clean m u = absurd u
with_confidence-answers allowed fallback name (number c) clean m u = inr (
  record { category_name = strip name; confidence = clamp c; source = ai },
  category_suggestion_lem (strip name) (clamp c) ai clean (clamp-IsConfidence c u),
  record { by_provider = refl; allowed_name = m; in_range = clamp-IsConfidence c u },
)

IsUsable-cases : (c : RawConfidence) → IsUsable c ⊎ (IsUsable c → ⊥)
IsUsable-cases (number (finite _)) = inl tt
IsUsable-cases (number infinity) = inl tt
IsUsable-cases (number minus_infinity) = inl tt
IsUsable-cases (number nan) = inr (λ u. u)
IsUsable-cases not_numeric = inl tt
IsUsable-cases too_large = inr (λ u. u)

suggestion_or_fallback-answers :
    (allowed : List Text) (fallback : Result CategorySuggestion) (a : Answer)
    → All IsName allowed
    → (IsUnforeseen allowed a → ⊥)
    → (suggestion_or_fallback allowed fallback a ≡ fallback)
      ⊎ ((g : CategorySuggestion) × (suggestion_or_fallback allowed fallback a ≡ ok g)
          × IsTrusted allowed g)
unfolding suggestion_or_fallback
suggestion_or_fallback-answers allowed fallback failed h no_bad = inl refl
suggestion_or_fallback-answers allowed fallback (pair RawText.other c) h no_bad = inl refl
suggestion_or_fallback-answers allowed fallback (pair (RawText.text name) c) h no_bad =
    elim (Bool-cases (is_member (strip name) allowed)) [
      | inr n ↦ rw n (inl refl)
      | inl m ↦ rw m (elim (IsUsable-cases c) [
        | inl u ↦
            with_confidence-answers allowed fallback name c
              (is_member-IsName (strip name) allowed h m) m u
        | inr bad ↦ absurd (no_bad (m, bad))
      ])
    ]

-- For allowed names that are stripped and not empty, and a provider that does not answer an
-- allowed name with NaN or with an integer beyond the range of floats: the AI categorizer gives
-- what its fallback gives, or a suggestion of the provider with an allowed name and a confidence
-- in range.
pub ai_categorize-answers :
    (ask : Provider) (fallback : Categorizer) (allowed : List Text) (d : RawText)
    (t : Raw TransactionType)
    → All IsName allowed
    → (IsUnforeseen allowed (ask d t) → ⊥)
    → (ai_categorize (some ask) fallback allowed d t ≡ fallback d t)
      ⊎ ((g : CategorySuggestion) × (ai_categorize (some ask) fallback allowed d t ≡ ok g)
          × IsTrusted allowed g)
unfolding ai_categorize
ai_categorize-answers ask fallback allowed d t h no_bad =
    suggestion_or_fallback-answers allowed (fallback d t) (ask d t) h no_bad

-- The two errors that leave the categorizer.
abbrev pub IsLeak : Result CategorySuggestion → Type 0
IsLeak r = (r ≡ err (domain validation_error)) ⊎ (r ≡ err overflow_error)

with_confidence-IsLeak :
    (fallback : Result CategorySuggestion) (name : Text) (c : RawConfidence)
    → IsName (strip name)
    → (IsUsable c → ⊥)
    → IsLeak (with_confidence fallback name c)
unfolding with_confidence category_suggestion float_leb
with_confidence-IsLeak fallback name not_numeric clean bad = absurd (bad tt)
with_confidence-IsLeak fallback name too_large clean bad = inr refl
with_confidence-IsLeak fallback name (number (finite z)) clean bad = absurd (bad tt)
with_confidence-IsLeak fallback name (number infinity) clean bad = absurd (bad tt)
with_confidence-IsLeak fallback name (number minus_infinity) clean bad = absurd (bad tt)
with_confidence-IsLeak fallback name (number nan) (same, full) bad =
    inl (rw (clamp-nan, same, full) refl)

suggestion_or_fallback-IsLeak :
    (allowed : List Text) (fallback : Result CategorySuggestion) (a : Answer)
    → All IsName allowed
    → IsUnforeseen allowed a
    → IsLeak (suggestion_or_fallback allowed fallback a)
unfolding suggestion_or_fallback
suggestion_or_fallback-IsLeak allowed fallback failed h bad = absurd bad
suggestion_or_fallback-IsLeak allowed fallback (pair RawText.other c) h bad = absurd bad
suggestion_or_fallback-IsLeak allowed fallback (pair (RawText.text name) c) h (m, bad) =
    rw m (with_confidence-IsLeak fallback name c (is_member-IsName (strip name) allowed h m) bad)

-- For allowed names that are stripped and not empty, a provider that answers an allowed name with
-- NaN or with an integer beyond the range of floats makes the AI categorizer raise, whatever its
-- fallback.
pub ai_categorize-IsLeak :
    (ask : Provider) (fallback : Categorizer) (allowed : List Text) (d : RawText)
    (t : Raw TransactionType)
    → All IsName allowed
    → IsUnforeseen allowed (ask d t)
    → IsLeak (ai_categorize (some ask) fallback allowed d t)
unfolding ai_categorize
ai_categorize-IsLeak ask fallback allowed d t h bad =
    suggestion_or_fallback-IsLeak allowed (fallback d t) (ask d t) h bad
