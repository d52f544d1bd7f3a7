-- ===== src/Shared/Currency.antt =====
-- `validate_currency_code` (services/finance-service/domain/shared/value_objects.py).
use finty.Base.{
  ℕ, ◌≤◌, ◌≡◌, refl, Bool, true, ◌&&◌, ◌||◌, [], ◌∷◌, arith, leb, ◌==◌, if◌then◌else◌, length, All,
}
use finty.Base.Text.{Text, strip, strip-letters3, is_space-upper_letter}
use finty.Shared.Errors.{domain, validation_error, Result, ok, err}
use finty.Shared.Python.{Python, upper, IsNotSmall, HasCapitals, upper-IsNotSmall}

abbrev pub currency_code_length : ℕ
currency_code_length = 3

-- What is handed over as a text: a `str`, or a value of another type.
pub data RawText : Type 0 where
  text : Text → RawText
  other : RawText

-- `str.isascii()` and `str.isalpha()` of one character.
abbrev is_ascii_letter : ℕ → Bool
is_ascii_letter c = (leb b'A' c && leb c b'Z') || (leb b'a' c && leb c b'z')

all_letters : Text → Bool
all_letters [] = true
all_letters (c ∷ s) = is_ascii_letter c && all_letters s

check_code : Text → Result Text
unfolding all_letters
check_code s =
    if length s == currency_code_length && all_letters s
    then ok s
    else err (domain validation_error)

module _ ⦃p : Python⦄ where
  unfoldable pub validate_currency_code : RawText → Result Text
  unfolding check_code
  validate_currency_code (text code) = check_code (upper (strip code))
  validate_currency_code other = err (domain validation_error)

-- A normalised code: three ASCII capitals.
abbrev pub IsCapital : ℕ → Type 0
IsCapital c = (b'A' ≤ c) × (c ≤ b'Z')

abbrev pub IsCode : Text → Type 0
IsCode s = (length s ≡ currency_code_length) × All IsCapital s

module _ ⦃p : Python⦄ where
  upper-code : (s : Text) → All IsCapital s → upper s ≡ s
  unfolding upper
  upper-code [] h = refl
  upper-code (c ∷ s) ((l, r), h) = ground (arith, upper-code s h)

  all_letters-code : (s : Text) → All IsCapital s → all_letters s ≡ true
  unfolding all_letters
  all_letters-code [] h = refl
  all_letters-code (c ∷ s) ((l, r), h) = ground (arith, all_letters-code s h)

  strip-code : (s : Text) → IsCode s → strip s ≡ s
  strip-code [] h = absurd (omega arith)
  strip-code (a ∷ []) h = absurd (omega arith)
  strip-code (a ∷ b ∷ []) h = absurd (omega arith)
  strip-code (a ∷ b ∷ c ∷ []) (_, ((al, ar), (_, ((cl, cr), _)))) =
      strip-letters3 a b c (is_space-upper_letter a al ar) (is_space-upper_letter c cl cr)
  strip-code (a ∷ b ∷ c ∷ d ∷ s) h = absurd (omega arith)

  -- A normalised code is accepted as it stands.
  pub validate-code : (s : Text) → IsCode s → validate_currency_code (text s) ≡ ok s
  unfolding validate_currency_code
  validate-code s h = rw (strip-code s h, upper-code s h.1, h.0, all_letters-code s h.1)

  check_code-IsCode :
      (s : Text) {c : Text} → All IsNotSmall s → check_code s ≡ ok c → (c ≡ s) × IsCode c
  unfolding check_code
  check_code-IsCode [] n e = cc
  check_code-IsCode (a ∷ []) n e = ground arith
  check_code-IsCode (a ∷ b ∷ []) n e = ground arith
  check_code-IsCode (a ∷ b ∷ d ∷ []) n e = ground arith
  check_code-IsCode (a ∷ b ∷ d ∷ x ∷ s) n e = ground arith

  -- Where upper case never gives a small ASCII letter, a currency code that is accepted is three
  -- ASCII capitals, the stripped text in upper case.
  pub validate-IsCode :
      (s : Text) {c : Text}
      → HasCapitals p
      → validate_currency_code (text s) ≡ ok c
      → (c ≡ upper (strip s)) × IsCode c
  unfolding validate_currency_code
  validate-IsCode s h e = check_code-IsCode (upper (strip s)) (upper-IsNotSmall h (strip s)) e
