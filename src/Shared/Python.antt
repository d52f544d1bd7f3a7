-- ===== src/Shared/Python.antt =====
-- What the code takes from Python's standard library and the model does not define: the Unicode
-- tables behind `str.upper` and `str.lower` beyond ASCII, and the reading of a decimal numeral.
use finty.Base.{
  arith, ℕ, ◌+◌, ◌-◌, ◌<◌, ◌⊎◌, inl, inr, All, All-append, Bool-cases, ◌&&◌, Option, [], ◌∷◌, ◌++◌,
  leb, if◌then◌else◌,
}
use finty.Base.Int.{ℤ}
use finty.Base.Text.{Text}

-- `decimal.Decimal`: `finite c e` is c * 10 ^ e.
pub data Decimal : Type 0 where
  finite : ℤ → ℤ → Decimal
  infinite nan : Decimal

-- `upper_other` and `lower_other` are asked only about characters beyond ASCII. `read_decimal` is
-- `Decimal(text)`, with `none` for `InvalidOperation`.
pub record Python : Type 0 where
  pub upper_other : ℕ → Text
  pub lower_other : ℕ → Text
  pub read_decimal : Text → Option Decimal

module _ ⦃p : Python⦄ where
  upper_char : ℕ → Text
  upper_char c =
      if leb 128 c then p.upper_other c else ((if leb b'a' c && leb c b'z' then c - 32 else c) ∷ [])

  lower_char : ℕ → Text
  lower_char c =
      if leb 128 c then p.lower_other c else ((if leb b'A' c && leb c b'Z' then c + 32 else c) ∷ [])

  -- `str.upper()`
  unfoldable pub upper : Text → Text
  unfolding upper_char
  upper [] = []
  upper (c ∷ s) = upper_char c ++ upper s

  -- `str.lower()`
  unfoldable pub lower : Text → Text
  unfolding lower_char
  lower [] = []
  lower (c ∷ s) = lower_char c ++ lower s

abbrev pub IsNotSmall : ℕ → Type 0
IsNotSmall c = (c < b'a') ⊎ (b'z' < c)

-- The Unicode tables give no ASCII small letter as an upper case.
abbrev pub HasCapitals : Python → Type 0
HasCapitals p = (c : ℕ) → All IsNotSmall (p.upper_other c)

module _ ⦃p : Python⦄ (h : HasCapitals p) where
  upper_char-IsNotSmall : (c : ℕ) → All IsNotSmall (upper_char c)
  unfolding upper_char
  upper_char-IsNotSmall c = elim (Bool-cases (leb 128 c)) [
    | inl e ↦ rw e (h c)
    | inr e ↦ rw e (ground arith)
  ]

  pub upper-IsNotSmall : (s : Text) → All IsNotSmall (upper s)
  unfolding upper
  upper-IsNotSmall [] = tt
  upper-IsNotSmall (c ∷ s) =
      All-append IsNotSmall (upper_char c) (upper s) (upper_char-IsNotSmall c) (upper-IsNotSmall s)
