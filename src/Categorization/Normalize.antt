-- ===== src/Categorization/Normalize.antt =====
-- `normalize_description` (services/categorization-service/infra/categorizers.py). The tables behind
-- `unicodedata` are parameters.
use finty.Base.{ℕ, Bool, true, false, not, ◌&&◌, ◌||◌, [], ◌∷◌, leb, if◌then◌else◌, keep}
use finty.Base.Text.{Text, strip, is_space}
use finty.Shared.Python.{Python, lower}
use finty.Shared.Currency.{RawText, text, other}

-- `unicodedata.normalize("NFKD", s)`, and whether `unicodedata.combining(c)` is not zero.
pub record Unicode : Type 0 where
  pub nfkd : Text → Text
  pub combining : ℕ → Bool

-- What `_NON_ALPHANUMERIC` leaves alone.
abbrev pub is_alphanumeric : ℕ → Bool
is_alphanumeric c = (leb b'0' c && leb c b'9') || (leb b'a' c && leb c b'z')

-- `re.sub(r"[...]+", " ", s)`: each run of characters of a class becomes one space. The flag says
-- whether the character before was one of the run.
unfoldable pub sub_runs : (ℕ → Bool) → Bool → Text → Text
sub_runs among inside [] = []
sub_runs among inside (c ∷ s) = elim (among c) [
  | false ↦ c ∷ sub_runs among false s
  | true ↦ if inside then sub_runs among true s else b' ' ∷ sub_runs among true s
]

module _ ⦃p : Python⦄ ⦃u : Unicode⦄ where
  without_accents : Text → Text
  without_accents s = keep (λ c. not (u.combining c)) (u.nfkd (lower s))

  unfoldable pub normalize_description : RawText → Text
  unfolding without_accents is_space
  normalize_description other = []
  normalize_description (text s) =
      let cleaned = sub_runs (λ c. not (is_alphanumeric c)) false (without_accents s) in
      strip (sub_runs is_space false cleaned)
