-- ===== src/Finance/Translate/Drafted.antt =====
-- What the draft of `register_transaction` takes from the arguments of the call.
use finty.Base.{ℕ, ◌≡◌, refl, ◌∙◌, ap, sym, subst, [], Option, none, some}
use mathlib.Core.Option.{some-injective}
use finty.Base.Text.{Text, strip}
use finty.Shared.Errors.{ok, >>=-eq-ok, >>-eq-ok, ok-injective}
use finty.Shared.Python.{Python}
use finty.Shared.Currency.{RawText, text}
use finty.Shared.Money.{Money}
use finty.Finance.ValueObjects.{
  TransactionType, CategorizationSource, manual, Float, Raw, CategorySuggestion, TransactionDraft,
  AccountSnapshot, transaction_type_from_value,
}
use finty.Finance.Builders
use finty.Finance.Builders.{
  Categorizer, TransactionBuilder, manual_category_confidence, transaction_builder, for_account,
  with_amount, described_as, resolve_manual, resolve_category_with, resolve_category,
}
use finty.Finance.Builders.Built.{IsBuilt, build-IsBuilt}
use finty.Finance.Translate.{Amount, as_money, transaction_draft}

-- The category of a movement: the name that was given, stripped, as a manual choice; or, where none
-- was given, the suggestion of the categorizer for the movement.
pub data IsChosen (categorizer : Categorizer) (given : Option RawText) (description : Text)
    (m : Money) (t : TransactionType) (name : Text) (source : CategorizationSource)
    (confidence : Float) : Type 0 where
  by_hand :
      (n : Text)
      → given ≡ some (text n)
      → name ≡ strip n
      → source ≡ manual
      → confidence ≡ manual_category_confidence
      → IsChosen categorizer given description m t name source confidence
  by_categorizer :
      (g : CategorySuggestion)
      → given ≡ none
      → categorizer description m t ≡ ok g
      → name ≡ g.category_name
      → source ≡ g.source
      → confidence ≡ g.confidence
      → IsChosen categorizer given description m t name source confidence

-- The text of a description that was given or not.
abbrev pub cleaned : Option Text → Text
cleaned none = []
cleaned (some s) = strip s

-- The draft has the amount, the type, the day, the description and the category of the call.
pub record IsRequested ⦃p : Python⦄ (categorizer : Categorizer) (s : AccountSnapshot)
    (amount : Amount) (kind : Raw TransactionType) (day : ℕ) (description : Option Text)
    (given : Option RawText) (d : TransactionDraft) : Type 0 where
  pub name : Text
  pub source : CategorizationSource
  pub confidence : Float
  pub paid : as_money amount (text s.currency) ≡ ok d.amount
  pub type : transaction_type_from_value kind ≡ ok d.transaction_type
  pub at_day : d.occurred_on ≡ day
  pub described : d.description ≡ cleaned description
  pub named : d.category_name ≡ some name
  pub sourced : d.categorization_source ≡ some source
  pub sure : d.confidence ≡ some confidence
  pub chosen :
      IsChosen categorizer given d.description d.amount d.transaction_type name source confidence

-- What the category of a builder resolves to.
record IsResolved (categorizer : Categorizer) (given : Option RawText) (d : TransactionDraft)
    : Type 0 where
  name : Text
  source : CategorizationSource
  confidence : Float
  named : d.category_name ≡ some name
  sourced : d.categorization_source ≡ some source
  sure : d.confidence ≡ some confidence
  chosen :
      IsChosen categorizer given d.description d.amount d.transaction_type name source confidence

IsResolved-by_hand :
    (c : Categorizer) (n : Text) (d : TransactionDraft)
    → resolve_category_with none (some (strip n)) d.description d.amount d.transaction_type
      ≡ ok (d.category_name, d.categorization_source, d.confidence)
    → IsResolved c (some (text n)) d
unfolding resolve_category_with resolve_manual
IsResolved-by_hand c n d e =
    let (_, h) = >>-eq-ok _ _ e in
    let same = ok-injective h in
    record {
      name = strip n;
      source = manual;
      confidence = manual_category_confidence;
      named = ap (λ x. x.0) (sym same);
      sourced = ap (λ x. x.1) (sym same);
      sure = ap (λ x. x.2) (sym same);
      chosen = by_hand n refl refl refl refl;
    }

IsResolved-by_categorizer :
    (c : Categorizer) (manual_name : Option Text) (d : TransactionDraft)
    → resolve_category_with (some c) manual_name d.description d.amount d.transaction_type
      ≡ ok (d.category_name, d.categorization_source, d.confidence)
    → IsResolved c none d
unfolding resolve_category_with
IsResolved-by_categorizer c manual_name d e =
    let (g, e₁, e₂) = >>=-eq-ok _ _ e in
    let (_, h) = >>-eq-ok _ _ e₂ in
    let same = ok-injective h in
    record {
      name = g.category_name;
      source = g.source;
      confidence = g.confidence;
      named = ap (λ x. x.0) (sym same);
      sourced = ap (λ x. x.1) (sym same);
      sure = ap (λ x. x.2) (sym same);
      chosen = by_categorizer g refl e₁ refl refl refl;
    }

-- The builder before its category.
abbrev filled : AccountSnapshot → Money → TransactionType → ℕ → Option Text → TransactionBuilder
filled s m t day description = described_as description (
    Builders.occurred_on day
      (record (with_amount m (for_account s transaction_builder)) { transaction_type = some t }))

-- What the builder holds after its category.
record IsFilled (c : Categorizer) (given : Option RawText) (m : Money) (t : TransactionType)
    (set_day : ℕ) (words : Text) (b : TransactionBuilder) : Type 0 where
  amount : b.amount ≡ some m
  type : b.transaction_type ≡ some t
  day : b.occurred_on ≡ some set_day
  description : b.description ≡ words
  resolves :
      (d : TransactionDraft)
      → resolve_category b d.amount d.transaction_type
        ≡ ok (d.category_name, d.categorization_source, d.confidence)
      → d.description ≡ b.description
      → IsResolved c given d

filled-by_hand :
    (c : Categorizer) (n : Text) (s : AccountSnapshot) (m : Money) (t : TransactionType) (day : ℕ)
    (w : Option Text)
    → IsFilled c
        (some (text n))
        m
        t
        day
        (cleaned w)
        (record (filled s m t day w) { manual_category = some (strip n) })
unfolding resolve_category
filled-by_hand c n s m t day none = record {
  amount = refl;
  type = refl;
  day = refl;
  description = refl;
  resolves = λ d e h. IsResolved-by_hand c n d (rw h e);
}
filled-by_hand c n s m t day (some w) = record {
  amount = refl;
  type = refl;
  day = refl;
  description = refl;
  resolves = λ d e h. IsResolved-by_hand c n d (rw h e);
}

filled-by_categorizer :
    (c : Categorizer) (s : AccountSnapshot) (m : Money) (t : TransactionType) (day : ℕ)
    (w : Option Text)
    → IsFilled c none m t day (cleaned w) (record (filled s m t day w) { categorizer = some c })
unfolding resolve_category
filled-by_categorizer c s m t day none = record {
  amount = refl;
  type = refl;
  day = refl;
  description = refl;
  resolves = λ d e h. IsResolved-by_categorizer c none d (rw h e);
}
filled-by_categorizer c s m t day (some w) = record {
  amount = refl;
  type = refl;
  day = refl;
  description = refl;
  resolves = λ d e h. IsResolved-by_categorizer c none d (rw h e);
}

categorize-IsFilled :
    (c : Categorizer) (given : Option RawText) (s : AccountSnapshot) (m : Money)
    (t : TransactionType) (day : ℕ) (w : Option Text) {b : TransactionBuilder}
    → elim given [
      | some name ↦ Builders.with_manual_category name (filled s m t day w)
      | none ↦ Builders.categorized_by c (filled s m t day w)
    ]
      ≡ ok b
    → IsFilled c given m t day (cleaned w) b
unfolding Builders.with_manual_category Builders.categorized_by
categorize-IsFilled c none s m t day w e =
    let (_, h) = >>-eq-ok _ _ e in
    subst (IsFilled c none m t day (cleaned w)) (ok-injective h)
      (filled-by_categorizer c s m t day w)
categorize-IsFilled c (some RawText.other) s m t day w e = cc
categorize-IsFilled c (some (RawText.text n)) s m t day w e =
    let (_, h₁) = >>-eq-ok _ _ e in
    let (_, h) = >>-eq-ok _ _ h₁ in
    subst (IsFilled c (some (text n)) m t day (cleaned w)) (ok-injective h)
      (filled-by_hand c n s m t day w)

-- The same from the builder with the type.
typed-IsFilled :
    (c : Categorizer) (given : Option RawText) (s : AccountSnapshot) (m : Money)
    (t : TransactionType) (day : ℕ) (w : Option Text) (b₁ : TransactionBuilder)
    {b : TransactionBuilder}
    → record (with_amount m (for_account s transaction_builder)) { transaction_type = some t } ≡ b₁
    → elim given [
      | some name ↦
          Builders.with_manual_category name (described_as w (Builders.occurred_on day b₁))
      | none ↦ Builders.categorized_by c (described_as w (Builders.occurred_on day b₁))
    ]
      ≡ ok b
    → IsFilled c given m t day (cleaned w) b
typed-IsFilled c none s m t day w b₁ {b = b} same e = categorize-IsFilled c none s m t day w (
    subst (λ x. Builders.categorized_by c (described_as w (Builders.occurred_on day x)) ≡ ok b)
      (sym same) e)
typed-IsFilled c (some n) s m t day w b₁ {b = b} same e =
    categorize-IsFilled c (some n) s m t day w (
      subst
        (λ x. Builders.with_manual_category n (described_as w (Builders.occurred_on day x)) ≡ ok b)
        (sym same) e)

module _ ⦃p : Python⦄ where
  requested :
      (c : Categorizer) (s : AccountSnapshot) (a : Amount) (k : Raw TransactionType) (day : ℕ)
      (w : Option Text) (given : Option RawText) (m : Money) (t : TransactionType)
      (b : TransactionBuilder) (d : TransactionDraft)
      → as_money a (text s.currency) ≡ ok m
      → transaction_type_from_value k ≡ ok t
      → IsFilled c given m t day (cleaned w) b
      → IsBuilt b d
      → IsRequested c s a k day w given d
  requested c s a k day w given m t b d paid typed f built =
      let r = f.resolves d built.resolved built.description in
      let amount : m ≡ d.amount = some-injective _ _ (sym f.amount ∙ built.amount) in
      let type : t ≡ d.transaction_type = some-injective _ _ (sym f.type ∙ built.type) in
      let at_day : day ≡ d.occurred_on = some-injective _ _ (sym f.day ∙ built.day) in
      record {
        name = r.name;
        source = r.source;
        confidence = r.confidence;
        paid = paid ∙ ap ok amount;
        type = typed ∙ ap ok type;
        at_day = sym at_day;
        described = built.description ∙ f.description;
        named = r.named;
        sourced = r.sourced;
        sure = r.sure;
        chosen = r.chosen;
      }

  -- The draft that `register_transaction` gets is the one that the call asks for.
  pub transaction_draft-IsRequested :
      (c : Categorizer) (today : ℕ) (s : AccountSnapshot) (a : Amount) (k : Raw TransactionType)
      (day : ℕ) (w : Option Text) (given : Option RawText) {d : TransactionDraft}
      → transaction_draft c today s a k day w given ≡ ok d
      → IsRequested c s a k day w given d
  unfolding transaction_draft Builders.of_type
  transaction_draft-IsRequested c today s a k day w given {d = d} e =
      let (m, paid, e₁) = >>=-eq-ok _ _ e in
      let (b₁, typed, e₂) = >>=-eq-ok _ _ e₁ in
      let (t, of_kind, same) = >>=-eq-ok _ _ typed in
      let (b₃, chosen, e₃) = >>=-eq-ok _ _ e₂ in
      let f = typed-IsFilled c given s m t day w b₁ (ok-injective same) chosen in
      requested c s a k day w given m t b₃ d paid of_kind f (build-IsBuilt b₃ today e₃)
