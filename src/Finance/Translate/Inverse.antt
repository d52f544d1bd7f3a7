-- ===== src/Finance/Translate/Inverse.antt =====
-- What the translations say of the rows they read, when they return.
use mathlib.Core.Option.{some-injective}
use finty.Base.{ℕ, ◌≡◌, refl, ◌∙◌, ap, sym, Option, none, some, arith}
use finty.Base.Text.{Text}
use finty.Shared.Errors.{ok, ◌>>◌, >>=-eq-ok, >>-eq-ok, ok-injective}
use finty.Shared.Python.{Python}
use finty.Shared.Currency.{RawText, text, validate_currency_code}
use finty.Shared.Money.Laws.{money-ok}
use finty.Finance.ValueObjects.{
  TransactionType, Raw, TransactionDraft, AccountSnapshot, account_snapshot,
  account_type_from_value,
}
use finty.Finance.Builders
use finty.Finance.Builders.{Categorizer, TransactionBuilder, described_as}
use finty.Finance.Builders.Draft.{IsDraft, build-IsDraft}
use finty.Finance.Store.{Account}
use finty.Finance.Translate.{Amount, build_snapshot, transaction_draft}

pub record IsSnapshot (a : Account) (s : AccountSnapshot) : Type 0 where
  pub id : s.account_id ≡ a.id
  pub type : s.account_type ≡ a.type
  pub archived : s.is_archived ≡ a.is_archived
  pub balance : s.balance.amount ≡ a.balance

module _ ⦃p : Python⦄ where
  pub build_snapshot-ok :
      (a : Account) {s : AccountSnapshot} → build_snapshot a ≡ ok s → IsSnapshot a s
  unfolding build_snapshot account_snapshot account_type_from_value
  build_snapshot-ok a e =
      let (m, e₁, e₂) = >>=-eq-ok _ _ e in
      let (t, e₃, e₄) = >>=-eq-ok _ _ e₂ in
      let (c, e₅, e₆) = >>=-eq-ok _ _ e₄ in
      let (same, e₇) = >>-eq-ok _ _ e₆ in
      let amount = (money-ok _ _ e₁).0 in
      let built = ok-injective e₇ in
      record {
        id = ap (λ x. x.account_id) (sym built);
        type = ap (λ x. x.account_type) (sym built) ∙ sym (ok-injective e₃);
        archived = ap (λ x. x.is_archived) (sym built);
        balance = ap (λ x. x.balance.amount) (sym built) ∙ amount;
      }

module _ ⦃p : Python⦄ where
  pub build_snapshot-currency :
      (a : Account) {s : AccountSnapshot}
      → build_snapshot a ≡ ok s
      → validate_currency_code (text a.currency) ≡ ok s.currency
  unfolding build_snapshot account_snapshot
  build_snapshot-currency a e =
      let (m, e₁, e₂) = >>=-eq-ok _ _ e in
      let (t, e₃, e₄) = >>=-eq-ok _ _ e₂ in
      let (c, e₅, e₆) = >>=-eq-ok _ _ e₄ in
      let (same, e₇) = >>-eq-ok _ _ e₆ in
      e₅ ∙ ap (λ (x : AccountSnapshot). ok x.currency) (ok-injective e₇)

described_as-snapshot :
    (d : Option Text) (b : TransactionBuilder) → (described_as d b).snapshot ≡ b.snapshot
described_as-snapshot none b = refl
described_as-snapshot (some s) b = refl

with_manual_category-snapshot :
    (n : RawText) (b : TransactionBuilder) {b' : TransactionBuilder}
    → Builders.with_manual_category n b ≡ ok b'
    → b'.snapshot ≡ b.snapshot
unfolding Builders.with_manual_category ◌>>◌
with_manual_category-snapshot (RawText.text n) b e = ground arith
with_manual_category-snapshot RawText.other b e = cc

categorized_by-snapshot :
    (c : Categorizer) (b : TransactionBuilder) {b' : TransactionBuilder}
    → Builders.categorized_by c b ≡ ok b'
    → b'.snapshot ≡ b.snapshot
unfolding Builders.categorized_by ◌>>◌
categorized_by-snapshot c b e = ground arith

categorize-snapshot :
    (c : Categorizer) (n : Option RawText) (b : TransactionBuilder) {b' : TransactionBuilder}
    → elim n [
      | some name ↦ Builders.with_manual_category name b
      | none ↦ Builders.categorized_by c b
    ]
      ≡ ok b'
    → b'.snapshot ≡ b.snapshot
categorize-snapshot c none b e = categorized_by-snapshot c b e
categorize-snapshot c (some n) b e = with_manual_category-snapshot n b e

module _ ⦃p : Python⦄ where
  of_type-snapshot :
      (k : Raw TransactionType) (b : TransactionBuilder) {b' : TransactionBuilder}
      → Builders.of_type k b ≡ ok b'
      → b'.snapshot ≡ b.snapshot
  unfolding Builders.of_type
  of_type-snapshot k b e =
      let (t, _, h) = >>=-eq-ok _ _ e in ap (λ x. x.snapshot) (sym (ok-injective h))

  -- The draft that `register_transaction` gets is one of the snapshot's account.
  pub transaction_draft-IsDraft :
      (c : Categorizer) (today : ℕ) (s : AccountSnapshot) (a : Amount) (k : Raw TransactionType)
      (day : ℕ) (description : Option Text) (n : Option RawText) {d : TransactionDraft}
      → transaction_draft c today s a k day description n ≡ ok d
      → IsDraft s d
  unfolding transaction_draft
  transaction_draft-IsDraft c today s a k day description n e =
      let (m, _, e₁) = >>=-eq-ok _ _ e in
      let (b₁, typed, e₂) = >>=-eq-ok _ _ e₁ in
      let (b₃, chosen, e₃) = >>=-eq-ok _ _ e₂ in
      let (x, h, draft) = build-IsDraft b₃ today e₃ in
      let path =
        categorize-snapshot c n _ chosen
        ∙ described_as-snapshot description _
        ∙ of_type-snapshot k _ typed in
      let same : s ≡ x = some-injective _ _ (sym path ∙ h) in rw same draft
