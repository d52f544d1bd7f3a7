-- ===== src/Finance/Builders/Built.antt =====
-- Where the fields of a draft that `TransactionBuilder.build` returns come from.
use finty.Base.{ℕ, ◌≡◌, ◌∙◌, ap, sym, Option, none, some, inl, inr, Bool-cases}
use finty.Shared.Errors.{ok, >>=-eq-ok, >>-eq-ok, ok-injective}
use finty.Shared.Python.{Python}
use finty.Shared.Money.{Money}
use finty.Finance.ValueObjects.{TransactionType, TransactionDraft, AccountSnapshot}
use finty.Finance.Builders.{TransactionBuilder, resolve_category, build_with, build_fields, build}

-- The draft has the fields that were set, and the category that they resolve to.
pub record IsBuilt (b : TransactionBuilder) (d : TransactionDraft) : Type 0 where
  pub amount : b.amount ≡ some d.amount
  pub type : b.transaction_type ≡ some d.transaction_type
  pub day : b.occurred_on ≡ some d.occurred_on
  pub description : d.description ≡ b.description
  pub resolved :
      resolve_category b d.amount d.transaction_type
      ≡ ok (d.category_name, d.categorization_source, d.confidence)

-- The same for the fields that were read.
record IsMade (b : TransactionBuilder) (a : Money) (t : TransactionType) (set_day : ℕ)
    (d : TransactionDraft) : Type 0 where
  amount : a ≡ d.amount
  type : t ≡ d.transaction_type
  day : set_day ≡ d.occurred_on
  description : d.description ≡ b.description
  resolved : resolve_category b a t ≡ ok (d.category_name, d.categorization_source, d.confidence)

module _ ⦃p : Python⦄ where
  build_with-IsMade :
      (b : TransactionBuilder) (clock : ℕ) (s : AccountSnapshot) (a : Money) (t : TransactionType)
      (day : ℕ) {d : TransactionDraft}
      → build_with b clock s a t day ≡ ok d
      → IsMade b a t day d
  unfolding build_with
  build_with-IsMade b clock s a t day {d = d} e =
      let (_, e₁) = >>-eq-ok _ _ e in
      let (_, e₂) = >>-eq-ok _ _ e₁ in
      let (_, e₃) = >>-eq-ok _ _ e₂ in
      let (_, e₄) = >>-eq-ok _ _ e₃ in
      let (_, e₅) = >>-eq-ok _ _ e₄ in
      let (r, e₆, e₇) = >>=-eq-ok _ _ e₅ in
      let same = ok-injective e₇ in
      record {
        amount = ap (λ x. x.amount) same;
        type = ap (λ x. x.transaction_type) same;
        day = ap (λ x. x.occurred_on) same;
        description = ap (λ x. x.description) (sym same);
        resolved =
            e₆
            ∙ ap
                (λ (x : TransactionDraft).
                  ok (x.category_name, x.categorization_source, x.confidence))
                same;
      }

  build_fields-IsMade :
      (b : TransactionBuilder) (clock : ℕ) (s : Option AccountSnapshot) (a : Option Money)
      (t : Option TransactionType) (day : Option ℕ) {d : TransactionDraft}
      → build_fields b clock s a t day ≡ ok d
      → (a ≡ some d.amount)
        × (t ≡ some d.transaction_type)
        × (day ≡ some d.occurred_on)
        × (d.description ≡ b.description)
        × (resolve_category b d.amount d.transaction_type
            ≡ ok (d.category_name, d.categorization_source, d.confidence))
  unfolding build_fields
  build_fields-IsMade b clock (some s) (some a) (some t) (some day) e =
      let h = build_with-IsMade b clock s a t day e in
      (
        ap some h.amount,
        ap some h.type,
        ap some h.day,
        h.description,
        rw (h.amount, h.type) at h.resolved,
      )
  build_fields-IsMade b clock none _ _ _ e = cc
  build_fields-IsMade b clock (some s) none _ _ e = cc
  build_fields-IsMade b clock (some s) (some a) none _ e = cc
  build_fields-IsMade b clock (some s) (some a) (some t) none e = cc

  -- A draft that is built has the fields of its builder.
  pub build-IsBuilt :
      (b : TransactionBuilder) (clock : ℕ) {d : TransactionDraft}
      → (build b clock).0 ≡ ok d
      → IsBuilt b d
  unfolding build resolve_category
  build-IsBuilt b clock e = elim (Bool-cases b.consumed) [
    | inl used ↦ cc (rw used at e)
    | inr fresh ↦
        let (_, h) = >>-eq-ok _ _ (rw fresh at e) in
        let (amount, type, day, description, resolved) = build_fields-IsMade _ clock _ _ _ _ h in
        record {
          amount = amount;
          type = type;
          day = day;
          description = description;
          resolved = resolved;
        }
  ]
