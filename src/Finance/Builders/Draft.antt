-- ===== src/Finance/Builders/Draft.antt =====
-- What a draft that `TransactionBuilder.build` returns satisfies.
use finty.Base.{ℕ, ◌≡◌, refl, ap, sym, false, Bool, Option, none, some, inl, inr, Bool-cases, arith}
use finty.Base.Int.{pos, ◌<ℤ◌}
use finty.Base.Text.{Text}
use finty.Shared.Errors.{
  domain, negative_amount, ok, ◌>>◌, >>=-eq-ok, >>-eq-ok, ok-injective, raise_if,
}
use finty.Shared.Python.{Python}
use finty.Shared.Money.{Money, is_negative}
use finty.Finance.ValueObjects.{TransactionType, TransactionDraft, AccountSnapshot}
use finty.Finance.Logic.{ensure_amount_not_zero, ensure_account_is_active, ensure_categorized}
use finty.Finance.Builders.{
  TransactionBuilder, Resolved, resolve_manual, resolve_category_with, resolve_category, build_with,
  build_fields, build, is_set, Categorizer,
}

-- A draft of a snapshot's account: the amount is positive, the account is active, and there is a
-- category exactly when there is a source.
pub record IsDraft (s : AccountSnapshot) (d : TransactionDraft) : Type 0 where
  pub account : d.account_id ≡ s.account_id
  pub positive : pos 0 <ℤ d.amount.amount
  pub active : s.is_archived ≡ false
  pub categorized : is_set d.category_name ≡ is_set d.categorization_source

resolve_manual-ok :
    (m : Option Text) {r : Resolved}
    → resolve_manual m ≡ ok r
    → (is_set r.0 ≡ is_set r.1) × (is_set r.0 ≡ is_set m)
unfolding resolve_manual ◌>>◌ ensure_categorized
resolve_manual-ok none e = ground arith
resolve_manual-ok (some n) e = ground arith

resolve_category_with-ok :
    (c : Option Categorizer) (m : Option Text) (d : Text) (a : Money) (t : TransactionType)
    {r : Resolved}
    → resolve_category_with c m d a t ≡ ok r
    → is_set r.0 ≡ is_set r.1
unfolding resolve_category_with
resolve_category_with-ok none m d a t e = (resolve_manual-ok m e).0
resolve_category_with-ok (some c) m d a t e =
    let (g, e₁, e₂) = >>=-eq-ok _ _ e in let (_, e₃) = >>-eq-ok _ _ e₂ in ground arith

positive-of :
    (a : Money)
    → ensure_amount_not_zero a ≡ ok tt
    → raise_if (is_negative a) (domain negative_amount) ≡ ok tt
    → pos 0 <ℤ a.amount
unfolding ensure_amount_not_zero
positive-of a e h = ground arith

active-of : (b : Bool) → ensure_account_is_active b ≡ ok tt → b ≡ false
unfolding ensure_account_is_active
active-of b e = ground arith

module _ ⦃p : Python⦄ where
  build_with-ok :
      (b : TransactionBuilder) (clock : ℕ) (s : AccountSnapshot) (a : Money) (t : TransactionType)
      (day : ℕ) {d : TransactionDraft}
      → build_with b clock s a t day ≡ ok d
      → IsDraft s d
  unfolding build_with resolve_category
  build_with-ok b clock s a t day {d = d} e =
      let (zero, e₁) = >>-eq-ok _ _ e in
      let (sign, e₂) = >>-eq-ok _ _ e₁ in
      let (_, e₃) = >>-eq-ok _ _ e₂ in
      let (_, e₄) = >>-eq-ok _ _ e₃ in
      let (live, e₅) = >>-eq-ok _ _ e₄ in
      let (r, e₆, e₇) = >>=-eq-ok _ _ e₅ in
      let same = ok-injective e₇ in
      let h = resolve_category_with-ok _ _ _ _ _ e₆ in
      let pos = positive-of a zero sign in
      let act = active-of s.is_archived live in
      record {
        account = ap (λ x. x.account_id) (sym same);
        positive = rw (← same) pos;
        active = act;
        categorized = rw (← same) h;
      }

  build_fields-ok :
      (b : TransactionBuilder) (clock : ℕ) (s : Option AccountSnapshot) (a : Option Money)
      (t : Option TransactionType) (day : Option ℕ) {d : TransactionDraft}
      → build_fields b clock s a t day ≡ ok d
      → (x : AccountSnapshot) × (s ≡ some x) × IsDraft x d
  unfolding build_fields
  build_fields-ok b clock (some s) (some a) (some t) (some day) e =
      (s, refl, build_with-ok b clock s a t day e)
  build_fields-ok b clock none _ _ _ e = cc
  build_fields-ok b clock (some s) none _ _ e = cc
  build_fields-ok b clock (some s) (some a) none _ e = cc
  build_fields-ok b clock (some s) (some a) (some t) none e = cc

  -- A transaction draft that is built is one of the snapshot that was set, whose account is
  -- active; its amount is positive, and it has a category exactly when it has a source.
  pub build-IsDraft :
      (b : TransactionBuilder) (clock : ℕ) {d : TransactionDraft}
      → (build b clock).0 ≡ ok d
      → (x : AccountSnapshot) × (b.snapshot ≡ some x) × IsDraft x d
  unfolding build
  build-IsDraft b clock e = elim (Bool-cases b.consumed) [
    | inl used ↦ cc (rw used at e)
    | inr fresh ↦ let (_, h) = >>-eq-ok _ _ (rw fresh at e) in build_fields-ok _ clock _ _ _ _ h
  ]
