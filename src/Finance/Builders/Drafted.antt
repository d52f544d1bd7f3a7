-- ===== src/Finance/Builders/Drafted.antt =====
-- What a draft that `AccountBuilder.build` returns satisfies, and the single use of the other builder.
use finty.Base.{
  ℕ, ◌≤◌, ◌≡◌, refl, true, Option, none, some, [], length, inl, inr, Bool-cases, arith, ◌≢◌,
}
use finty.Base.Int.{pos, ltb_ℤ}
use finty.Base.Text.{Text, strip, text_eq_iff}
use finty.Shared.Errors.{domain, validation_error, ok, err, >>=-eq-ok, >>-eq-ok, ok-injective, ◌>>◌}
use finty.Shared.Python.{Python}
use finty.Shared.Money.{Money}
use finty.Finance.ValueObjects.{AccountDraft, AccountType, allows_negative_balance}
use finty.Finance.Builders.{TransactionBuilder}
use finty.Finance.Builders
use finty.Finance.Builders.Account.{
  AccountBuilder, max_account_name_length, clean_name, build_with, build_fields, build,
}

-- A stripped name of 1 to 120 characters, and an initial balance that the type allows.
pub record IsAccountDraft (b : AccountBuilder) (d : AccountDraft) : Type 0 where
  pub owner : b.user_id ≡ some d.user_id
  pub type : b.account_type ≡ some d.account_type
  pub name : Text
  pub given : b.name ≡ some name
  pub stripped : d.name ≡ strip name
  pub filled : d.name ≢ []
  pub short : length d.name ≤ max_account_name_length
  pub allowed :
      ltb_ℤ d.initial_balance.amount (pos 0) ≡ true → allows_negative_balance d.account_type ≡ true

clean_name-ok :
    (n : Text) {s : Text}
    → clean_name n ≡ ok s
    → (s ≡ strip n) × (s ≢ []) × (length s ≤ max_account_name_length)
unfolding clean_name ◌>>◌
clean_name-ok n e = ground (arith, text_eq_iff (strip n) [])

module _ ⦃p : Python⦄ where
  build_with-ok :
      (b : AccountBuilder) (u : ℕ) (n : Text) (t : AccountType) (m : Option Money) (c : Option Text)
      {d : AccountDraft}
      → b.user_id ≡ some u
      → b.name ≡ some n
      → b.account_type ≡ some t
      → build_with u n t m c ≡ ok d
      → IsAccountDraft b d
  unfolding build_with
  build_with-ok b u n t m c hu hn ht e =
      let (s, e₁, e₂) = >>=-eq-ok _ _ e in
      let (balance, e₃, e₄) = >>=-eq-ok _ _ e₂ in
      let (rule, e₅) = >>-eq-ok _ _ e₄ in
      let made = ok-injective e₅ in
      let (stripped, filled, short) = clean_name-ok n e₁ in
      rw (← made) (record {
        owner = hu;
        type = ht;
        name = n;
        given = hn;
        stripped = stripped;
        filled = filled;
        short = short;
        allowed = ground arith;
      })

  build_fields-ok :
      (b : AccountBuilder) (u : Option ℕ) (n : Option Text) (t : Option AccountType)
      (m : Option Money) (c : Option Text) {d : AccountDraft}
      → b.user_id ≡ u
      → b.name ≡ n
      → b.account_type ≡ t
      → build_fields u n t m c ≡ ok d
      → IsAccountDraft b d
  unfolding build_fields
  build_fields-ok b (some u) (some n) (some t) m c hu hn ht e = build_with-ok b u n t m c hu hn ht e
  build_fields-ok b none _ _ m c hu hn ht e = cc
  build_fields-ok b (some u) none _ m c hu hn ht e = cc
  build_fields-ok b (some u) (some n) none m c hu hn ht e = cc

  -- An account draft that is built has the owner, the type and the stripped name that were set;
  -- the name has 1 to 120 characters, and the initial balance is not negative unless the type
  -- allows it.
  pub build-IsAccountDraft :
      (b : AccountBuilder) {d : AccountDraft} → build b ≡ ok d → IsAccountDraft b d
  unfolding build
  build-IsAccountDraft b e =
      build_fields-ok b b.user_id b.name b.account_type b.initial_balance b.currency refl refl refl
        e

  -- A transaction builder that was asked to build, whether it could or not, raises a validation
  -- error when it is asked again.
  pub build-build :
      (b : TransactionBuilder) (clock again : ℕ)
      → (Builders.build (Builders.build b clock).1 again).0 ≡ err (domain validation_error)
  unfolding Builders.build
  build-build b clock again = elim (Bool-cases b.consumed) [
    | inl used ↦ rw used refl
    | inr fresh ↦ rw fresh refl
  ]
