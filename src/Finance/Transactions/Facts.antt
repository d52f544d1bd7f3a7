-- ===== src/Finance/Transactions/Facts.antt =====
-- The facts of an event, and the categories that a name resolves to.
use finty.Base.{
  ◌≡◌, refl, ◌∙◌, ap, sym, true, ◌⊎◌, inl, inr, Option, none, some, List, [], ◌∷◌, find, arith,
  Option-cases, Bool-cases,
}
use mathlib.Core.Option.{some-injective}
use finty.Base.Text.{Text, text_eq}
use finty.Shared.Errors.{ok, >>=-eq-ok, ok-injective}
use finty.Shared.Python.{Python}
use finty.Shared.Currency.{text, validate_currency_code}
use finty.Shared.Money.Laws.{money-ok}
use finty.Finance.ValueObjects.{TransactionType}
use finty.Finance.Events.{TransactionFacts}
use finty.Finance.Store.{Account, Transaction, Category, Db, is_set}
use finty.Finance.Session.{lift}
use finty.Finance.Translate.{transaction_facts}
use finty.Finance.Transactions.{named, type_eq, applicable, resolve_category}

abbrev pub category_name_of : Option Category → Option Text
category_name_of none = none
category_name_of (some c) = some c.name

-- The facts of an event are those of the row, its account and owner, and its category; the amount
-- is in the account's currency.
pub record AreFacts ⦃p : Python⦄ (t : Transaction) (a : Account) (c : Option Category)
    (f : TransactionFacts) : Type 0 where
  pub user : f.user_id ≡ a.user_id
  pub transaction : f.transaction_id ≡ t.id
  pub account : f.account_id ≡ a.id
  pub amount : f.amount.amount ≡ t.amount
  pub currency : validate_currency_code (text a.currency) ≡ ok f.amount.currency
  pub type : f.transaction_type ≡ t.type
  pub category : f.category_name ≡ category_name_of c
  pub source : f.categorization_source ≡ t.categorization_source
  pub day : f.occurred_on ≡ t.occurred_on
  pub description : f.description ≡ t.description

name_of-elim :
    (c : Option Category) → elim c [ none ↦ none | some x ↦ some x.name ] ≡ category_name_of c
name_of-elim none = refl
name_of-elim (some c) = refl

module _ ⦃p : Python⦄ where
  pub facts-ok :
      (t : Transaction) (a : Account) (c : Option Category) {f : TransactionFacts}
      → transaction_facts t a c ≡ ok f
      → AreFacts t a c f
  unfolding transaction_facts
  facts-ok t a c e =
      let (m, e₁, e₂) = >>=-eq-ok _ _ e in
      let built = ok-injective e₂ in
      let (amount, _, valid) = money-ok _ _ e₁ in
      record {
        user = ap (λ x. x.user_id) (sym built);
        transaction = ap (λ x. x.transaction_id) (sym built);
        account = ap (λ x. x.account_id) (sym built);
        amount = ap (λ x. x.amount.amount) (sym built) ∙ amount;
        currency = valid ∙ ap (λ (x : TransactionFacts). ok x.amount.currency) built;
        type = ap (λ x. x.transaction_type) (sym built);
        category = ap (λ x. x.category_name) (sym built) ∙ name_of-elim c;
        source = ap (λ x. x.categorization_source) (sym built);
        day = ap (λ x. x.occurred_on) (sym built);
        description = ap (λ x. x.description) (sym built);
      }

-- The category of a name that resolves.
pub resolve-ok :
    (n : Option Text) (t : TransactionType) (db : Db) {c : Option Category} {db₁ : Db}
    → resolve_category n t db ≡ (ok c, db₁)
    → (db₁ ≡ db) × (is_set c ≡ is_set n)
unfolding resolve_category applicable lift
resolve-ok none t db e = ground arith
resolve-ok (some n) t db e = ground arith

abbrev pub Stands : Category → List Category → Type 0
Stands c [] = ⊥
Stands c (d ∷ m) = (c ≡ d) ⊎ Stands c m

-- A category of the table, with the name, for movements of the type.
abbrev pub IsCategory : Db → Text → TransactionType → Category → Type 0
IsCategory db name t c =
    Stands c db.categories × (text_eq c.name name ≡ true) × (type_eq c.applies_to t ≡ true)

find-named :
    (name : Text) (m : List Category) (c : Category)
    → find (named name) m ≡ some c
    → text_eq c.name name ≡ true
find-named name [] c e = cc
find-named name (d ∷ m) c e = ground (arith, find-named name m c)

find-Stands :
    (name : Text) (m : List Category) (c : Category) → find (named name) m ≡ some c → Stands c m
find-Stands name [] c e = cc
find-Stands name (d ∷ m) c e = elim (Bool-cases (named name d)) [
  | inl y ↦ inl (sym (some-injective _ _ (rw y at e)))
  | inr z ↦ inr (find-Stands name m c (rw z at e))
]

pub resolve-category :
    (name : Text) (t : TransactionType) (db : Db) {o : Option Category} {db₁ : Db}
    → resolve_category (some name) t db ≡ (ok o, db₁)
    → (c : Category) × (o ≡ some c) × IsCategory db name t c
unfolding resolve_category applicable lift
resolve-category name t db e = elim (Option-cases (find (named name) db.categories)) [
  | inl none_of ↦ cc (rw none_of at e)
  | inr (c, is) ↦ (
    c,
    ground (arith, rw is at e),
    (
      find-Stands name db.categories c is,
      find-named name db.categories c is,
      ground (arith, rw is at e),
    ),
  )
]
