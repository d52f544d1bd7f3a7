-- ===== src/Finance/Invariant/Accounts.antt =====
-- The calls of `AccountService` keep the invariant.
use mathlib.Core.Option.{some-injective}
use finty.Base.{
  ℕ, ◌≡◌, refl, sym, ◌∙◌, ap, true, false, none, some, [], ◌∷◌, ◌++◌, List, ◌==◌, All, All-map,
  arith, inl, inr, Bool-cases, Option-cases,
}
use finty.Base.Int.{pos, ◌+ℤ◌, +ℤ_zero, zero_+ℤ, ltb_ℤ}
use finty.Base.Table.{
  lookup, update, erase, lookup-append, lookup-update, lookup-erase, append-IsKeyed, update-IsKeyed,
  erase-IsKeyed,
}
use finty.Finance.ValueObjects.{allows_negative_balance}
use finty.Finance.Store.{Account, Transaction, Db, account_row, transaction_row, references}
use finty.Finance.Invariant.{total, exists, IsSettled, IsSound, IsValid}
use finty.Finance.Invariant.Calls.{contribution_other}

-- What an update may not change for the invariant.
pub record IsCosmetic (f : Account → Account) : Type 0 where
  pub id : (a : Account) → (f a).id ≡ a.id
  pub type : (a : Account) → (f a).type ≡ a.type
  pub opening : (a : Account) → (f a).opening_balance ≡ a.opening_balance
  pub balance : (a : Account) → (f a).balance ≡ a.balance

cosmetic-IsSettled :
    (f : Account → Account) (rows : List Transaction) (a : Account)
    → IsCosmetic f
    → IsSettled rows a
    → IsSettled rows (f a)
cosmetic-IsSettled f rows a h s = record {
  consistent = h.balance a ∙ s.consistent ∙ rw (h.opening a, h.id a) refl;
  allowed = rw (h.balance a, h.type a) s.allowed;
}

exists-update :
    (k id : ℕ) (f : Account → Account) (m : List Account)
    → ((a : Account) → (f a).id ≡ a.id)
    → exists (lookup k (update id f m)) ≡ exists (lookup k m)
exists-update k id f m h = elim (Option-cases (lookup k m)) [
  | inl e ↦ ground (arith, lookup-update k id f m h)
  | inr (a, e) ↦ ground (arith, lookup-update k id f m h)
]

accounts-IsSound :
    (m n : List Account) (ts : List Transaction)
    → ((k : ℕ) → exists (lookup k m) ≡ true → exists (lookup k n) ≡ true)
    → All (IsSound m) ts
    → All (IsSound n) ts
accounts-IsSound m n ts f h =
    All-map (IsSound m) (IsSound n)
      (λ t s. record {
        linked = f t.account_id s.linked;
        positive = s.positive;
        categorized = s.categorized;
      })
      ts h

update-IsSettled :
    (db : Db) (id : ℕ) (f : Account → Account)
    → IsCosmetic f
    → IsValid db
    → (k : ℕ) (x : Account) → lookup k (update id f db.accounts) ≡ some x
    → IsSettled db.transactions x
update-IsSettled db id f h v k x e = elim (Option-cases (lookup k db.accounts)) [
  | inl gone ↦ ground (arith, lookup-update k id f db.accounts h.id)
  | inr (a, here) ↦
      let law = sym (lookup-update k id f db.accounts h.id) ∙ e in
      elim (Bool-cases (k == id)) [
        | inl same ↦
            rw (← some-injective _ _ (rw (same, here) at law))
              (cosmetic-IsSettled f db.transactions a h (v.settled k a here))
        | inr other ↦ v.settled k x (rw other at law)
      ]
]

-- A new name or a new flag.
pub cosmetic-IsValid :
    (db : Db) (id : ℕ) (f : Account → Account)
    → IsCosmetic f
    → IsValid db
    → IsValid (record db { accounts = update id f db.accounts })
cosmetic-IsValid db id f h v = record {
  account_keys = update-IsKeyed id f db.accounts h.id v.account_keys;
  transaction_keys = v.transaction_keys;
  settled = update-IsSettled db id f h v;
  sound =
      accounts-IsSound db.accounts _ db.transactions
        (λ k e. exists-update k id f db.accounts h.id ∙ e) v.sound;
}

-- No row counts towards an account that is not there.
total-absent :
    (k : ℕ) (m : List Account) (ts : List Transaction)
    → lookup k m ≡ none
    → All (IsSound m) ts
    → total k ts ≡ pos 0
total-absent k m [] e h = refl
total-absent k m (t ∷ ts) e (s, h) =
    rw (contribution_other k t (λ q. cc (e, s.linked, q)), total-absent k m ts e h)
      (zero_+ℤ (pos 0))

pub append-IsValid :
    (db : Db) (a : Account)
    → IsValid db
    → lookup a.id db.accounts ≡ none
    → a.balance ≡ a.opening_balance
    → (ltb_ℤ a.balance (pos 0) ≡ true → allows_negative_balance a.type ≡ true)
    → IsValid (record db { accounts = db.accounts ++ (a ∷ []) })
append-IsValid db a v new same allowed = record {
  account_keys = append-IsKeyed db.accounts a v.account_keys new;
  transaction_keys = v.transaction_keys;
  settled = λ k x e. elim (Option-cases (lookup k db.accounts)) [
    | inl gone ↦
        let law = rw gone at (sym (lookup-append k db.accounts a) ∙ e) in
        let is : a ≡ x = ground (arith, law) in
        rw (← is) (record {
          consistent =
              same
              ∙ sym (+ℤ_zero a.opening_balance)
              ∙ ap (λ z. a.opening_balance +ℤ z)
                  (sym (total-absent a.id db.accounts db.transactions new v.sound));
          allowed = allowed;
        })
    | inr (b, here) ↦
        let law = rw here at (sym (lookup-append k db.accounts a) ∙ e) in
        rw (← some-injective _ _ law) (v.settled k b here)
  ];
  sound =
      accounts-IsSound db.accounts _ db.transactions
        (λ k e. elim (Option-cases (lookup k db.accounts)) [
          | inl gone ↦ cc (rw gone at e)
          | inr (b, here) ↦ rw (lookup-append k db.accounts a, here) refl
        ])
        v.sound;
}

unreferenced :
    (id : ℕ) (m : List Account) (ts : List Transaction)
    → references id ts ≡ false
    → All (IsSound m) ts
    → All (IsSound (erase id m)) ts
unreferenced id m [] e h = tt
unreferenced id m (t ∷ ts) e (s, h) =
    let there : (t.account_id == id) ≡ false = ground arith in
    let rest : references id ts ≡ false = ground arith in
    (
      record {
        linked = rw (lookup-erase t.account_id id m, there) s.linked;
        positive = s.positive;
        categorized = s.categorized;
      },
      unreferenced id m ts rest h,
    )

pub erase-IsValid :
    (db : Db) (id : ℕ)
    → IsValid db
    → references id db.transactions ≡ false
    → IsValid (record db { accounts = erase id db.accounts })
erase-IsValid db id v free = record {
  account_keys = erase-IsKeyed id db.accounts v.account_keys;
  transaction_keys = v.transaction_keys;
  settled = λ k x e. v.settled k x (ground (arith, lookup-erase k id db.accounts));
  sound = unreferenced id db.accounts db.transactions free v.sound;
}
