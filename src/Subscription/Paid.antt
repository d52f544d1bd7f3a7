-- ===== src/Subscription/Paid.antt =====
-- The rule that only a paid subscription is active (INV-05), under every call.
use mathlib.Core.Option.{some-injective}
use finty.Base.{
  ℕ, ◌≡◌, refl, sym, ◌∙◌, ap, Bool, true, false, ◌&&◌, ◌||◌, none, some, List, [], ◌∷◌, ◌++◌, find,
  All, All-map, ◌==◌, ==_iff, ==_refl, inl, inr, Bool-cases, arith,
}
use finty.Base.Table.{lookup, update, IsKeyed}
use finty.Subscription.Domain.{
  Moment, PaymentStatus, pending, approved, declined, error, is_final, is_approved, is_pending,
  Subscription,
}
use finty.Subscription.Service.{
  SubscriptionRecord, PaymentRecord, subscription_row, payment_row, Tables, resolved, expire_row,
}

-- Whether one of the payments for the subscription was approved.
abbrev pub approved_for : ℕ → List PaymentRecord → Bool
approved_for id [] = false
approved_for id (p ∷ m) = (p.subscription_id == id && is_approved p.status) || approved_for id m

-- A subscription that is not waiting for its payment has an approved one.
abbrev pub IsCovered : List PaymentRecord → SubscriptionRecord → Type 0
IsCovered ps r = (is_pending r.state.status || approved_for r.id ps) ≡ true

pub record IsPaid (db : Tables) : Type 0 where
  pub keys : IsKeyed db.payments
  pub covered : All (IsCovered db.payments) db.subscriptions

pub approved-append :
    (id : ℕ) (m : List PaymentRecord) (p : PaymentRecord)
    → approved_for id m ≡ true
    → approved_for id (m ++ (p ∷ [])) ≡ true
approved-append id [] p h = cc
approved-append id (q ∷ m) p h = ground (arith, approved-append id m p)

update-absent :
    (k : ℕ) (f : PaymentRecord → PaymentRecord) (m : List PaymentRecord)
    → lookup k m ≡ none
    → update k f m ≡ m
update-absent k f [] h = refl
update-absent k f (q ∷ m) h = elim (Bool-cases (q.id == k)) [
  | inl e ↦ cc (rw e at h)
  | inr e ↦ rw e (ap (λ r. q ∷ r) (update-absent k f m (rw e at h)))
]

final-approved : (s : PaymentStatus) → is_final s ≡ false → is_approved s ≡ false
final-approved pending h = refl
final-approved approved h = cc
final-approved declined h = cc
final-approved error h = cc

-- A payment that is resolved takes no approval away.
pub approved-resolved :
    (id k : ℕ) (now : Moment) (s : PaymentStatus) (m : List PaymentRecord) (p : PaymentRecord)
    → IsKeyed m
    → lookup k m ≡ some p
    → is_final p.status ≡ false
    → approved_for id m ≡ true
    → approved_for id (update k (resolved now s) m) ≡ true
approved-resolved id k now s [] p keys found unsettled h = cc
approved-resolved id k now s (q ∷ m) p (new, keys) found unsettled h =
    elim (Bool-cases (q.id == k)) [
      | inl e ↦
          let same : q ≡ p = some-injective _ _ (rw e at found) in
          let gone : lookup k m ≡ none = ap (λ i. lookup i m) (sym ((==_iff q.id k).0 e)) ∙ new in
          let rest : update k (resolved now s) m ≡ m = update-absent k (resolved now s) m gone in
          let unapproved : is_approved q.status ≡ false =
            ap (λ (x : PaymentRecord). is_approved x.status) same
            ∙ final-approved p.status unsettled in
          let later : approved_for id m ≡ true = ground arith in rw (e, rest) (ground arith)
      | inr e ↦
          rw e (ground (arith, approved-resolved id k now s m p keys (rw e at found) unsettled))
    ]

pub approved-new :
    (k : ℕ) (now : Moment) (s : PaymentStatus) (m : List PaymentRecord) (p : PaymentRecord)
    → lookup k m ≡ some p
    → is_approved s ≡ true
    → approved_for p.subscription_id (update k (resolved now s) m) ≡ true
approved-new k now s [] p found h = cc
approved-new k now s (q ∷ m) p found h = elim (Bool-cases (q.id == k)) [
  | inl e ↦
      let same : q ≡ p = some-injective _ _ (rw e at found) in
      rw (e, ← same, ==_refl q.subscription_id, h) refl
  | inr e ↦ rw e (ground (arith, approved-new k now s m p (rw e at found) h))
]

pub map-IsCovered :
    (ps qs : List PaymentRecord) (m : List SubscriptionRecord)
    → ((id : ℕ) → approved_for id ps ≡ true → approved_for id qs ≡ true)
    → All (IsCovered ps) m
    → All (IsCovered qs) m
map-IsCovered ps qs m f h =
    All-map (IsCovered ps) (IsCovered qs) (λ r c. ground (arith, f r.id)) m h

pub store-IsCovered :
    (ps : List PaymentRecord) (id : ℕ) (s : Subscription) (m : List SubscriptionRecord)
    → approved_for id ps ≡ true
    → All (IsCovered ps) m
    → All (IsCovered ps) (update id (λ r. record r { state = s }) m)
store-IsCovered ps id s [] a h = tt
store-IsCovered ps id s (r ∷ m) a (c, h) = elim (Bool-cases (r.id == id)) [
  | inl e ↦
      let here : approved_for r.id ps ≡ true = rw ((==_iff r.id id).0 e) a in
      rw e (ground arith, store-IsCovered ps id s m a h)
  | inr e ↦ rw e (c, store-IsCovered ps id s m a h)
]

pub find-IsCovered :
    (f : SubscriptionRecord → Bool) (ps : List PaymentRecord) (m : List SubscriptionRecord)
    (r : SubscriptionRecord)
    → find f m ≡ some r
    → All (IsCovered ps) m
    → IsCovered ps r
find-IsCovered f ps [] r e h = cc
find-IsCovered f ps (q ∷ m) r e (c, h) = elim (Bool-cases (f q)) [
  | inl y ↦ rw (← some-injective _ _ (rw y at e)) c
  | inr n ↦ find-IsCovered f ps m r (rw n at e) h
]

pub expire-IsCovered :
    (now : Moment) (ps : List PaymentRecord) (r : SubscriptionRecord)
    → IsCovered ps r
    → IsCovered ps (expire_row now r)
expire-IsCovered now ps r c = ground arith
