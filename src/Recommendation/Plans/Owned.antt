-- ===== src/Recommendation/Plans/Owned.antt =====
-- A plan and its owner.
use finty.Base.{
  ℕ, ◌≡◌, refl, ap, ◌∙◌, ◌≢◌, inl, inr, Option, none, some, List, [], ◌∷◌, ◌++◌, arith, Bool-cases,
  ==_refl,
}
use finty.Base.Int.{ℤ}
use finty.Base.Table.{lookup, erase, lookup-append}
use finty.Base.Text.{Text}
use finty.Shared.Errors.{domain, investment_plan_not_found, Result, ok, err}
use finty.Shared.Python.{Python}
use finty.Shared.Decimal.{RawAmount}
use finty.Recommendation.Plans.{
  InstrumentType, InvestmentPlanDraft, InvestmentPlanRecord, plan_row, Tables, plan_record, fits,
  insert_plan, draft_plan, insert_draft, create, owned, owned_found, erase_found, delete,
}

erase-absent : (k : ℕ) (m : List InvestmentPlanRecord) → lookup k m ≡ none → erase k m ≡ m
erase-absent k [] e = refl
erase-absent k (a ∷ m) e = ground (arith, erase-absent k m)

erase-append :
    (k : ℕ) (m : List InvestmentPlanRecord) (r : InvestmentPlanRecord)
    → lookup k m ≡ none
    → r.id ≡ k
    → erase k (m ++ (r ∷ [])) ≡ m
erase-append k [] r e same = ground arith
erase-append k (a ∷ m) r e same = ground (arith, erase-append k m r)

insert_plan-ok :
    (r : InvestmentPlanRecord) (db : Tables) {made : InvestmentPlanRecord} {after : Tables}
    → insert_plan r db ≡ (ok made, after)
    → (made ≡ r) × (after ≡ record db { plans = db.plans ++ (r ∷ []) })
unfolding insert_plan
insert_plan-ok r db h = elim (Bool-cases (fits r)) [
  | inl y ↦ (cc (rw (y, insert_plan) at h), cc (rw (y, insert_plan) at h))
  | inr n ↦ absurd (cc (rw (n, insert_plan) at h))
]

insert_draft-ok :
    ⦃p : Python⦄ (now id user : ℕ) (d : Result InvestmentPlanDraft) (db : Tables)
    {made : InvestmentPlanRecord} {after : Tables}
    → insert_draft now id user d db ≡ (ok made, after)
    → (made.id ≡ id)
      × (made.user_id ≡ user)
      × (after ≡ record db { plans = db.plans ++ (made ∷ []) })
unfolding insert_draft
insert_draft-ok now id user (err e) db h = cc
insert_draft-ok now id user (ok d) db h =
    let (same, grown) = insert_plan-ok (plan_record now id user d) db h in
    rw same (refl, refl, grown)

-- A plan of a user, and the tables before it was made.
pub record IsOwned (user : ℕ) (made : InvestmentPlanRecord) (before after : Tables) : Type 0 where
  pub theirs : owned user made.id after ≡ ok made
  pub hidden : (k : ℕ) → user ≢ k → owned k made.id after ≡ err (domain investment_plan_not_found)
  pub safe :
      (k : ℕ) → user ≢ k → delete k made.id after ≡ (err (domain investment_plan_not_found), after)
  pub undone : delete user made.id after ≡ (ok tt, before)

owned-mine :
    (user id : ℕ) (m : List InvestmentPlanRecord) (made : InvestmentPlanRecord)
    → lookup id m ≡ none
    → made.id ≡ id
    → lookup id (m ++ (made ∷ [])) ≡ some made
owned-mine user id m made free same = lookup-append id m made ∙ rw (free, same, ==_refl id) refl

owned_found-other :
    (k : ℕ) (made : InvestmentPlanRecord)
    → made.user_id ≢ k
    → owned_found k (some made) ≡ err (domain investment_plan_not_found)
unfolding owned_found
owned_found-other k made ne = ground arith

owned_found-own : (made : InvestmentPlanRecord) → owned_found made.user_id (some made) ≡ ok made
unfolding owned_found
owned_found-own made = ground arith

module _ (made : InvestmentPlanRecord) (before : Tables)
    (free : lookup made.id before.plans ≡ none) where
  abbrev grown : Tables
  grown = record before { plans = before.plans ++ (made ∷ []) }

  found : lookup made.id grown.plans ≡ some made
  found = owned-mine made.user_id made.id before.plans made free refl

  grown-IsOwned : IsOwned made.user_id made before grown
  unfolding owned delete erase_found
  grown-IsOwned = record {
    theirs = ap (owned_found made.user_id) found ∙ owned_found-own made;
    hidden = λ k ne. ap (owned_found k) found ∙ owned_found-other k made ne;
    safe = λ k ne.
        ap (λ x. erase_found x grown) (ap (owned_found k) found ∙ owned_found-other k made ne);
    undone =
        ap (λ x. erase_found x grown) (ap (owned_found made.user_id) found ∙ owned_found-own made)
        ∙ ap (λ (l : List InvestmentPlanRecord). (ok tt, record before { plans = l }))
            (erase-append made.id before.plans made free refl);
  }

-- Where a plan is created under a new identifier, its user gets it and no other user does; a
-- deletion by another user raises that it is not found and changes nothing, and one by its user
-- returns and leaves the tables as they were before the creation.
pub create-IsOwned :
    ⦃p : Python⦄ (now id user : ℕ) (raw : Option InstrumentType) (contribution : RawAmount)
    (currency : Option Text) (horizon : ℤ) (max_horizon : ℕ) (before : Tables)
    {made : InvestmentPlanRecord} {after : Tables}
    → lookup id before.plans ≡ none
    → create now id user raw contribution currency horizon max_horizon before ≡ (ok made, after)
    → IsOwned user made before after
unfolding create
create-IsOwned now id user raw contribution currency horizon max_horizon before {made = made} free
      h =
    let d = draft_plan user raw contribution currency horizon max_horizon before in
    let (same_id, same_user, same) = insert_draft-ok now id user d before h in
    let new : lookup made.id before.plans ≡ none = rw same_id free in
    rw (← same_user, same) (grown-IsOwned made before new)
