-- ===== src/Recommendation/Risk/Saved.antt =====
-- What a saved questionnaire gives back.
use finty.Base.{
  ℕ, ◌≡◌, refl, sym, ◌∙◌, ◌≢◌, ap, inl, inr, true, Option, none, some, List, [], ◌∷◌, arith,
  Bool-cases, leb, ==_refl,
}
use finty.Base.Int.{pos, negsuc}
use finty.Base.Table.{lookup, lookup-append, lookup-update}
use finty.Shared.Errors.{ok, ◌>>=◌, >>=-eq-ok, ok-injective, Result-cases}
use finty.Recommendation.Risk.{
  RiskProfileType, conservative, moderate, aggressive, Question, investment_horizon, loss_reaction,
  experience, income_stability, goal, RawAnswer, int, boolean, missing, other, RiskProfile,
  is_answer, read_answer, read_answers, from_answers, score, profile_type, type_in,
  RiskProfileRecord, profile_row, set_columns, profile_from, found_profile, find, store_profile,
  written, save,
}

-- The five answers, each 1, 2 or 3.
abbrev five : ℕ → ℕ → ℕ → ℕ → ℕ → RiskProfile
five a b c d e = record {
  answers =
      (investment_horizon, a)
      ∷ (loss_reaction, b)
      ∷ (experience, c)
      ∷ (income_stability, d)
      ∷ (goal, e)
      ∷ [];
}

record IsProfile (profile : RiskProfile) : Type 0 where
  pub a : ℕ
  pub b : ℕ
  pub c : ℕ
  pub d : ℕ
  pub e : ℕ
  pub same : profile ≡ five a b c d e
  pub a_ok : is_answer a ≡ true
  pub b_ok : is_answer b ≡ true
  pub c_ok : is_answer c ≡ true
  pub d_ok : is_answer d ≡ true
  pub e_ok : is_answer e ≡ true

read_answer-ok : (x : RawAnswer) {n : ℕ} → read_answer x ≡ ok n → is_answer n ≡ true
unfolding read_answer
read_answer-ok (int (pos n)) h = ground arith
read_answer-ok (int (negsuc n)) h = cc
read_answer-ok boolean h = cc
read_answer-ok missing h = cc
read_answer-ok other h = cc

read_answer_lem : (n : ℕ) → is_answer n ≡ true → read_answer (int (pos n)) ≡ ok n
unfolding read_answer
read_answer_lem n h = rw h refl

abbrev answered : List (Question × ℕ) → RiskProfile
answered l = record { answers = l }

-- One more answer before those that are known.
after :
    (x : Question × ℕ) {whole rest known : List (Question × ℕ)}
    → ok (x ∷ rest) ≡ ok whole
    → rest ≡ known
    → whole ≡ x ∷ known
after x e h = sym (ok-injective e) ∙ ap (λ l. x ∷ l) h

from_answers-IsProfile :
    (answers : Question → RawAnswer) {profile : RiskProfile}
    → from_answers answers ≡ ok profile
    → IsProfile profile
unfolding from_answers read_answers
from_answers-IsProfile answers h =
    let (ordered, read, h₀) = >>=-eq-ok _ _ h in
    let (a, ha, h₁) = >>=-eq-ok _ _ read in
    let (r₁, read₁, e₁) = >>=-eq-ok _ _ h₁ in
    let (b, hb, h₂) = >>=-eq-ok _ _ read₁ in
    let (r₂, read₂, e₂) = >>=-eq-ok _ _ h₂ in
    let (c, hc, h₃) = >>=-eq-ok _ _ read₂ in
    let (r₃, read₃, e₃) = >>=-eq-ok _ _ h₃ in
    let (d, hd, h₄) = >>=-eq-ok _ _ read₃ in
    let (r₄, read₄, e₄) = >>=-eq-ok _ _ h₄ in
    let (e, he, h₅) = >>=-eq-ok _ _ read₄ in
    let (r₅, read₅, e₅) = >>=-eq-ok _ _ h₅ in
    record {
      a = a;
      b = b;
      c = c;
      d = d;
      e = e;
      same =
          sym (ok-injective h₀)
          ∙ ap answered (
              after (investment_horizon, a) e₁
                (after (loss_reaction, b) e₂
                  (after (experience, c) e₃
                    (after (income_stability, d) e₄
                      (after (goal, e) e₅ (sym (ok-injective read₅)))))));
      a_ok = read_answer-ok (answers investment_horizon) ha;
      b_ok = read_answer-ok (answers loss_reaction) hb;
      c_ok = read_answer-ok (answers experience) hc;
      d_ok = read_answer-ok (answers income_stability) hd;
      e_ok = read_answer-ok (answers goal) he;
    }

five-again :
    (a b c d e : ℕ) (columns : Question → ℕ)
    → is_answer a ≡ true
    → is_answer b ≡ true
    → is_answer c ≡ true
    → is_answer d ≡ true
    → is_answer e ≡ true
    → from_answers (λ q. int (pos (set_columns (five a b c d e).answers columns q)))
      ≡ ok (five a b c d e)
unfolding from_answers read_answers ◌>>=◌
five-again a b c d e columns ha hb hc hd he =
    rw
      (
        read_answer_lem a ha,
        read_answer_lem b hb,
        read_answer_lem c hc,
        read_answer_lem d hd,
        read_answer_lem e he,
      )
      refl

profile_from-written :
    (now : ℕ) (profile : RiskProfile) (r : RiskProfileRecord)
    → IsProfile profile
    → profile_from (written now profile r) ≡ ok profile
unfolding profile_from
profile_from-written now profile r h =
    rw (h.same) (five-again h.a h.b h.c h.d h.e r.columns h.a_ok h.b_ok h.c_ok h.d_ok h.e_ok)

type_of_five :
    (a b c d e : ℕ)
    → is_answer a ≡ true
    → is_answer b ≡ true
    → is_answer c ≡ true
    → is_answer d ≡ true
    → is_answer e ≡ true
    → (t : RiskProfileType) × (profile_type (five a b c d e) ≡ ok t)
unfolding profile_type type_in
type_of_five a b c d e ha hb hc hd he = elim (Bool-cases (leb (score (five a b c d e)) 8)) [
  | inl y ↦ (conservative, rw y refl)
  | inr n ↦ elim (Bool-cases (leb (score (five a b c d e)) 11)) [
    | inl y ↦ (moderate, rw (n, y) refl)
    | inr m ↦
        let top : leb (score (five a b c d e)) 15 ≡ true = ground arith in
        (aggressive, rw (n, m, top) refl)
  ]
]

type-of_IsProfile :
    (profile : RiskProfile)
    → IsProfile profile
    → (t : RiskProfileType) × (profile_type profile ≡ ok t)
type-of_IsProfile profile h =
    rw h.same (type_of_five h.a h.b h.c h.d h.e h.a_ok h.b_ok h.c_ok h.d_ok h.e_ok)

found_written :
    (now : ℕ) (profile : RiskProfile) (r : RiskProfileRecord)
    → IsProfile profile
    → found_profile (some (written now profile r)) ≡ ok (some profile)
unfolding found_profile ◌>>=◌
found_written now profile r h = rw (profile_from-written now profile r h) refl

store-lookup :
    (user now : ℕ) (profile : RiskProfile) (found : Option RiskProfileRecord)
    (db : List RiskProfileRecord)
    → lookup user db ≡ found
    → (r : RiskProfileRecord) × (lookup user (store_profile user now profile found db)
        ≡ some (written now profile r))
unfolding store_profile
store-lookup user now profile none db e =
    let r : RiskProfileRecord = record { user_id = user; columns = λ q. 0; updated_at = now } in
    (r, lookup-append user db (written now profile r) ∙ rw (e, ==_refl user) refl)
store-lookup user now profile (some r) db e =
    (r, lookup-update user user (written now profile) db (λ a. refl) ∙ rw (e, ==_refl user) refl)

store-others :
    (user now : ℕ) (profile : RiskProfile) (found : Option RiskProfileRecord)
    (db : List RiskProfileRecord) (k : ℕ)
    → k ≢ user
    → lookup k (store_profile user now profile found db) ≡ lookup k db
unfolding store_profile
store-others user now profile none db k ne = ground (
  arith,
  lookup-append k db
      (written now profile (record { user_id = user; columns = λ q. 0; updated_at = now })),
)
store-others user now profile (some r) db k ne =
    ground (arith, lookup-update k user (written now profile) db (λ a. refl))

save-ok :
    (user now : ℕ) (answers : Question → RawAnswer) (db : List RiskProfileRecord)
    {profile : RiskProfile} {at : ℕ} {after : List RiskProfileRecord}
    → save user now answers db ≡ (ok (profile, at), after)
    → (from_answers answers ≡ ok profile)
      × (after ≡ store_profile user now profile (lookup user db) db)
unfolding save
save-ok user now answers db h = elim (Result-cases (from_answers answers)) [
  | inl (p, e) ↦ (e ∙ cc (rw (e, save) at h), cc (rw (e, save) at h))
  | inr (x, e) ↦ absurd (cc (rw (e, save) at h))
]

-- Where a questionnaire is saved, its user's profile is found again with the same answers, and it
-- has a type; the profiles of the other users are as they were.
pub find-save :
    (user now : ℕ) (answers : Question → RawAnswer) (db : List RiskProfileRecord)
    {profile : RiskProfile} {at : ℕ} {after : List RiskProfileRecord}
    → save user now answers db ≡ (ok (profile, at), after)
    → (find user after ≡ ok (some profile))
      × ((t : RiskProfileType) × (profile_type profile ≡ ok t))
      × ((k : ℕ) → k ≢ user → find k after ≡ find k db)
unfolding find
find-save user now answers db {profile = profile} h =
    let (read, same) = save-ok user now answers db h in
    let valid = from_answers-IsProfile answers read in
    let (r, stored) = store-lookup user now profile (lookup user db) db refl in
    (
      ap (λ l. found_profile (lookup user l)) same
          ∙ ap found_profile stored
          ∙ found_written now profile r valid,
      type-of_IsProfile profile valid,
      λ k ne.
          ap (λ l. found_profile (lookup k l)) same
          ∙ ap found_profile (store-others user now profile (lookup user db) db k ne),
    )
