-- ===== src/Finance/Backfill/Complete.antt =====
-- The backfill ends, and then nothing is missing.
use finty.Base.{
  ⊤, ℕ, zero, suc, ◌+◌, ◌≤◌, ◌<◌, ◌≡◌, refl, sym, ap, ◌∙◌, subst, inl, inr, Bool, true, false, ◌||◌,
  Option, some, List, [], ◌∷◌, arith, All, All-map, Bool-cases, insert_by, order_by, keep, length,
  ltb, ltb→lt, lt→ltb, ◌==◌, ==_refl,
}
use finty.Shared.Errors.{Result, ok, err, ok-injective}
use finty.Shared.Python.{Python}
use finty.Finance.Store.{Transaction, Db}
use finty.Finance.Session.{pure, atomic, atomic-ok}
use finty.Finance.Backfill.{
  is_missing, missing, earlier, take, chosen, record_all, after_round, rounds, run,
}
use finty.Finance.Backfill.Recorded.{is_in, IsRecorded, record_all-IsRecorded}

is_in-insert_by :
    (before : Transaction → Transaction → Bool) (id : ℕ) (t : Transaction) (m : List Transaction)
    → is_in id (insert_by before t m) ≡ (t.id == id || is_in id m)
is_in-insert_by before id t [] = refl
is_in-insert_by before id t (b ∷ m) = ground (arith, is_in-insert_by before id t m)

is_in-order_by :
    (before : Transaction → Transaction → Bool) (id : ℕ) (m : List Transaction)
    → is_in id (order_by before m) ≡ is_in id m
is_in-order_by before id [] = refl
is_in-order_by before id (t ∷ m) =
    is_in-insert_by before id t (order_by before m)
    ∙ ap (λ b. t.id == id || b) (is_in-order_by before id m)

take-short : (k : ℕ) (xs : List Transaction) → length (take k xs) < k → take k xs ≡ xs
take-short zero xs h = absurd (omega arith)
take-short (suc k) [] h = refl
take-short (suc k) (x ∷ xs) h = ap (λ l. x ∷ l) (take-short k xs (omega arith))

take-nothing : (k : ℕ) → take {A = Transaction} k [] ≡ []
take-nothing zero = refl
take-nothing (suc k) = refl

-- A member that passes a test is in what is kept.
is_in-keep :
    (p : Transaction → Bool) (m : List Transaction)
    → All (λ t. p t ≡ true → is_in t.id (keep p m) ≡ true) m
is_in-keep p [] = tt
is_in-keep p (t ∷ m) = (
  λ yes_t. rw (yes_t, ==_refl t.id) refl,
  All-map (λ (a : Transaction). p a ≡ true → is_in a.id (keep p m) ≡ true)
      (λ a. p a ≡ true → is_in a.id (keep p (t ∷ m)) ≡ true) (λ a h e. ground (arith, h e)) m
      (is_in-keep p m),
)

keep-nothing :
    (p : Transaction → Bool) (m : List Transaction) → All (λ t. p t ≡ false) m → keep p m ≡ []
keep-nothing p [] h = refl
keep-nothing p (t ∷ m) (no_t, h) = rw no_t (keep-nothing p m h)

module _ (p q : Transaction → Bool) (weaker : (t : Transaction) → q t ≡ true → p t ≡ true) where
  length-keep_le : (m : List Transaction) → length (keep q m) ≤ length (keep p m)
  length-keep_le [] = omega arith
  length-keep_le (t ∷ m) = ground (arith, weaker t, length-keep_le m)

  -- The test `q` loses a member that `p` keeps.
  length-keep_lt :
      (id : ℕ) (m : List Transaction)
      → ((t : Transaction) → t.id ≡ id → q t ≡ false)
      → is_in id (keep p m) ≡ true
      → length (keep q m) < length (keep p m)
  length-keep_lt id [] lost h = cc
  length-keep_lt id (t ∷ m) lost h =
      ground (arith, weaker t, lost t, length-keep_le m, length-keep_lt id m lost)

-- One round: fewer are missing where something was chosen, and none where all were.
module _ (batch_size : ℕ) (db after : Db) (h : IsRecorded (chosen batch_size db) db after) where
  missing-after : missing after ≡ keep (is_missing after.outbox) db.transactions
  missing-after = ap (keep (is_missing after.outbox)) h.transactions

  still_missing :
      (t : Transaction) → is_missing after.outbox t ≡ true → is_missing db.outbox t ≡ true
  still_missing t e = ground (arith, h.recorded t.id)

  not_missing :
      (t : Transaction)
      → is_in t.id (chosen batch_size db) ≡ true
      → is_missing after.outbox t ≡ false
  not_missing t e = ground (arith, h.recorded t.id)

  some_chosen :
      (t : Transaction) (ts : List Transaction)
      → chosen batch_size db ≡ t ∷ ts
      → is_in t.id (missing db) ≡ true
      → length (missing after) < length (missing db)
  some_chosen t ts e present =
      let mine : is_in t.id (chosen batch_size db) ≡ true = rw e (rw (==_refl t.id) refl) in
      rw missing-after (
        length-keep_lt (is_missing db.outbox) (is_missing after.outbox) still_missing t.id
          db.transactions
          (λ a same.
            not_missing a (subst (λ k. is_in k (chosen batch_size db) ≡ true) (sym same) mine))
          present)

  all_chosen : length (chosen batch_size db) < batch_size → missing after ≡ []
  all_chosen short =
      let whole = take-short batch_size (order_by earlier (missing db)) short in
      let gone : (t : Transaction)
          → (is_missing db.outbox t ≡ true → is_in t.id (missing db) ≡ true)
          → is_missing after.outbox t ≡ false =
        λ t there. elim (Bool-cases (is_missing db.outbox t)) [
          | inl y ↦
              not_missing t
                (ap (is_in t.id) whole ∙ is_in-order_by earlier t.id (missing db) ∙ there y)
          | inr n ↦ ground (arith, still_missing t)
        ] in
      missing-after
      ∙ keep-nothing (is_missing after.outbox) db.transactions (
          All-map
            (λ (t : Transaction). is_missing db.outbox t ≡ true → is_in t.id (missing db) ≡ true)
            (λ t. is_missing after.outbox t ≡ false) gone db.transactions
            (is_in-keep (is_missing db.outbox) db.transactions))

-- The head of what is taken is one of the members.
is_in-take :
    (k : ℕ) (xs : List Transaction) (t : Transaction) (ts : List Transaction)
    → take k xs ≡ t ∷ ts
    → is_in t.id xs ≡ true
is_in-take zero xs t ts e = cc
is_in-take (suc k) [] t ts e = cc
is_in-take (suc k) (x ∷ xs) t ts e =
    let same : x ≡ t = ap (λ l. elim l [ [] ↦ x | y ∷ r ↦ y ]) e in
    rw (← same) (rw (==_refl x.id) refl)

-- A backfill that returned, from tables where `created` events were counted before.
pub record IsComplete (created n : ℕ) (db after : Db) : Type 0 where
  pub transactions : after.transactions ≡ db.transactions
  pub accounts : after.accounts ≡ db.accounts
  pub counted : length after.outbox + created ≡ length db.outbox + n
  pub none_missing : missing after ≡ []

-- The call ends, with an error or with complete tables.
abbrev pub Ends : ℕ → Db → Option (Result ℕ × Db) → Type 0
Ends created db y =
    (r : Result ℕ) × (last : Db) × (y ≡ some (r, last))
    × ((n : ℕ) → r ≡ ok n → IsComplete created n db last)

IsComplete-then :
    (created n : ℕ) (ts : List Transaction) (a b c : Db)
    → IsRecorded ts a b
    → IsComplete (created + length ts) n b c
    → IsComplete created n a c
IsComplete-then created n ts a b c h k = record {
  transactions = k.transactions ∙ h.transactions;
  accounts = k.accounts ∙ h.accounts;
  counted = omega (arith, k.counted, h.longer);
  none_missing = k.none_missing;
}

module _ ⦃p : Python⦄ (ids : ℕ → ℕ) (batch_size : ℕ) where
  after_round-Ends :
      (created : ℕ) (db : Db) (next : ℕ → Db → Option (Result ℕ × Db)) (x : Result ⊤ × Db)
      → (x.0 ≡ ok tt → IsRecorded (chosen batch_size db) db x.1)
      → ((after : Db)
          → IsRecorded (chosen batch_size db) db after
          → ltb (length (chosen batch_size db)) batch_size ≡ false
          → Ends
              (created + length (chosen batch_size db))
              after
              (next (created + length (chosen batch_size db)) after))
      → Ends created db (after_round ids batch_size (length (chosen batch_size db)) created next x)
  unfolding after_round
  after_round-Ends created db next (err e, after) h more = (err e, after, refl, λ n same. cc)
  after_round-Ends created db next (ok _, after) h more =
      let size = length (chosen batch_size db) in
      let recorded = h refl in
      elim (Bool-cases (ltb size batch_size)) [
        | inl y ↦ rw y (
          ok (created + size),
          after,
          refl,
          λ n same.
              let count : created + size ≡ n = ok-injective same in
              record {
                transactions = recorded.transactions;
                accounts = recorded.accounts;
                counted = omega (arith, recorded.longer, count);
                none_missing = all_chosen batch_size db after recorded (ltb→lt size batch_size y);
              },
        )
        | inr n ↦
            let (r, last, e, done) = more after recorded n in
            rw n (
              r,
              last,
              e,
              λ k same.
                  IsComplete-then created k (chosen batch_size db) db after last recorded
                    (done k same),
            )
      ]

  fewer :
      (db after : Db) (xs : List Transaction)
      → 1 ≤ batch_size
      → chosen batch_size db ≡ xs
      → IsRecorded (chosen batch_size db) db after
      → ltb (length xs) batch_size ≡ false
      → length (missing after) < length (missing db)
  fewer db after [] h e recorded full = absurd (ground arith)
  fewer db after (t ∷ ts) h e recorded full = some_chosen batch_size db after recorded t ts e (
      sym (is_in-order_by earlier t.id (missing db))
      ∙ is_in-take batch_size (order_by earlier (missing db)) t ts e)

  rounds-Ends :
      (fuel created : ℕ) (db : Db)
      → 1 ≤ batch_size
      → length (missing db) < fuel
      → Ends created db (rounds ids fuel batch_size created db)
  unfolding rounds
  rounds-Ends zero created db h enough = absurd (omega arith)
  rounds-Ends (suc fuel) created db h enough =
      after_round-Ends created db (rounds ids fuel batch_size)
        (atomic (record_all ids (chosen batch_size db)) db)
        (λ e. record_all-IsRecorded ids (chosen batch_size db) db (returned e))
        (λ after recorded full.
          let less = fewer db after (chosen batch_size db) h refl recorded full in
          rounds-Ends fuel (created + length (chosen batch_size db)) after h (omega (arith, less)))
    where
      returned :
          (atomic (record_all ids (chosen batch_size db)) db).0 ≡ ok tt
          → record_all ids (chosen batch_size db) db
            ≡ (ok tt, (atomic (record_all ids (chosen batch_size db)) db).1)
      returned e =
          atomic-ok (record_all ids (chosen batch_size db)) db
            (ap (λ (r : Result ⊤). (r, (atomic (record_all ids (chosen batch_size db)) db).1)) e)

  -- A run where nothing is missing.
  rounds-nothing :
      (fuel : ℕ) (db : Db)
      → 1 ≤ batch_size
      → missing db ≡ []
      → run ids (suc fuel) batch_size db ≡ some (ok 0, db)
  unfolding run rounds after_round record_all atomic pure
  rounds-nothing fuel db h none_missing =
      let idle : chosen batch_size db ≡ [] =
        ap (λ l. take batch_size (order_by earlier l)) none_missing ∙ take-nothing batch_size in
      rw idle (rw (lt→ltb 0 batch_size (omega arith)) refl)

  -- With batches of at least one, and more rounds than transactions that are missing in the
  -- outbox, the backfill ends. Where it returns, the outbox has as many events more as it says, no
  -- transaction is missing and no account or transaction changed; another run finds nothing and
  -- changes nothing.
  pub run-completes :
      (fuel : ℕ) (db : Db)
      → 1 ≤ batch_size
      → length (missing db) < fuel
      → (r : Result ℕ) × (last : Db) × (run ids fuel batch_size db ≡ some (r, last))
        × ((n : ℕ)
            → r ≡ ok n
            → IsComplete 0 n db last
              × ((more : ℕ) → run ids (suc more) batch_size last ≡ some (ok 0, last)))
  unfolding run
  run-completes fuel db h enough =
      let (r, last, e, done) = rounds-Ends fuel 0 db h enough in
      (
        r,
        last,
        e,
        λ n same. (done n same, λ more. rounds-nothing more last h (done n same).none_missing),
      )
