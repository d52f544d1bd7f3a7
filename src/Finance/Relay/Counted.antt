-- ===== src/Finance/Relay/Counted.antt =====
-- How many events a run of the relay publishes.
use mathlib.Core.Option.{some-injective}
use finty.Base.{
  ℕ, zero, suc, ◌+◌, ◌≤◌, ◌<◌, ◌≡◌, refl, sym, ◌∙◌, ap, true, Option, none, some, List, [], ◌∷◌,
  inl, inr, Bool-cases, Option-cases, ==_iff, arith, ◌==◌,
}
use finty.Base.Table.{lookup, update, IsKeyed, update-IsKeyed}
use finty.Shared.Errors.{stream_unavailable, ok, err}
use finty.Finance.Events.{DomainEvent}
use finty.Finance.Store.{OutboxEvent, Db, outbox_row}
use finty.Finance.Relay.{
  is_pending, oldest, marked, mark, pending_count, publish_loop, publish_pending,
}

none-pending : (m : List OutboxEvent) → oldest m ≡ none → pending_count m ≡ 0
unfolding oldest pending_count
none-pending [] h = refl
none-pending (e ∷ m) h = ground (arith, none-pending m)

-- The oldest event stands in the table and is pending.
oldest-found :
    (m : List OutboxEvent) (e : OutboxEvent)
    → IsKeyed m
    → oldest m ≡ some e
    → (lookup e.id m ≡ some e) × (is_pending e ≡ true)
unfolding oldest
oldest-found [] e k h = cc
oldest-found (d ∷ m) e (new, k) h = elim (Option-cases (oldest m)) [
  | inl n ↦ ground (arith, rw n at h)
  | inr (f, is) ↦ let (found, p) = oldest-found m f k is in ground (arith, rw is at h)
]

absent-count :
    (id message now : ℕ) (m : List OutboxEvent)
    → lookup id m ≡ none
    → pending_count (update id (marked message now) m) ≡ pending_count m
unfolding pending_count
absent-count id message now [] h = refl
absent-count id message now (d ∷ m) h = ground (arith, absent-count id message now m)

marked-count :
    (id message now : ℕ) (m : List OutboxEvent) (e : OutboxEvent)
    → IsKeyed m
    → lookup id m ≡ some e
    → is_pending e ≡ true
    → pending_count (update id (marked message now) m) + 1 ≡ pending_count m
unfolding pending_count
marked-count id message now [] e k h p = cc
marked-count id message now (d ∷ m) e (new, k) h p = elim (Bool-cases (d.id == id)) [
  | inl y ↦
      let same : d ≡ e = some-injective _ _ (rw y at h) in
      let gone : lookup id m ≡ none = ap (λ i. lookup i m) (sym ((==_iff d.id id).0 y)) ∙ new in
      let open_one : is_pending d ≡ true = ap (λ (x : OutboxEvent). is_pending x) same ∙ p in
      rw (y, open_one, absent-count id message now m gone) (omega arith)
  | inr n ↦ ground (arith, marked-count id message now m e k (rw n at h) p)
]

module _ {S : Type 0} (publish : S → DomainEvent → Option ℕ × S) (now : ℕ) where
  empty_round :
      (n k : ℕ) (db : Db) (s : S)
      → oldest db.outbox ≡ none
      → publish_loop publish now (suc n) k db s ≡ (ok k, db, s)
  unfolding publish_loop
  empty_round n k db s h = rw (publish_loop, h) refl

  failed_round :
      (n k : ℕ) (db : Db) (s : S) (e : OutboxEvent)
      → oldest db.outbox ≡ some e
      → (publish s e.event).0 ≡ none
      → publish_loop publish now (suc n) k db s
        ≡ (err stream_unavailable, db, (publish s e.event).1)
  unfolding publish_loop
  failed_round n k db s e h f = rw (publish_loop, h, f) refl

  round :
      (n k : ℕ) (db : Db) (s : S) (e : OutboxEvent) (message : ℕ)
      → oldest db.outbox ≡ some e
      → (publish s e.event).0 ≡ some message
      → publish_loop publish now (suc n) k db s
        ≡ publish_loop publish now n (k + 1) (mark e.id message now db) (publish s e.event).1
  unfolding publish_loop
  round n k db s e message h f = rw (publish_loop, h, f) refl

  loop-counts :
      (n k : ℕ) (db : Db) (s : S) {published : ℕ} {db' : Db} {s' : S}
      → IsKeyed db.outbox
      → publish_loop publish now n k db s ≡ (ok published, db', s')
      → (pending_count db'.outbox + published ≡ pending_count db.outbox + k)
        × (published ≤ k + n)
        × (published < k + n → pending_count db'.outbox ≡ 0)
  unfolding publish_loop
  loop-counts zero k db s keys h = ground arith
  loop-counts (suc n) k db s keys h = elim (Option-cases (oldest db.outbox)) [
    | inl nothing ↦
        let all = none-pending db.outbox nothing in
        let same = sym (empty_round n k db s nothing) ∙ h in ground arith
    | inr (e, is) ↦ elim (Option-cases (publish s e.event).0) [
      | inl failed ↦ cc (sym (failed_round n k db s e is failed) ∙ h)
      | inr (message, sent) ↦
          let (found, p) = oldest-found db.outbox e keys is in
          let next = mark e.id message now db in
          let rest = sym (round n k db s e message is sent) ∙ h in
          let ih =
            loop-counts n (k + 1) next (publish s e.event).1
              (update-IsKeyed e.id (marked message now) db.outbox (λ x. refl) keys) rest in
          let one = marked-count e.id message now db.outbox e keys found p in omega (arith, ih, one)
    ]
  ]

  -- For a keyed outbox and any stream, a run of the relay that returns has published as many
  -- events as it says: so many fewer are pending, no more than the limit, and where they are fewer
  -- than the limit none is pending.
  pub publish_pending-counts :
      (limit : ℕ) (db : Db) (s : S) {published : ℕ} {db' : Db} {s' : S}
      → IsKeyed db.outbox
      → publish_pending publish now limit db s ≡ (ok published, db', s')
      → (pending_count db'.outbox + published ≡ pending_count db.outbox)
        × (published ≤ limit)
        × (published < limit → pending_count db'.outbox ≡ 0)
  unfolding publish_pending
  publish_pending-counts limit db s keys h =
      let counts = loop-counts limit 0 db s keys h in omega (arith, counts)
