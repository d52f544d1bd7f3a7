-- ===== src/Analytics/Convergence.antt =====
-- The row of a transaction does not depend on the order in which its events are delivered: an
-- abstract view of the row, what the projector does to it, and the exchange of two deliveries.
use finty.Base.{
  ℕ, ◌≡◌, refl, sym, ◌∙◌, ap, ◌≢◌, Option, none, some, List, [], ◌∷◌, ◌++◌, All, ltb, if◌then◌else◌,
  arith,
}
use finty.Analytics.Projector.{
  EventType, transaction_manually_added, transaction_categorized, transaction_deleted,
  TransactionSnapshot, FinanceEvent, TransactionFact, is_deleted, apply_event, apply_to,
}

-- The facts that no event of a transaction changes.
abbrev pub fixed : TransactionSnapshot → TransactionSnapshot
fixed c = record c { category_name = none; categorization_source = none }

-- What the calculations see of a row: nothing yet, its columns with the instant of the event that
-- wrote them, or a deleted row.
pub data View : Type 0 where
  unseen dead : View
  live : TransactionSnapshot → ℕ → View

unfoldable pub view : Option TransactionFact → View
view none = unseen
view (some r) = elim r.deleted_at [ some _ ↦ dead | none ↦ live r.columns r.last_event_at ]

-- The newest event wins, and a deletion is final.
abbrev newer : TransactionSnapshot → ℕ → FinanceEvent → View
newer c last e = if ltb e.occurred_at last then live c last else live e.payload e.occurred_at

abbrev pub newest : View → FinanceEvent → View
newest dead e = dead
newest unseen e = if is_deleted e.event_type then dead else live e.payload e.occurred_at
newest (live c last) e = if is_deleted e.event_type then dead else newer c last e

-- The row after the events, in the order of their delivery.
unfoldable pub deliver : Option TransactionFact → List FinanceEvent → Option TransactionFact
deliver r [] = r
deliver r (e ∷ es) = deliver (some (apply_event r e).1) es

abbrev pub newest_of : View → List FinanceEvent → View
newest_of v [] = v
newest_of v (e ∷ es) = newest_of (newest v e) es

-- An event of the transaction with these facts.
abbrev pub IsOf : TransactionSnapshot → FinanceEvent → Type 0
IsOf b e = fixed e.payload ≡ b

abbrev pub IsRowOf : TransactionSnapshot → Option TransactionFact → Type 0
IsRowOf b none = Unit
IsRowOf b (some r) = fixed r.columns ≡ b

-- A new category on columns with the same facts gives the columns of the event.
recategorized :
    (c p : TransactionSnapshot)
    → fixed c ≡ fixed p
    → record c { category_name = p.category_name; categorization_source = p.categorization_source }
      ≡ p
recategorized c p e =
    ap
      (λ (x : TransactionSnapshot). record x {
        category_name = p.category_name;
        categorization_source = p.categorization_source;
      })
      e

-- What the projector does to a row is what `newest` does to its view.
apply-row :
    (b c p : TransactionSnapshot) (t : EventType) (last at id : ℕ) (d : Option ℕ)
    → fixed c ≡ b
    → fixed p ≡ b
    → let r : TransactionFact = record { columns = c; deleted_at = d; last_event_at = last } in
      let e : FinanceEvent = record {
        event_id = id;
        event_type = t;
        occurred_at = at;
        payload = p;
      } in
      (view (some (apply_to d r e).1) ≡ newest (view (some r)) e)
      × (fixed (apply_to d r e).1.columns ≡ b)
unfolding view
apply-row b c p t last at id (some x) h k = (refl, h)
apply-row b c p transaction_deleted last at id none h k = (refl, h)
apply-row b c p transaction_categorized last at id none h k =
    let same = recategorized c p (h ∙ sym k) in ground arith
apply-row b c p transaction_manually_added last at id none h k = ground arith

apply-view :
    (b : TransactionSnapshot) (r : Option TransactionFact) (e : FinanceEvent)
    → IsRowOf b r
    → IsOf b e
    → (view (some (apply_event r e).1) ≡ newest (view r) e) × IsRowOf b (some (apply_event r e).1)
unfolding view apply_event
apply-view b none e h k = (ground arith, k)
apply-view b (some r) e h k =
    apply-row b r.columns e.payload e.event_type r.last_event_at e.occurred_at e.event_id
      r.deleted_at h k

deliver-view :
    (b : TransactionSnapshot) (r : Option TransactionFact) (es : List FinanceEvent)
    → IsRowOf b r
    → All (IsOf b) es
    → view (deliver r es) ≡ newest_of (view r) es
unfolding deliver
deliver-view b r [] h k = refl
deliver-view b r (e ∷ es) h (k, ks) =
    let (seen, row) = apply-view b r e h k in
    deliver-view b (some (apply_event r e).1) es row ks ∙ ap (λ v. newest_of v es) seen

-- Two events of different instants leave the same view in either order.
newest-swap :
    (v : View) (c d : TransactionSnapshot) (s t : EventType) (m n i j : ℕ)
    → m ≢ n
    → let e : FinanceEvent = record {
      event_id = i;
      event_type = s;
      occurred_at = m;
      payload = c;
    } in
      let f : FinanceEvent = record {
        event_id = j;
        event_type = t;
        occurred_at = n;
        payload = d;
      } in
      newest (newest v e) f ≡ newest (newest v f) e
newest-swap dead c d s t m n i j h = refl
newest-swap unseen c d s t m n i j h = ground arith
newest-swap (live x last) c d s t m n i j h = ground arith

newest_of-swap :
    (v : View) (xs ys : List FinanceEvent) (e f : FinanceEvent)
    → e.occurred_at ≢ f.occurred_at
    → newest_of v (xs ++ (e ∷ f ∷ ys)) ≡ newest_of v (xs ++ (f ∷ e ∷ ys))
newest_of-swap v [] ys e f h =
    ap (λ w. newest_of w ys)
      (newest-swap v e.payload f.payload e.event_type f.event_type e.occurred_at f.occurred_at
        e.event_id f.event_id h)
newest_of-swap v (x ∷ xs) ys e f h = newest_of-swap (newest v x) xs ys e f h

IsOf-swap :
    (b : TransactionSnapshot) (xs ys : List FinanceEvent) (e f : FinanceEvent)
    → All (IsOf b) (xs ++ (e ∷ f ∷ ys))
    → All (IsOf b) (xs ++ (f ∷ e ∷ ys))
IsOf-swap b [] ys e f (h, (k, ks)) = (k, (h, ks))
IsOf-swap b (x ∷ xs) ys e f (h, k) = (h, IsOf-swap b xs ys e f k)

-- For the events of one transaction, which share all facts but the category, two neighbouring
-- deliveries with different instants may be exchanged: the projected row is deleted, or has the
-- same columns and the same instant, either way.
pub deliver-swap :
    (b : TransactionSnapshot) (xs ys : List FinanceEvent) (e f : FinanceEvent)
    → e.occurred_at ≢ f.occurred_at
    → All (IsOf b) (xs ++ (e ∷ f ∷ ys))
    → view (deliver none (xs ++ (e ∷ f ∷ ys))) ≡ view (deliver none (xs ++ (f ∷ e ∷ ys)))
deliver-swap b xs ys e f h k =
    deliver-view b none (xs ++ (e ∷ f ∷ ys)) tt k
    ∙ newest_of-swap (view none) xs ys e f h
    ∙ sym (deliver-view b none (xs ++ (f ∷ e ∷ ys)) tt (IsOf-swap b xs ys e f k))
