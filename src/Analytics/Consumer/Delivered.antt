-- ===== src/Analytics/Consumer/Delivered.antt =====
-- Messages are confirmed after the commit, and may come again.
use finty.Base.{
  ⊤, ℕ, ◌≡◌, refl, sym, ap, ◌∙◌, inl, inr, Bool, Option, none, some, List, [], ◌∷◌, All, All-append,
  All-map, Bool-cases, subst,
}
use finty.Shared.Errors.{Result, ok, err, >>=-eq-ok}
use finty.Analytics.Projector.{FinanceEvent, ReadModel, processed_row, Outcome, duplicate, project}
use finty.Analytics.Replay.{IsProcessed, project-old, project-IsProcessed, kept}
use finty.Analytics.Consumer.{
  Message, Source, Consumer, acknowledge, projected, handle_decoded, handle, then_rest, handle_each,
  handle_all,
}

-- The event of a message, if it has one, is registered.
abbrev pub EventIn : Option FinanceEvent → ReadModel → Type 0
EventIn none db = Unit
EventIn (some e) db = IsProcessed e.event_id db

returned-IsProcessed :
    (e : FinanceEvent) (stream : ℕ) (db : ReadModel) {o : Outcome}
    → (project e stream db).0 ≡ ok o
    → IsProcessed e.event_id (project e stream db).1
returned-IsProcessed e stream db h =
    project-IsProcessed e stream db (ap (λ (r : Result Outcome). (r, (project e stream db).1)) h)

module _ {F : Type 0} (s : Source F) where
  abbrev pub IsDone : ReadModel → Message F → Type 0
  IsDone db m = EventIn (s.decode m.fields) db

  -- No message is confirmed whose event is not committed.
  abbrev pub IsSafe : Consumer F → Type 0
  IsSafe w = All (IsDone w.model) w.acked

  EventIn-project :
      (found : Option FinanceEvent) (e : FinanceEvent) (stream : ℕ) (db : ReadModel)
      → EventIn found db
      → EventIn found (project e stream db).1
  EventIn-project none e stream db h = tt
  EventIn-project (some x) e stream db h = kept e stream db x.event_id h

  acked-project :
      (ms : List (Message F)) (e : FinanceEvent) (stream : ℕ) (db : ReadModel)
      → All (IsDone db) ms
      → All (IsDone (project e stream db).1) ms
  acked-project ms e stream db h =
      All-map (IsDone db) (IsDone (project e stream db).1)
        (λ m d. EventIn-project (s.decode m.fields) e stream db d) ms h

  acknowledge-IsSafe :
      {A : Type 0} (v : A) (m : Message F) (w : Consumer F)
      → IsDone w.model m
      → IsSafe w
      → IsSafe (acknowledge s v m w).1
  unfolding acknowledge
  acknowledge-IsSafe v m w done h = elim (Bool-cases (s.takes_ack m.id)) [
    | inl y ↦ rw y (All-append (IsDone w.model) w.acked (m ∷ []) h (done, tt))
    | inr n ↦ rw n h
  ]

  projected-IsSafe :
      (m : Message F) (w : Consumer F) (x : Result Outcome × ReadModel)
      → ((o : Outcome) → x.0 ≡ ok o → IsDone x.1 m)
      → All (IsDone x.1) w.acked
      → IsSafe (projected s m w x).1
  unfolding projected
  projected-IsSafe m w (err e, db) done h = h
  projected-IsSafe m w (ok o, db) done h =
      acknowledge-IsSafe (some o) m (record w { model = db }) (done o refl) h

  handle_decoded-IsSafe :
      (found : Option FinanceEvent) (m : Message F) (w : Consumer F)
      → s.decode m.fields ≡ found
      → IsSafe w
      → IsSafe (handle_decoded s found m w).1
  unfolding handle_decoded
  handle_decoded-IsSafe none m w e h = acknowledge-IsSafe none m w (rw e tt) h
  handle_decoded-IsSafe (some x) m w e h =
      projected-IsSafe m w (project x m.id w.model)
        (λ o returned. rw e (returned-IsProcessed x m.id w.model returned))
        (acked-project w.acked x m.id w.model h)

  handle-IsSafe : (m : Message F) (w : Consumer F) → IsSafe w → IsSafe (handle s m w).1
  unfolding handle
  handle-IsSafe m w h = handle_decoded-IsSafe (s.decode m.fields) m w refl h

  then_rest-IsSafe :
      (x : Result (Option Outcome) × Consumer F) (rest : Consumer F → Result ⊤ × Consumer F)
      → IsSafe x.1
      → ((w : Consumer F) → IsSafe w → IsSafe (rest w).1)
      → IsSafe (then_rest s x rest).1
  unfolding then_rest
  then_rest-IsSafe (err e, w) rest h next = h
  then_rest-IsSafe (ok o, w) rest h next = next w h

  handle_each-IsSafe :
      (ms : List (Message F)) (w : Consumer F) → IsSafe w → IsSafe (handle_each s ms w).1
  unfolding handle_each
  handle_each-IsSafe [] w h = h
  handle_each-IsSafe (m ∷ ms) w h =
      then_rest-IsSafe (handle s m w) (handle_each s ms) (handle-IsSafe m w h)
        (λ next safe. handle_each-IsSafe ms next safe)

  -- Where every confirmed message has its event registered, that is still so after a batch is
  -- handled, new or recovered, whatever the projections and the confirmations raise.
  pub handle_all-IsSafe :
      (ms : List (Message F)) (w : Consumer F) → IsSafe w → IsSafe (handle_all s ms w).1
  unfolding handle_all
  handle_all-IsSafe ms w h = handle_each-IsSafe ms w h

  acknowledge-model :
      {A : Type 0} (v : A) (m : Message F) (w : Consumer F)
      → (acknowledge s v m w).1.model ≡ w.model
  unfolding acknowledge
  acknowledge-model v m w = elim (Bool-cases (s.takes_ack m.id)) [
    | inl y ↦ rw y refl
    | inr n ↦ rw n refl
  ]

  -- A message whose event is registered changes no table.
  decoded-again :
      (found : Option FinanceEvent) (m : Message F) (w : Consumer F)
      → EventIn found w.model
      → (handle_decoded s found m w).1.model ≡ w.model
  unfolding handle_decoded projected
  decoded-again none m w h = acknowledge-model none m w
  decoded-again (some x) m w (p, h) =
      rw (project-old x m.id w.model p h) (acknowledge-model (some duplicate) m w)

  handle-again :
      (m : Message F) (w : Consumer F) → IsDone w.model m → (handle s m w).1.model ≡ w.model
  unfolding handle
  handle-again m w h = decoded-again (s.decode m.fields) m w h

  then_rest-model :
      (x : Result (Option Outcome) × Consumer F) (rest : Consumer F → Result ⊤ × Consumer F)
      {db : ReadModel}
      → x.1.model ≡ db
      → ((w : Consumer F) → w.model ≡ db → (rest w).1.model ≡ db)
      → (then_rest s x rest).1.model ≡ db
  unfolding then_rest
  then_rest-model (err e, w) rest h next = h
  then_rest-model (ok o, w) rest h next = next w h

  each-again :
      (ms : List (Message F)) (w : Consumer F) {db : ReadModel}
      → All (IsDone db) ms
      → w.model ≡ db
      → (handle_each s ms w).1.model ≡ db
  unfolding handle_each
  each-again [] w h e = e
  each-again (m ∷ ms) w {db = db} (here, rest) e =
      then_rest-model (handle s m w) (handle_each s ms)
        (handle-again m w (subst (λ x. IsDone x m) (sym e) here) ∙ e)
        (λ next same. each-again ms next rest same)

  projected-model :
      (m : Message F) (w : Consumer F) (x : Result Outcome × ReadModel)
      → (projected s m w x).1.model ≡ x.1
  unfolding projected
  projected-model m w (err e, db) = refl
  projected-model m w (ok o, db) = acknowledge-model (some o) m (record w { model = db })

  projected-returned :
      (m : Message F) (w : Consumer F) (x : Result Outcome × ReadModel) {v : Option Outcome}
      → (projected s m w x).0 ≡ ok v
      → (o : Outcome) × (x.0 ≡ ok o)
  unfolding projected
  projected-returned m w (err e, db) h = cc
  projected-returned m w (ok o, db) h = (o, refl)

  -- What is registered stays so, and the event of a message that was handled is.
  handle-keeps :
      (found : Option FinanceEvent) (x : Option FinanceEvent) (m : Message F) (w : Consumer F)
      → EventIn found w.model
      → EventIn found (handle_decoded s x m w).1.model
  unfolding handle_decoded
  handle-keeps found none m w h = subst (EventIn found) (sym (acknowledge-model none m w)) h
  handle-keeps found (some e) m w h =
      subst (EventIn found) (sym (projected-model m w (project e m.id w.model)))
        (EventIn-project found e m.id w.model h)

  handle-registers :
      (x : Option FinanceEvent) (m : Message F) (w : Consumer F) {v : Option Outcome}
      → (handle_decoded s x m w).0 ≡ ok v
      → EventIn x (handle_decoded s x m w).1.model
  unfolding handle_decoded
  handle-registers none m w h = tt
  handle-registers (some e) m w h =
      let (o, returned) = projected-returned m w (project e m.id w.model) h in
      subst (EventIn (some e)) (sym (projected-model m w (project e m.id w.model)))
        (returned-IsProcessed e m.id w.model returned)

  then_rest-keeps :
      (found : Option FinanceEvent) (x : Result (Option Outcome) × Consumer F)
      (rest : Consumer F → Result ⊤ × Consumer F)
      → EventIn found x.1.model
      → ((w : Consumer F) → EventIn found w.model → EventIn found (rest w).1.model)
      → EventIn found (then_rest s x rest).1.model
  unfolding then_rest
  then_rest-keeps found (err e, w) rest h next = h
  then_rest-keeps found (ok o, w) rest h next = next w h

  each-keeps :
      (found : Option FinanceEvent) (ms : List (Message F)) (w : Consumer F)
      → EventIn found w.model
      → EventIn found (handle_each s ms w).1.model
  unfolding handle_each handle
  each-keeps found [] w h = h
  each-keeps found (m ∷ ms) w h =
      then_rest-keeps found (handle s m w) (handle_each s ms)
        (handle-keeps found (s.decode m.fields) m w h) (λ next e. each-keeps found ms next e)

  then_rest-IsDone :
      (x : Result (Option Outcome) × Consumer F) (ms : List (Message F)) (m : Message F)
      → (then_rest s x (handle_each s ms)).0 ≡ ok tt
      → ((v : Option Outcome) → x.0 ≡ ok v → IsDone x.1.model m)
      → ((w : Consumer F)
          → (handle_each s ms w).0 ≡ ok tt
          → All (IsDone (handle_each s ms w).1.model) ms)
      → All (IsDone (then_rest s x (handle_each s ms)).1.model) (m ∷ ms)
  unfolding then_rest
  then_rest-IsDone (err e, w) ms m h done next = cc
  then_rest-IsDone (ok o, w) ms m h done next =
      (each-keeps (s.decode m.fields) ms w (done o refl), next w h)

  each-IsDone :
      (ms : List (Message F)) (w : Consumer F)
      → (handle_each s ms w).0 ≡ ok tt
      → All (IsDone (handle_each s ms w).1.model) ms
  unfolding handle_each handle
  each-IsDone [] w h = tt
  each-IsDone (m ∷ ms) w h =
      then_rest-IsDone (handle s m w) ms m h
        (λ v returned. handle-registers (s.decode m.fields) m w returned)
        (λ next rest. each-IsDone ms next rest)

-- Where a batch was handled and the call returned, handling the same messages again, with any
-- answers of the stream to the confirmations, leaves the tables as they are.
pub handle_all-again :
    {F : Type 0} (s : Source F) (takes_ack : ℕ → Bool) (ms : List (Message F)) (w : Consumer F)
    {n : ℕ}
    → (handle_all s ms w).0 ≡ ok n
    → (handle_all (record s { takes_ack = takes_ack }) ms (handle_all s ms w).1).1.model
      ≡ (handle_all s ms w).1.model
unfolding handle_all
handle_all-again s takes_ack ms w h =
    let (v, returned, _) = >>=-eq-ok _ _ h in
    each-again (record s { takes_ack = takes_ack }) ms (handle_each s ms w).1
      (each-IsDone s ms w returned) refl
