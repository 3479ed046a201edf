-- ===== src/Common/Relay/Sound.antt =====
-- relay.py: what is marked as published, whatever the broker and the other replicas do.
use rcp_api.Base.{
  ℕ, zero, suc, ◌≡◌, refl, Bool, true, none, List, [], ◌∷◌, ◌++◌, arith, ◌==◌, is_some, exists, map,
  All, All-append, All-imp, Bool-cases, inl, inr, exists-append_right, exists-append_left,
}
use rcp_api.Common.Relay.{
  OutboxRow, Message, Relay, batch_size, message, eligible, select_batch, mark_batch, publish,
  drain_once,
}

module _ {P : Type 0} where
  abbrev pub has_message : ℕ → List (Message P) → Bool
  has_message id messages = exists (λ (m : Message P). m.message_id == id) messages

  -- A row that is marked as published is with the broker.
  abbrev pub IsBacked : List (Message P) → OutboxRow P → Type 0
  IsBacked confirmed row =
      is_some row.published_at ≡ true → has_message row.event_id confirmed ≡ true

  abbrev pub AreBacked : Relay P → Type 0
  AreBacked relay = All (IsBacked relay.confirmed) relay.rows

  IsBacked-more :
      (confirmed more : List (Message P)) (rows : List (OutboxRow P))
      → All (IsBacked confirmed) rows
      → All (IsBacked (confirmed ++ more)) rows
  IsBacked-more confirmed more rows all =
      All-imp (IsBacked confirmed) (IsBacked (confirmed ++ more)) rows
        (λ row backed published.
          exists-append_left (λ (m : Message P). m.message_id == row.event_id) confirmed more
            (backed published))
        all

  abbrev AreWith : List (Message P) → List (OutboxRow P) → Type 0
  AreWith confirmed rows = All (λ row. has_message row.event_id confirmed ≡ true) rows

  AreWith-self : (rows : List (OutboxRow P)) → AreWith (map message rows) rows
  AreWith-self [] = tt
  AreWith-self (row ∷ rows) = (
    ground arith,
    All-imp (λ r. has_message r.event_id (map message rows) ≡ true)
        (λ r. has_message r.event_id (message row ∷ map message rows) ≡ true) rows
        (λ r h. ground (arith, h)) (AreWith-self rows),
  )

  AreWith-after :
      (confirmed : List (Message P)) (rows : List (OutboxRow P))
      → AreWith (confirmed ++ map message rows) rows
  AreWith-after confirmed rows =
      All-imp (λ r. has_message r.event_id (map message rows) ≡ true)
        (λ r. has_message r.event_id (confirmed ++ map message rows) ≡ true) rows
        (λ r h.
          exists-append_right (λ (m : Message P). m.message_id == r.event_id) confirmed
            (map message rows) h)
        (AreWith-self rows)

  mark_batch-AreBacked :
      (locked : OutboxRow P → Bool) (now n : ℕ) (rows : List (OutboxRow P))
      (confirmed : List (Message P))
      → All (IsBacked confirmed) rows
      → AreWith confirmed (select_batch locked n rows)
      → All (IsBacked confirmed) (mark_batch locked now n rows)
  unfolding select_batch mark_batch
  mark_batch-AreBacked locked now n [] confirmed all batch = tt
  mark_batch-AreBacked locked now zero (row ∷ rows) confirmed all batch = all
  mark_batch-AreBacked locked now (suc n) (row ∷ rows) confirmed all batch =
      elim (Bool-cases (eligible locked row)) [
        | inl chosen ↦
            let (here, later) : AreWith confirmed (row ∷ select_batch locked n rows) =
              rw (select_batch, chosen) at batch in
            rw (mark_batch, chosen)
              ((λ _. here), mark_batch-AreBacked locked now n rows confirmed all.1 later)
        | inr passed ↦
            rw (mark_batch, passed)
              (
                all.0,
                mark_batch-AreBacked locked now (suc n) rows confirmed all.1
                    (rw (select_batch, passed) at batch),
              )
      ]

  publish_all :
      (confirms : OutboxRow P → Bool) (rows : List (OutboxRow P))
      → (publish confirms rows).1 ≡ true
      → (publish confirms rows).0 ≡ rows
  unfolding publish
  publish_all confirms [] h = refl
  publish_all confirms (row ∷ rows) h = ground (arith, publish_all confirms rows)

  drain_once-AreBacked :
      (locked confirms : OutboxRow P → Bool) (now : ℕ) (relay : Relay P)
      → AreBacked relay
      → AreBacked (drain_once locked confirms now relay).1
  unfolding drain_once
  drain_once-AreBacked locked confirms now relay backed =
      let batch = select_batch locked batch_size relay.rows in
      elim (Bool-cases (publish confirms batch).1) [
        | inr some_fail ↦ rw some_fail (
            IsBacked-more relay.confirmed (map message (publish confirms batch).0) relay.rows
              backed)
        | inl all ↦
            rw (all, publish_all confirms batch all)
              (mark_batch-AreBacked locked now batch_size relay.rows
                (relay.confirmed ++ map message batch)
                (IsBacked-more relay.confirmed (map message batch) relay.rows backed)
                (AreWith-after relay.confirmed batch))
      ]

  -- A transaction adds an event, or some replica's relay drains a batch.
  pub data Step : Relay P → Relay P → Type 0 where
    emit_row :
        (relay : Relay P) (row : OutboxRow P)
        → row.published_at ≡ none
        → Step relay (record relay { rows = relay.rows ++ row ∷ [] })
    drain :
        (relay : Relay P) (locked confirms : OutboxRow P → Bool) (now : ℕ)
        → Step relay (drain_once locked confirms now relay).1

  pub data Run : Relay P → Relay P → Type 0 where
    start : {relay : Relay P} → Run relay relay
    after : {a b c : Relay P} → Run a b → Step b c → Run a c

  Step-AreBacked : {a b : Relay P} → Step a b → AreBacked a → AreBacked b
  Step-AreBacked (emit_row relay row fresh) backed =
      All-append (IsBacked relay.confirmed) relay.rows (row ∷ []) backed
        ((λ published. cc (rw fresh at published)), tt)
  Step-AreBacked (drain relay locked confirms now) backed =
      drain_once-AreBacked locked confirms now relay backed

  -- Whatever events are emitted, whichever rows other replicas lock and whichever messages the
  -- broker refuses, at every relay, each row that is marked as published is one that the broker
  -- has confirmed, if that held at the start.
  pub Run-AreBacked : {a b : Relay P} → Run a b → AreBacked a → AreBacked b
  Run-AreBacked start backed = backed
  Run-AreBacked (after run step) backed = Step-AreBacked step (Run-AreBacked run backed)
