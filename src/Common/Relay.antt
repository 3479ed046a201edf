-- ===== src/Common/Relay.antt =====
-- services/{iam,logistics,volunteer}/app/events/relay.py, which are the same: the rows of the outbox
-- are published in the order of their ids, in which the table is listed here.
pub mod Sound
pub mod Drained
use rcp_api.Base.{
  ℕ, zero, suc, ◌+◌, String, Bool, true, false, not, Option, none, some, List, [], ◌∷◌, ◌++◌, ◌&&◌,
  is_some, if◌then◌else◌, map, length,
}

-- `Outbox`, without `created_at`
pub record OutboxRow (P : Type 0) : Type 0 where
  pub id : ℕ
  pub event_id : ℕ
  pub routing_key : String
  pub payload : P
  pub published_at : Option ℕ

-- What `basic_publish` sends.
pub record Message (P : Type 0) : Type 0 where
  pub routing_key : String
  pub body : P
  pub message_id : ℕ

-- The table, and the messages that the broker has confirmed.
pub record Relay (P : Type 0) : Type 0 where
  pub rows : List (OutboxRow P)
  pub confirmed : List (Message P)

abbrev pub batch_size : ℕ
batch_size = 100

module _ {P : Type 0} where
  abbrev pub message : OutboxRow P → Message P
  message row = record {
    routing_key = row.routing_key;
    body = row.payload;
    message_id = row.event_id;
  }

  abbrev pub unpublished : OutboxRow P → Bool
  unpublished row = not (is_some row.published_at)

  -- The row is not published, and no other replica has locked it.
  abbrev pub eligible : (OutboxRow P → Bool) → OutboxRow P → Bool
  eligible locked row = unpublished row && not (locked row)

  -- `.limit(n).with_for_update(skip_locked=True)`
  unfoldable pub select_batch : (OutboxRow P → Bool) → ℕ → List (OutboxRow P) → List (OutboxRow P)
  select_batch locked n [] = []
  select_batch locked zero (row ∷ rows) = []
  select_batch locked (suc n) (row ∷ rows) = elim (eligible locked row) [
    | true ↦ row ∷ select_batch locked n rows
    | false ↦ select_batch locked (suc n) rows
  ]

  -- The assignments to the objects of the batch, as the commit writes them.
  unfoldable pub mark_batch : (OutboxRow P → Bool) → ℕ → ℕ → List (OutboxRow P) → List (OutboxRow P)
  mark_batch locked now n [] = []
  mark_batch locked now zero (row ∷ rows) = row ∷ rows
  mark_batch locked now (suc n) (row ∷ rows) = elim (eligible locked row) [
    | true ↦ record row { published_at = some now } ∷ mark_batch locked now n rows
    | false ↦ row ∷ mark_batch locked now (suc n) rows
  ]

  -- `basic_publish` of one row after the other: those that the broker confirms, up to the first that
  -- it does not; and whether all were.
  unfoldable pub publish : (OutboxRow P → Bool) → List (OutboxRow P) → List (OutboxRow P) × Bool
  publish confirms [] = ([], true)
  publish confirms (row ∷ rows) =
      let (sent, all) = publish confirms rows in
      if confirms row then (row ∷ sent, all) else ([], false)

  -- `_drain_once`: how many rows were published; `none` is the exception of `basic_publish`, with
  -- which nothing is committed.
  unfoldable pub drain_once :
      (locked confirms : OutboxRow P → Bool) (now : ℕ) → Relay P → Option ℕ × Relay P
  unfolding select_batch mark_batch publish
  drain_once locked confirms now relay =
      let batch = select_batch locked batch_size relay.rows in
      let (sent, all) = publish confirms batch in
      let confirmed = relay.confirmed ++ map message sent in
      if all
      then (
        some (length batch),
        record { rows = mark_batch locked now batch_size relay.rows; confirmed = confirmed },
      )
      else (none, record relay { confirmed = confirmed })
