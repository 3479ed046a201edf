-- ===== src/Common/Outbox/Published.antt =====
-- outbox.py and relay.py: an event from `emit` to the broker.
use rcp_api.Base.{
  ℕ, ◌≡◌, ◌<◌, ◌*◌, ◌+◌, refl, sym, ap, ◌∙◌, String, Option, none, List, [], ◌∷◌, ◌++◌, arith, map,
  select, length, length-append,
}
use mathlib.Core.List.{append_assoc}
use rcp_api.Common.Relay.{OutboxRow, Message, Relay, batch_size, message, unpublished}
use rcp_api.Common.Relay.Drained.{pending, drain_rounds, drain_rounds_lem, map-append}
use rcp_api.Common.Outbox.{Envelope, build_envelope, emit}

module _ {D : Type 0} (id event_id occurred_at : ℕ) (producer routing_key : String)
    (tenant : Option ℕ) (content : D) (version : ℕ) (trace : Option String) where
  abbrev pub emitted : Message (Envelope D)
  emitted = record {
    routing_key = routing_key;
    body =
        (build_envelope event_id occurred_at routing_key producer tenant content version trace).1;
    message_id = event_id;
  }

  abbrev new_row : OutboxRow (Envelope D)
  new_row = record {
    id = id;
    event_id = event_id;
    routing_key = routing_key;
    payload = emitted.body;
    published_at = none;
  }

  abbrev pub after_emit : Relay (Envelope D) → Relay (Envelope D)
  after_emit = emit id event_id occurred_at producer routing_key tenant content version trace

  select-append :
      (rows : List (OutboxRow (Envelope D))) (row : OutboxRow (Envelope D))
      → row.published_at ≡ none
      → select unpublished (rows ++ row ∷ []) ≡ select unpublished rows ++ row ∷ []
  select-append [] row fresh = rw fresh refl
  select-append (r ∷ rows) row fresh = ground (arith, select-append rows row fresh)

  pub emit_published :
      (times : List ℕ) (relay : Relay (Envelope D))
      → length (pending relay) < batch_size * length times
      → (drain_rounds times (after_emit relay)).confirmed
        ≡ relay.confirmed ++ map message (pending relay) ++ emitted ∷ []
  unfolding emit build_envelope
  emit_published times relay enough =
      let after = after_emit relay in
      let grown : pending after ≡ pending relay ++ new_row ∷ [] =
        select-append relay.rows new_row refl in
      let count : length (pending after) ≡ length (pending relay) + 1 =
        ap length grown ∙ length-append (pending relay) (new_row ∷ []) in
      (drain_rounds_lem times after (omega (arith, count, enough))).1
      ∙ ap (λ ms. relay.confirmed ++ ms)
          (ap (map message) grown ∙ map-append (pending relay) (new_row ∷ []))
      ∙ sym (append_assoc relay.confirmed (map message (pending relay)) (emitted ∷ []))
