-- ===== src/Common/Outbox.antt =====
-- packages/common/rcp_common/outbox.py: the envelope of an event, and its row in the outbox.
pub mod Published
use rcp_api.Base.{ℕ, zero, suc, String, Option, none, some, List, [], ◌∷◌, ◌++◌}
use rcp_api.Common.Relay.{OutboxRow, Relay}

-- `envelope`, with `data` of some type; ids are UUIDs, and times instants.
pub record Envelope (D : Type 0) : Type 0 where
  pub event_id : ℕ
  pub event_type : String
  pub schema_version : ℕ
  pub occurred_at : ℕ
  pub tenant_id : Option ℕ
  pub producer : String
  pub trace_id : Option String
  pub data' : D

module _ {D : Type 0} where
  -- `build_envelope`, with what `uuid4` and the clock return
  unfoldable pub build_envelope :
      (event_id occurred_at : ℕ) (routing_key producer : String)
      → Option ℕ
      → D
      → (schema_version : ℕ) → Option String
      → ℕ × Envelope D
  build_envelope event_id occurred_at routing_key producer tenant data' version trace = (
    event_id,
    record {
      event_id = event_id;
      event_type = routing_key;
      schema_version = version;
      occurred_at = occurred_at;
      tenant_id = tenant;
      producer = producer;
      trace_id = trace;
      data' = data';
    },
  )

  -- `emit`, with the id that the table gives the row
  unfoldable pub emit :
      (id event_id occurred_at : ℕ) (producer routing_key : String)
      → Option ℕ
      → D
      → (schema_version : ℕ) → Option String
      → Relay (Envelope D)
      → Relay (Envelope D)
  unfolding build_envelope
  emit id event_id occurred_at producer routing_key tenant data' version trace relay =
      let (drawn, envelope) =
        build_envelope event_id occurred_at routing_key producer tenant data' version trace in
      record relay {
        rows =
            relay.rows
            ++ record {
              id = id;
              event_id = drawn;
              routing_key = routing_key;
              payload = envelope;
              published_at = none;
            }
              ∷ [];
      }
