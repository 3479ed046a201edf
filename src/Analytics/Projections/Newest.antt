-- ===== src/Analytics/Projections/Newest.antt =====
-- consumer.py: the events of one help request, in whatever order they arrive.
use rcp_api.Base.{
  ℕ, ◌≡◌, ◌<◌, refl, sym, ap, Bool, true, false, some, List, [], ◌∷◌, ◌++◌, arith, ◌==◌, exists,
  String, str_eq, Bool-cases, inl, inr, eq_iff,
}
use rcp_api.Analytics.Upsert.{upsert_newest}
use rcp_api.Analytics.Projections.{
  RequestProjection, Db, Envelope, request_row, overwrite_request, upsert_request,
  is_category_event, is_request_event, apply_event, handle, on_message,
}

abbrev item_updated : String
item_updated = "logistics.inventory.item-updated"

-- A request event takes the request branch.
request_kind :
    (kind : String)
    → is_request_event kind ≡ true
    → (is_category_event kind ≡ false) × (str_eq kind item_updated ≡ false)
request_kind kind h = elim (Bool-cases (str_eq kind "logistics.request.submitted")) [
  | inl e ↦ rw ((eq_iff kind "logistics.request.submitted").0 e) (refl, refl)
  | inr n ↦
      let e : str_eq kind "logistics.request.status-changed" ≡ true = rw n at h in
      rw ((eq_iff kind "logistics.request.status-changed").0 e) (refl, refl)
]

abbrev pub was_seen : Envelope → Db → Bool
was_seen e db = exists (λ (seen : ℕ). seen == e.event_id) db.processed

-- A request event that is new, with the row that its data make.
pub record IsRequestEvent (e : Envelope) (db : Db) (row : RequestProjection) : Type 0 where
  pub tenant : ℕ
  pub of_tenant : e.tenant_id ≡ some tenant
  pub kind : is_request_event e.event_type ≡ true
  pub fresh : was_seen e db ≡ false
  pub carries : request_row tenant e.payload ≡ some row

abbrev pub with_row : Envelope → RequestProjection → Db → Db
with_row e row db = record db {
  requests = upsert_request row db.requests;
  processed = db.processed ++ e.event_id ∷ [];
}

apply_request :
    (tenant : ℕ) (e : Envelope) (db : Db) (row : RequestProjection)
    → is_request_event e.event_type ≡ true
    → request_row tenant e.payload ≡ some row
    → apply_event tenant e db ≡ some (record db { requests = upsert_request row db.requests })
unfolding apply_event
apply_request tenant e db row kind carries =
    let (not_category, not_item) = request_kind e.event_type kind in
    rw (not_category, not_item, kind, carries) refl

pub request_event_lem :
    (e : Envelope) (db : Db) (row : RequestProjection)
    → IsRequestEvent e db row
    → on_message e db ≡ (true, with_row e row db)
unfolding on_message handle
request_event_lem e db row event =
    let of_tenant = event.of_tenant in
    let fresh = event.fresh in
    let applied = apply_request event.tenant e db row event.kind event.carries in ground arith

still_fresh :
    (id : ℕ) (seen : List ℕ) (other : ℕ)
    → exists (λ s. s == id) seen ≡ false
    → (other == id) ≡ false
    → exists (λ s. s == id) (seen ++ other ∷ []) ≡ false
still_fresh id [] other h apart = rw apart refl
still_fresh id (s ∷ seen) other h apart = ground (arith, still_fresh id seen other)

table_newest :
    (a b : RequestProjection) (s t : ℕ)
    → b.request_id ≡ a.request_id
    → a.updated_at ≡ some s
    → b.updated_at ≡ some t
    → s < t
    → (rows : List RequestProjection)
    → (upsert_request b (upsert_request a rows) ≡ upsert_request b rows)
      × (upsert_request a (upsert_request b rows) ≡ upsert_request b rows)
unfolding overwrite_request
table_newest a b s t same old new lt rows =
    upsert_newest (λ (r : RequestProjection). r.request_id) (λ r. r.updated_at) overwrite_request a
      b same s t old new lt (λ held incoming. refl) (λ held incoming. refl) (λ held. refl)
      (ap (λ (k : ℕ). record b { request_id = k }) (sym same)) rows

-- Of two new events of one request, the requests' projection after both is what the newer one
-- alone makes of it, in whichever order they arrive.
pub newest_wins :
    (older newer : Envelope) (db : Db) (a b : RequestProjection) (s t : ℕ)
    → IsRequestEvent older db a
    → IsRequestEvent newer db b
    → (older.event_id == newer.event_id) ≡ false
    → b.request_id ≡ a.request_id
    → a.updated_at ≡ some s
    → b.updated_at ≡ some t
    → s < t
    → ((on_message newer (on_message older db).1).1.requests ≡ (on_message newer db).1.requests)
      × ((on_message older (on_message newer db).1).1.requests ≡ (on_message newer db).1.requests)
newest_wins older newer db a b s t first second apart same old new lt =
    let (in_order, out_of_order) = table_newest a b s t same old new lt db.requests in
    let this = request_event_lem older db a first in
    let that = request_event_lem newer db b second in
    let that_after : on_message newer (with_row older a db)
        ≡ (true, with_row newer b (with_row older a db)) =
      request_event_lem newer (with_row older a db) b (record {
        tenant = second.tenant;
        of_tenant = second.of_tenant;
        kind = second.kind;
        fresh = still_fresh newer.event_id db.processed older.event_id second.fresh apart;
        carries = second.carries;
      }) in
    let this_after : on_message older (with_row newer b db)
        ≡ (true, with_row older a (with_row newer b db)) =
      request_event_lem older (with_row newer b db) a (record {
        tenant = first.tenant;
        of_tenant = first.of_tenant;
        kind = first.kind;
        fresh =
            still_fresh older.event_id db.processed newer.event_id first.fresh
              (ground (arith, apart));
        carries = first.carries;
      }) in
    (rw (this, that, that_after) in_order, rw (that, this_after) out_of_order)
