-- ===== src/Analytics/Projections/Follows.antt =====
-- consumer.py and services/logistics/app/services/requests.py: what the projection of a request holds
-- after a change of its status was announced and delivered.
use rcp_api.Base.{
  ℕ, ◌≡◌, refl, ap, ◌∙◌, Bool, true, false, Option, some, List, [], ◌∷◌, ◌++◌, ◌&&◌, arith, ◌==◌,
  first, exists, update, if◌then◌else◌, Bool-cases, inl, inr,
}
use rcp_api.Logistics.Status.{RequestStatus, value}
use rcp_api.Logistics.Db.{HelpRequest, Event, Principal, Db as Store}
use rcp_api.Logistics.Requests.Moves.{announced}
use rcp_api.Analytics.Upsert.{is_stale}
use rcp_api.Analytics.Projections.{
  RequestProjection, Db, Envelope, request_row, overwrite_request, upsert_request, on_message,
}
use rcp_api.Analytics.Projections.Newest.{was_seen, request_event_lem}

-- The event as the relay publishes it, under an id.
abbrev pub envelope : ℕ → Event → Envelope
envelope id e = record {
  event_id = id;
  event_type = e.routing_key;
  tenant_id = e.tenant_id;
  payload = e.payload;
}

abbrev pub has_newer : RequestProjection → List RequestProjection → Bool
has_newer incoming rows =
    exists
      (λ (r : RequestProjection).
        (r.request_id == incoming.request_id) && is_stale r.updated_at incoming.updated_at)
      rows

abbrev pub find_row : ℕ → List RequestProjection → Option RequestProjection
find_row id rows = first (λ (r : RequestProjection). r.request_id == id) rows

overwrite_same :
    (held incoming : RequestProjection)
    → (held.request_id == incoming.request_id) ≡ true
    → overwrite_request held incoming ≡ incoming
unfolding overwrite_request
overwrite_same held incoming h =
    let same : held.request_id ≡ incoming.request_id = ground arith in rw same refl

find_append :
    (incoming : RequestProjection) (rows : List RequestProjection)
    → exists (λ (r : RequestProjection). r.request_id == incoming.request_id) rows ≡ false
    → find_row incoming.request_id (rows ++ incoming ∷ []) ≡ some incoming
find_append incoming [] h = ground arith
find_append incoming (r ∷ rows) h = ground (arith, find_append incoming rows)

find_update :
    (incoming : RequestProjection) (rows : List RequestProjection)
    → has_newer incoming rows ≡ false
    → exists (λ (r : RequestProjection). r.request_id == incoming.request_id) rows ≡ true
    → find_row incoming.request_id (
        update
          (λ r. r.request_id == incoming.request_id)
          (λ held.
            if is_stale held.updated_at incoming.updated_at
            then held
            else overwrite_request held incoming)
          rows)
      ≡ some incoming
find_update incoming [] older h = cc
find_update incoming (r ∷ rows) older h = elim (Bool-cases (r.request_id == incoming.request_id)) [
  | inl here ↦
      let current : is_stale r.updated_at incoming.updated_at ≡ false = ground arith in
      let self : (incoming.request_id == incoming.request_id) ≡ true = ground arith in
      rw (here, current, overwrite_same r incoming here, self) refl
  | inr other ↦
      let later : has_newer incoming rows ≡ false = ground arith in
      rw (other, other) (find_update incoming rows later (rw other at h))
]

find-upsert_request :
    (incoming : RequestProjection) (rows : List RequestProjection)
    → has_newer incoming rows ≡ false
    → find_row incoming.request_id (upsert_request incoming rows) ≡ some incoming
find-upsert_request incoming rows older =
    elim (Bool-cases
      (exists (λ (r : RequestProjection). r.request_id == incoming.request_id) rows)) [
        | inl known ↦ rw known (find_update incoming rows older known)
        | inr absent ↦ rw absent (find_append incoming rows absent)
      ]

-- The row that the announcement of `change_status` makes.
abbrev pub announced_row : ℕ → HelpRequest → RequestStatus → RequestProjection
announced_row now request new = record {
  request_id = request.id;
  tenant_id = request.tenant_id;
  category_id = request.category_id;
  quantity_needed = request.quantity_needed;
  status = value new;
  urgency = "medium";
  updated_at = some now;
}

module _ (id now : ℕ) (request : HelpRequest) (new : RequestStatus) (by : Principal) (store : Store)
    (db : Db) where
  abbrev pub announcement : Envelope
  announcement = envelope id (announced now request new by store request)

  -- Once the announcement of a change of status is delivered, for the first time and not after a
  -- newer one, the projection of the request has the new status, the time of the change, and the
  -- urgency medium, whatever the request's is.
  pub announced_projects :
      was_seen announcement db ≡ false
      → has_newer (announced_row now request new) db.requests ≡ false
      → find_row request.id (on_message announcement db).1.requests
        ≡ some (announced_row now request new)
  unfolding request_row
  announced_projects fresh older =
      let row = announced_row now request new in
      let handled = request_event_lem announcement db row (record {
        tenant = request.tenant_id;
        of_tenant = refl;
        kind = refl;
        fresh = fresh;
        carries = refl;
      }) in
      ap (λ (out : Bool × Db). find_row request.id out.1.requests) handled
      ∙ find-upsert_request row db.requests older
