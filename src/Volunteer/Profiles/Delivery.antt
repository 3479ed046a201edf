-- ===== src/Volunteer/Profiles/Delivery.antt =====
-- consumers/iam.py: events that are delivered again, or out of order.
use rcp_api.Base.{
  ℕ, ◌≡◌, Bool, true, List, [], ◌∷◌, ◌++◌, arith, ◌==◌, exists, exists-append_right,
  exists-append_left, Bool,
}
use rcp_api.Volunteer.Db.{Db}
use rcp_api.Volunteer.Profiles.{Envelope, handle}

seen_again : (id : ℕ) (done : List ℕ) → exists (λ seen. seen == id) (done ++ id ∷ []) ≡ true
seen_again id done = exists-append_right (λ (seen : ℕ). seen == id) done (id ∷ []) (ground arith)

-- Deliveries, each with the id and the time that a new row would get.
abbrev pub deliver_all : List (ℕ × ℕ × Envelope) → Db → Db
deliver_all [] db = db
deliver_all ((id, now, e) ∷ rest) db = deliver_all rest (handle id now e db)

abbrev was_seen : ℕ → Db → Bool
was_seen id db = exists (λ seen. seen == id) db.processed

handle_seen :
    (id now : ℕ) (e : Envelope) (db : Db) → was_seen e.event_id db ≡ true → handle id now e db ≡ db
unfolding handle
handle_seen id now e db seen = ground arith

handle_records :
    (id now : ℕ) (e : Envelope) (db : Db) → was_seen e.event_id (handle id now e db) ≡ true
unfolding handle
handle_records id now e db = ground (arith, seen_again e.event_id db.processed)

handle_keeps :
    (event id now : ℕ) (e : Envelope) (db : Db)
    → was_seen event db ≡ true
    → was_seen event (handle id now e db) ≡ true
unfolding handle
handle_keeps event id now e db seen =
    ground (arith, exists-append_left (λ (s : ℕ). s == event) db.processed (e.event_id ∷ []))

deliver_all_keeps :
    (event : ℕ) (later : List (ℕ × ℕ × Envelope)) (db : Db)
    → was_seen event db ≡ true
    → was_seen event (deliver_all later db) ≡ true
deliver_all_keeps event [] db seen = seen
deliver_all_keeps event ((id, now, e) ∷ later) db seen =
    deliver_all_keeps event later (handle id now e db) (handle_keeps event id now e db seen)

-- An event that is delivered again, after any deliveries of any events, changes nothing.
pub handle_again :
    (id now id' now' : ℕ) (e : Envelope) (later : List (ℕ × ℕ × Envelope)) (db : Db)
    → let db' = deliver_all later (handle id now e db) in handle id' now' e db' ≡ db'
handle_again id now id' now' e later db =
    handle_seen id' now' e (deliver_all later (handle id now e db))
      (deliver_all_keeps e.event_id later (handle id now e db) (handle_records id now e db))
