-- ===== src/Analytics/Projections/Delivery.antt =====
-- consumer.py: events that are delivered again, and events that fail.
use rcp_api.Base.{
  ◌⊎◌, ℕ, ◌≡◌, refl, Bool, true, false, some, List, [], ◌∷◌, ◌++◌, arith, ◌==◌, exists, Bool-cases,
  Option-cases, inl, inr, exists-append_right, exists-append_left,
}
use rcp_api.Analytics.Projections.{
  Db, Envelope, apply_item, apply_event, record_event, handle, on_message,
}

seen_again : (id : ℕ) (done : List ℕ) → exists (λ seen. seen == id) (done ++ id ∷ []) ≡ true
seen_again id done = exists-append_right (λ (seen : ℕ). seen == id) done (id ∷ []) (ground arith)

abbrev was_seen : Envelope → Db → Bool
was_seen e db = exists (λ (seen : ℕ). seen == e.event_id) db.processed

seen_lem :
    (e : Envelope) (db : Db) (tenant : ℕ)
    → e.tenant_id ≡ some tenant
    → was_seen e db ≡ true
    → on_message e db ≡ (true, db)
unfolding on_message handle
seen_lem e db tenant of_tenant seen = ground arith

-- The projections after the messages.
abbrev pub deliver_all : List Envelope → Db → Db
deliver_all [] db = db
deliver_all (e ∷ rest) db = deliver_all rest (on_message e db).1

apply_event_processed :
    (tenant : ℕ) (e : Envelope) (db work : Db)
    → apply_event tenant e db ≡ some work
    → work.processed ≡ db.processed
unfolding apply_event apply_item
apply_event_processed tenant e db work done = ground arith

on_message_keeps :
    (event : ℕ) (e : Envelope) (db : Db)
    → exists (λ seen. seen == event) db.processed ≡ true
    → exists (λ seen. seen == event) (on_message e db).1.processed ≡ true
unfolding on_message handle
on_message_keeps event e db seen = elim (Option-cases e.tenant_id) [
  | inl outside ↦ ground arith
  | inr (tenant, of_tenant) ↦ elim (Option-cases (apply_event tenant e db)) [
    | inl fails ↦ ground arith
    | inr (work, done) ↦ ground (
      arith,
      apply_event_processed tenant e db work done,
      exists-append_left (λ (s : ℕ). s == event) db.processed (e.event_id ∷ []) seen,
    )
  ]
]

deliver_all_keeps :
    (event : ℕ) (later : List Envelope) (db : Db)
    → exists (λ seen. seen == event) db.processed ≡ true
    → exists (λ seen. seen == event) (deliver_all later db).processed ≡ true
deliver_all_keeps event [] db seen = seen
deliver_all_keeps event (e ∷ later) db seen =
    deliver_all_keeps event later (on_message e db).1 (on_message_keeps event e db seen)

-- A message is either not acknowledged, and then it has changed nothing; or it is acknowledged, and
-- then, delivered again after any other messages, it is acknowledged and changes nothing.
pub on_message_again :
    (e : Envelope) (later : List Envelope) (db : Db)
    → (on_message e db ≡ (false, db))
      ⊎ (((on_message e db).0 ≡ true)
          × let db' = deliver_all later (on_message e db).1 in on_message e db' ≡ (true, db'))
unfolding on_message handle
on_message_again e later db = elim (Option-cases e.tenant_id) [
  | inl outside ↦ inl (ground arith)
  | inr (tenant, of_tenant) ↦
      let again = λ (after : Db) (done : was_seen e after ≡ true).
        seen_lem e (deliver_all later after) tenant of_tenant
          (deliver_all_keeps e.event_id later after done) in
      elim (Bool-cases (was_seen e db)) [
        | inl seen ↦
            let same = seen_lem e db tenant of_tenant seen in rw same (inr (refl, again db seen))
        | inr fresh ↦ elim (Option-cases (apply_event tenant e db)) [
          | inl fails ↦ inl (ground arith)
          | inr (work, done) ↦
              let same : on_message e db ≡ (true, record_event e.event_id work) = ground arith in
              rw same (
                inr (
                  refl,
                  again (record_event e.event_id work) (seen_again e.event_id work.processed),
                ))
        ]
      ]
]
