-- ===== src/Volunteer/Broadcast/Notices.antt =====
-- matching.py: what a run of the matching adds to the mappings.
use rcp_api.Base.{
  ℕ, ◌≡◌, ◌≢◌, refl, sym, ap, ◌∙◌, ◌⊎◌, inl, inr, String, Bool, true, false, some, List, [], ◌∷◌,
  ◌++◌, arith, ◌==◌, ◌&&◌, first, select, map, exists, update, All, All-imp, Bool-cases, length,
}
use mathlib.Core.List.{Mem}
use rcp_api.Base.Result.{Result, ok}
use rcp_api.Base.Tx.{Session, run, ◌>>=◌}
use rcp_api.Volunteer.Db.{
  declared, broadcasting, open_bucket, VolunteerProfile, DisasterEvent, EventRequirement,
  EventVolunteerMapping, Db,
}
use rcp_api.Volunteer.Districts.{DistrictError, resolve_broadcast_districts}
use rcp_api.Volunteer.Broadcast.{
  has_id, match_buckets, can_match, mapped_ids, buckets_of, match_event, match_found, run_matching,
}
use rcp_api.Volunteer.Broadcast.Candidates.{
  All-Mem, All-select, IsFit, unfit_lem, closed_lem, IsNotice,
}
use rcp_api.Volunteer.Broadcast.Buckets.{IsServed, match_buckets-Notified}

module _ (ids : ℕ → ℕ) (event : DisasterEvent) (districts : List String) (db : Db) where
  abbrev start : Session Db
  start = record { durable = db; work = db }

  abbrev matched : Result DistrictError ℕ × Session Db
  matched =
      match_buckets ids event districts (buckets_of event.id db) (mapped_ids event.id db) 0 start

  abbrev broadcast : Db
  broadcast = record matched.1.work {
    events =
        update (λ (e : DisasterEvent). e.id == event.id) (λ e. record e { status = broadcasting })
          matched.1.work.events;
  }

  match_event_ok :
      (n : ℕ)
      → resolve_broadcast_districts event.broadcast_type event.source_district
          event.target_districts
        ≡ ok districts
      → matched.0 ≡ ok n
      → match_event ids event start ≡ (ok n, record { durable = broadcast; work = broadcast })
  unfolding match_event
  match_event_ok n resolved h = rw (◌>>=◌, resolved, h) refl

-- Whether the volunteer has a mapping for the event.
abbrev pub has_mapping : ℕ → Db → ℕ → Bool
has_mapping event db id =
    exists (λ (m : EventVolunteerMapping). (m.event_id == event) && (m.volunteer_id == id))
      db.mappings

-- A volunteer and a bucket after the run: the bucket is of another event or is not open, or the
-- volunteer is not fit for it, had a mapping, or is notified.
abbrev pub IsAsked :
    DisasterEvent
    → List String
    → Db
    → List EventVolunteerMapping
    → EventRequirement
    → VolunteerProfile
    → Type 0
IsAsked event districts db new r v =
    ((r.event_id == event.id) ≡ false)
    ⊎ ((r.status ≢ open_bucket)
        ⊎ ((¬ IsFit districts r.skill v)
            ⊎ ((has_mapping event.id db v.id ≡ true)
                ⊎ (exists (λ (m : EventVolunteerMapping). m.volunteer_id == v.id) new ≡ true))))

mapped_lem :
    (event id : ℕ) (rows : List EventVolunteerMapping)
    → has_id
        (map
          (λ (m : EventVolunteerMapping). m.volunteer_id)
          (select (λ (m : EventVolunteerMapping). m.event_id == event) rows))
        id
      ≡ exists (λ (m : EventVolunteerMapping). (m.event_id == event) && (m.volunteer_id == id)) rows
mapped_lem event id [] = refl
mapped_lem event id (m ∷ rows) = ground (arith, mapped_lem event id rows)

unselected :
    (Q : EventRequirement → Type 0) (p : EventRequirement → Bool) (rows : List EventRequirement)
    → All Q (select p rows)
    → All (λ r. (p r ≡ false) ⊎ Q r) rows
unselected Q p [] all = tt
unselected Q p (r ∷ rows) all = elim (Bool-cases (p r)) [
  | inr other ↦ (inl other, unselected Q p rows (rw other at all))
  | inl chosen ↦
      let (here, later) : Q r × All Q (select p rows) = rw chosen at all in
      (inr here, unselected Q p rows later)
]

buckets-All :
    (event : DisasterEvent) (db : Db)
    → All (λ r. Mem r db.requirements × (r.event_id ≡ event.id)) (buckets_of event.id db)
buckets-All event db =
    All-imp (λ (r : EventRequirement). Mem r db.requirements × ((r.event_id == event.id) ≡ true)) _
      (buckets_of event.id db) (λ r h. (h.0, ground (arith, h.1)))
      (All-select (λ r. Mem r db.requirements) (λ (r : EventRequirement). r.event_id == event.id)
        db.requirements (All-Mem db.requirements))

module _ (event : DisasterEvent) (districts : List String) (db : Db)
    (new : List EventVolunteerMapping) where
  asked_lem :
      (r : EventRequirement) (v : VolunteerProfile)
      → IsServed districts (mapped_ids event.id db) new r v
      → IsAsked event districts db new r v
  asked_lem r v served = elim served [
    | inl closed ↦ inr (inl (closed_lem r.status closed))
    | inr (inl unfit) ↦ inr (inr (inl (unfit_lem districts r.skill v unfit)))
    | inr (inr (inl old)) ↦ inr (inr (inr (inl (sym (mapped_lem event.id v.id db.mappings) ∙ old))))
    | inr (inr (inr asked)) ↦ inr (inr (inr (inr asked)))
  ]

  IsAsked-All :
      All
        (λ r. All (IsServed districts (mapped_ids event.id db) new r) db.profiles)
        (buckets_of event.id db)
      → All (λ r. All (IsAsked event districts db new r) db.profiles) db.requirements
  IsAsked-All served =
      All-imp _ _ db.requirements
        (λ r h. elim h [
          | inl foreign ↦
              All-imp (λ v. Mem v db.profiles) (IsAsked event districts db new r) db.profiles
                (λ v known. inl foreign) (All-Mem db.profiles)
          | inr all ↦
              All-imp (IsServed districts (mapped_ids event.id db) new r)
                (IsAsked event districts db new r) db.profiles (asked_lem r) all
        ])
        (unselected (λ r. All (IsServed districts (mapped_ids event.id db) new r) db.profiles)
          (λ r. r.event_id == event.id) db.requirements served)

-- Matching an event that is declared or broadcasting, and whose districts can be resolved, returns how
-- many mappings it adds. Each is a notice of an open bucket of the event, for a volunteer who is
-- available, active, based in one of the districts and skilled, and who had no mapping for the
-- event. And nobody is left out: each such volunteer of each open bucket of the event had a mapping
-- for the event, or is notified.
pub run_matching_notifies :
    (ids : ℕ → ℕ) (event_id : ℕ) (db : Db) (event : DisasterEvent) (districts : List String)
    → first (λ (e : DisasterEvent). e.id == event_id) db.events ≡ some event
    → (event.status ≡ declared) ⊎ (event.status ≡ broadcasting)
    → resolve_broadcast_districts event.broadcast_type event.source_district event.target_districts
      ≡ ok districts
    → (new : List EventVolunteerMapping) × ((run (run_matching ids event_id) db).0
        ≡ ok (length new))
      × ((run (run_matching ids event_id) db).1.mappings ≡ db.mappings ++ new)
      × All (IsNotice event districts db.requirements db.profiles (has_mapping event.id db)) new
      × All (λ r. All (IsAsked event districts db new r) db.profiles) db.requirements
unfolding run_matching match_found
run_matching_notifies ids event_id db event districts found ready resolved =
    let open_event : can_match event.status ≡ true = elim ready [
      | inl e ↦ rw e refl
      | inr e ↦ rw e refl
    ] in
    let n =
      match_buckets-Notified ids event districts db.requirements db.profiles
        (has_mapping event.id db) (buckets_of event.id db) (mapped_ids event.id db) 0
        (start ids event districts db) (buckets-All event db) refl
        (λ id h. sym (mapped_lem event.id id db.mappings) ∙ h) in
    let e =
      match_event_ok ids event districts db (length n.new) resolved
        (n.result ∙ ap (λ k. ok k) (omega arith)) in
    (
      n.new,
      rw (run, found, open_event) (ap (λ p. p.0) e),
      rw (run, found, open_event) (ap (λ p. p.1.durable.mappings) e ∙ n.grows.mappings),
      n.sound,
      IsAsked-All event districts db n.new n.complete,
    )
