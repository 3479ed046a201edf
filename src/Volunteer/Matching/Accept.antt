-- ===== src/Volunteer/Matching/Accept.antt =====
-- matching.py: `accept_assignment`, branch by branch.
use rcp_api.Base.{
  ℕ, ◌+◌, ◌≡◌, refl, ap, ◌∙◌, ◌⊎◌, inl, inr, Bool, true, false, none, some, List, arith, ◌==◌, leb,
  [], ◌∷◌, ◌++◌, first, count, update, Option-cases, Bool-cases, All-update,
}
use rcp_api.Base.Tables.{IsKeyed, IsKeyed-update, count_found, one_if}
use rcp_api.Base.Result.{err, Result-cases}
use rcp_api.Base.Tx.{Session, Tx, ◌>>◌, commit, pure, run}
use rcp_api.Volunteer.Db.{
  fulfilled_data, DisasterEvent, EventRequirement, EventVolunteerMapping, Db, is_notified,
}
use rcp_api.Volunteer.Matching.{
  not_found, already, quota_full, owns, claimable, claim, reject, has_room, fill, close_bucket,
  announce_team, mark_requirement_fulfilled, settle, accept_assignment,
}
use rcp_api.Volunteer.Matching.Quota.{IsCounted, IsBucket, IsCounted-fill, IsCounted-full}

-- What a session keeps while a bucket is closed: nothing is durable yet, no mapping changes, and of
-- a requirement only its status.
pub record Closes (s t : Session Db) : Type 0 where
  pub durable : t.durable ≡ s.durable
  pub mappings : t.work.mappings ≡ s.work.mappings
  pub closed :
      (t.work.requirements ≡ s.work.requirements)
      ⊎ ((k : ℕ) × (t.work.requirements ≡ update (λ r. r.id == k) close_bucket s.work.requirements))

announce_same :
    (event : DisasterEvent) (s : Session Db)
    → let t = (announce_team event s).1 in
      (t.durable ≡ s.durable)
      × (t.work.mappings ≡ s.work.mappings)
      × (t.work.requirements ≡ s.work.requirements)
unfolding announce_team
announce_same event s = ground arith

-- The session before the team is announced.
abbrev closing : EventRequirement → DisasterEvent → Session Db → Session Db
closing requirement event s = record s {
  work = record s.work {
    requirements = update (λ r. r.id == requirement.id) close_bucket s.work.requirements;
    outbox =
        s.work.outbox
        ++ record {
          routing_key = "volunteer.requirement.fulfilled";
          tenant_id = some event.tenant_id;
          payload =
              fulfilled_data event.id requirement.id requirement.skill requirement.required_count;
        }
          ∷ [];
  };
}

mark-Closes : (id : ℕ) (s : Session Db) → Closes s (mark_requirement_fulfilled id s).1
unfolding mark_requirement_fulfilled
mark-Closes id s =
    elim (Option-cases (first (λ (r : EventRequirement). r.id == id) s.work.requirements)) [
      | inl missing ↦ record {
        durable = ground arith;
        mappings = ground arith;
        closed = inl (ground arith);
      }
      | inr (requirement, e) ↦
          elim (Option-cases
            (first (λ (v : DisasterEvent). v.id == requirement.event_id) s.work.events)) [
              | inl orphan ↦ record {
                durable = ground arith;
                mappings = ground arith;
                closed = inl (ground arith);
              }
              | inr (event, e') ↦ record {
                durable = ground (arith, announce_same event (closing requirement event s));
                mappings = ground (arith, announce_same event (closing requirement event s));
                closed = inr (
                  requirement.id,
                  ground (arith, announce_same event (closing requirement event s)),
                );
              }
            ]
    ]

settle_full :
    (now : ℕ) (m : EventVolunteerMapping) (s : Session Db)
    → settle now m none s ≡ (
      err quota_full,
      record {
        durable = record s.work {
          mappings = update (λ x. x.id == m.id) (reject now) s.work.mappings;
        };
        work = record s.work { mappings = update (λ x. x.id == m.id) (reject now) s.work.mappings };
      },
    )
unfolding settle
settle_full now m s = refl

IsCounted-close :
    (k : ℕ) (rs : List EventRequirement) (ms : List EventVolunteerMapping)
    → IsCounted rs ms
    → IsCounted (update (λ r. r.id == k) close_bucket rs) ms
unfolding close_bucket
IsCounted-close k rs ms c = record {
  keyed = IsKeyed-update (λ (r : EventRequirement). r.id) _ (λ r. refl) _ rs c.keyed;
  keyed_mappings = c.keyed_mappings;
  buckets =
      All-update (IsBucket ms) _ _ (λ r _ b. record { within = b.within; counted = b.counted }) rs
        c.buckets;
}

Closes-IsCounted :
    (s t : Session Db)
    → Closes s t
    → IsCounted s.work.requirements s.work.mappings
    → IsCounted t.work.requirements t.work.mappings
Closes-IsCounted s t c h = elim c.closed [
  | inl same ↦ rw (c.mappings, same) h
  | inr (k, e) ↦ rw (c.mappings, e) (IsCounted-close k _ _ h)
]

abbrev pub IsQuota : Db → Type 0
IsQuota db = IsCounted db.requirements db.mappings

-- A step before a commit either raised, and nothing became durable, or its work did.
commit_or_not :
    {E A : Type 0} (step : Tx Db E Unit) (a : A) (s : Session Db)
    → let t = ((step >> (commit >> pure a)) s).1 in
      (t.durable ≡ (step s).1.work) ⊎ (t.durable ≡ (step s).1.durable)
commit_or_not step a s = elim (Result-cases (step s).0) [
  | inl (u, e) ↦ inl (ground arith)
  | inr (error, e) ↦ inr (ground arith)
]

settle-IsQuota :
    (now : ℕ) (m : EventVolunteerMapping) (row : EventRequirement) (s : Session Db)
    → IsQuota s.durable
    → IsQuota s.work
    → IsQuota (settle now m (some row) s).1.durable
unfolding settle
settle-IsQuota now m row s old new =
    let marked = mark_requirement_fulfilled m.requirement_id in
    let closes = mark-Closes m.requirement_id s in
    elim (Bool-cases (leb row.required_count (row.filled_count + 1))) [
      | inr room_left ↦ rw room_left new
      | inl full ↦ rw full (elim (commit_or_not marked (claim now m) s) [
        | inl e ↦ rw e (Closes-IsCounted s (marked s).1 closes new)
        | inr e ↦ rw (e, closes.durable) old
      ])
    ]

-- The session when `settle` is called.
abbrev pub claiming : ℕ → EventVolunteerMapping → Db → Session Db
claiming now x db = record {
  durable = db;
  work = record db {
    mappings = update (claimable x.id) (claim now) db.mappings;
    requirements = update (has_room x.requirement_id) fill db.requirements;
  };
}

settled :
    (now : ℕ) (x : EventVolunteerMapping) (p : EventVolunteerMapping → Bool) (db : Db)
    → IsQuota db
    → first p db.mappings ≡ some x
    → is_notified x.status ≡ true
    → IsQuota
        (settle now x
          (first (has_room x.requirement_id) db.requirements)
          (claiming now x db)).1.durable
settled now x p db h found waiting =
    elim (Option-cases (first (has_room x.requirement_id) db.requirements)) [
      | inl full ↦
          rw (full, settle_full now x (claiming now x db))
            (IsCounted-full now p x db.requirements db.mappings h found waiting full)
      | inr (row, room) ↦ rw room (
          settle-IsQuota now x row (claiming now x db) h
            (IsCounted-fill now p x db.requirements db.mappings h found waiting row room))
    ]

module _ (now id user : ℕ) (db : Db) where
  pub accept_missing :
      first (owns id user db) db.mappings ≡ none
      → run (accept_assignment now id user) db ≡ (err not_found, db)
  unfolding accept_assignment
  accept_missing e = ground arith

  module _ (x : EventVolunteerMapping) (found : first (owns id user db) db.mappings ≡ some x) where
    count-claimable :
        IsKeyed (λ (m : EventVolunteerMapping). m.id) db.mappings
        → count (claimable x.id) db.mappings ≡ one_if (is_notified x.status)
    unfolding claimable
    count-claimable keyed =
        count_found (λ (m : EventVolunteerMapping). m.id) (owns id user db) (λ m. m) x
          (λ m. is_notified m.status) db.mappings keyed found

    pub accept_answered :
        IsKeyed (λ (m : EventVolunteerMapping). m.id) db.mappings
        → is_notified x.status ≡ false
        → run (accept_assignment now id user) db ≡ (err (already x.status), db)
    unfolding accept_assignment
    accept_answered keyed answered = ground (arith, count-claimable keyed)

    pub accept_settles :
        IsKeyed (λ (m : EventVolunteerMapping). m.id) db.mappings
        → is_notified x.status ≡ true
        → run (accept_assignment now id user) db ≡ (
            let (r, t) =
              settle now x
                (first (has_room x.requirement_id) db.requirements)
                (claiming now x db) in
            (r, t.durable))
    unfolding accept_assignment
    accept_settles keyed waiting =
        let one : count (claimable x.id) db.mappings ≡ 1 =
          count-claimable keyed ∙ ap one_if waiting in
        rw (found, one)

-- Whoever accepts, and whatever the outcome, an acceptance leaves no bucket above its quota, and
-- each bucket's filled count is exactly the number of its mappings that are accepted, on their
-- way or completed.
pub accept_assignment-IsQuota :
    (now id user : ℕ) (db : Db) → IsQuota db → IsQuota (run (accept_assignment now id user) db).1
accept_assignment-IsQuota now id user db h =
    elim (Option-cases (first (owns id user db) db.mappings)) [
      | inl missing ↦ rw (accept_missing now id user db missing) h
      | inr (x, found) ↦ elim (Bool-cases (is_notified x.status)) [
        | inr answered ↦ rw (accept_answered now id user db x found h.keyed_mappings answered) h
        | inl waiting ↦
            rw (accept_settles now id user db x found h.keyed_mappings waiting)
              (settled now x (owns id user db) db h found waiting)
      ]
    ]
