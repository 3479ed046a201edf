-- ===== src/Volunteer/Matching/Quota.antt =====
-- matching.py: the quota of a skill bucket and the count of who is engaged.
use rcp_api.Base.{
  ℕ, ◌+◌, ◌≤◌, ◌≡◌, refl, ap, sym, ◌∙◌, All-imp, Bool, true, false, none, some, List, arith, ◌&&◌,
  ◌==◌, ltb, if◌then◌else◌, All, first, count, update, first_sound,
}
use mathlib.Core.Path.{subst}
use rcp_api.Base.Tables.{
  IsKeyed, IsKeyed-update, one_if, update-absent, update-and, update-update, first-none,
  count-update-first, All-change_first,
}
use rcp_api.Volunteer.Db.{
  AssignmentStatus, accepted, en_route, completed, EventRequirement, EventVolunteerMapping,
  is_notified,
}
use rcp_api.Volunteer.Matching.{claimable, claim, reject, has_room, fill}

-- The states of a volunteer who counts towards the bucket.
abbrev pub is_engaged : AssignmentStatus → Bool
is_engaged accepted = true
is_engaged en_route = true
is_engaged completed = true
is_engaged _ = false

abbrev pub engaged : ℕ → EventVolunteerMapping → Bool
engaged requirement m = (m.requirement_id == requirement) && is_engaged m.status

-- A bucket is filled by the engaged mappings, up to its quota at most.
pub record IsBucket (mappings : List EventVolunteerMapping) (r : EventRequirement) : Type 0 where
  pub within : r.filled_count ≤ r.required_count
  pub counted : r.filled_count ≡ count (engaged r.id) mappings

pub record IsCounted (rs : List EventRequirement) (ms : List EventVolunteerMapping) : Type 0 where
  pub keyed : IsKeyed (λ (r : EventRequirement). r.id) rs
  pub keyed_mappings : IsKeyed (λ (m : EventVolunteerMapping). m.id) ms
  pub buckets : All (IsBucket ms) rs

abbrev fill_if : EventRequirement → EventRequirement
fill_if r = if ltb r.filled_count r.required_count then fill r else r

module _ (id : ℕ) (rs : List EventRequirement) (row : EventRequirement) where
  room_id : first (has_room id) rs ≡ some row → row.id ≡ id
  unfolding has_room
  room_id room = ground (arith, first_sound (has_room id) rs row)

  room_fills : first (has_room id) rs ≡ some row → fill_if row ≡ fill row
  unfolding has_room
  room_fills room = ground (arith, first_sound (has_room id) rs row)

  -- The increment changes the row that the gate found and no other.
  change_room :
      (P P' : EventRequirement → Type 0)
      → IsKeyed (λ (r : EventRequirement). r.id) rs
      → first (has_room id) rs ≡ some row
      → ((r : EventRequirement) → (r.id == id) ≡ false → P r → P' r)
      → (row.id ≡ id → P row → P' (fill row))
      → All P rs
      → All P' (update (has_room id) fill rs)
  change_room P P' keyed room others this all =
      let same = room_id room in
      let changed =
        All-change_first (λ (r : EventRequirement). r.id) (has_room id) fill_if row P P' rs keyed
          room (λ r other. others r (subst (λ k. (r.id == k) ≡ false) same other))
          (λ h. rw (room_fills room) (this same h)) all in
      unfold has_room in
      rw
        (update-and (λ (r : EventRequirement). r.id == id)
          (λ r. ltb r.filled_count r.required_count) fill rs)
        (subst (λ k. All P' (update (λ r. r.id == k) fill_if rs)) same changed)

-- The claim as an update by key.
abbrev claim_if : ℕ → EventVolunteerMapping → EventVolunteerMapping
claim_if now m = if is_notified m.status then claim now m else m

module _ (now : ℕ) (p : EventVolunteerMapping → Bool) (x : EventVolunteerMapping)
    (rs : List EventRequirement) (ms : List EventVolunteerMapping) (counted : IsCounted rs ms)
    (found : first p ms ≡ some x) (waiting : is_notified x.status ≡ true) where
  idle : (id : ℕ) → engaged id x ≡ false
  idle id = ground arith

  engaged_claimed : (id : ℕ) → engaged id (claim_if now x) ≡ (x.requirement_id == id)
  unfolding claim
  engaged_claimed id = ground arith

  -- One more engaged mapping in the bucket of `x`, and none in the others.
  pub count-claim :
      (id : ℕ)
      → count (engaged id) (update (claimable x.id) (claim now) ms)
        ≡ count (engaged id) ms + one_if (x.requirement_id == id)
  unfolding claimable
  count-claim id =
      let e =
        count-update-first (λ (m : EventVolunteerMapping). m.id) p (claim_if now) x (engaged id) ms
          counted.keyed_mappings found in
      rw
        (update-and (λ (m : EventVolunteerMapping). m.id == x.id) (λ m. is_notified m.status)
          (claim now) ms)
        (omega (arith, e, ap one_if (idle id), ap one_if (engaged_claimed id)))

  claim_keeps_id : (m : EventVolunteerMapping) → (claim_if now m).id ≡ m.id
  unfolding claim
  claim_keeps_id m = ground arith

  rejected_idle : (id : ℕ) → engaged id (reject now (claim_if now x)) ≡ false
  unfolding reject
  rejected_idle id = ground arith

  pub count-reject :
      (id : ℕ)
      → count
          (engaged id)
          (update (λ m. m.id == x.id) (reject now) (update (claimable x.id) (claim now) ms))
        ≡ count (engaged id) ms
  unfolding claimable
  count-reject id =
      let e =
        count-update-first (λ (m : EventVolunteerMapping). m.id) p
          (λ m. reject now (claim_if now m)) x (engaged id) ms counted.keyed_mappings found in
      rw
        (
          update-and (λ (m : EventVolunteerMapping). m.id == x.id) (λ m. is_notified m.status)
              (claim now) ms,
          update-update (λ (m : EventVolunteerMapping). m.id == x.id) (claim_if now) (reject now) ms
              (λ m. ap (λ (k : ℕ). k == x.id) (claim_keeps_id m)),
        )
        (omega (arith, e, ap one_if (idle id), ap one_if (rejected_idle id)))

  -- The claim and the increment of the row with room keep the count.
  pub IsCounted-fill :
      (row : EventRequirement)
      → first (has_room x.requirement_id) rs ≡ some row
      → IsCounted
          (update (has_room x.requirement_id) fill rs)
          (update (claimable x.id) (claim now) ms)
  unfolding has_room fill claimable claim
  IsCounted-fill row room = record {
    keyed = IsKeyed-update (λ (r : EventRequirement). r.id) fill (λ r. refl) _ rs counted.keyed;
    keyed_mappings =
        IsKeyed-update (λ (m : EventVolunteerMapping). m.id) (claim now) (λ m. refl) _ ms
          counted.keyed_mappings;
    buckets =
        change_room x.requirement_id rs row (IsBucket ms)
          (IsBucket (update (claimable x.id) (claim now) ms)) counted.keyed room
          (λ r other b. record {
            within = b.within;
            counted = ground (arith, b.counted, count-claim r.id);
          })
          (λ same b. record {
            within = ground (arith, first_sound (has_room x.requirement_id) rs row room);
            counted = ground (arith, b.counted, count-claim row.id);
          })
          counted.buckets;
  }

  -- If no row has room, the claim is turned into a rejection and the counts stay.
  pub IsCounted-full :
      first (has_room x.requirement_id) rs ≡ none
      → IsCounted
          (update (has_room x.requirement_id) fill rs)
          (update (λ m. m.id == x.id) (reject now) (update (claimable x.id) (claim now) ms))
  unfolding claim reject
  IsCounted-full full =
      rw
        (update-absent (has_room x.requirement_id) fill rs
          (first-none (has_room x.requirement_id) rs full))
        (record {
          keyed = counted.keyed;
          keyed_mappings =
              IsKeyed-update (λ (m : EventVolunteerMapping). m.id) (reject now) (λ m. refl) _ _
                (IsKeyed-update (λ (m : EventVolunteerMapping). m.id) (claim now) (λ m. refl) _ ms
                  counted.keyed_mappings);
          buckets =
              All-imp (IsBucket ms) _ rs
                (λ r b. record { within = b.within; counted = b.counted ∙ sym (count-reject r.id) })
                counted.buckets;
        })
