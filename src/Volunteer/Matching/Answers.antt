-- ===== src/Volunteer/Matching/Answers.antt =====
-- matching.py: `transition_assignment` and the quotas.
use rcp_api.Base.{
  ℕ, ◌≡◌, refl, sym, ◌∙◌, All-imp, Bool, true, false, some, List, [], ◌∷◌, arith, inl, inr, ◌&&◌,
  ◌==◌, if◌then◌else◌, count, update, first, Bool-cases, Option-cases,
}
use mathlib.Core.Path.{subst}
use mathlib.Core.Option.{some-injective}
use rcp_api.Base.Tx.{run}
use rcp_api.Base.Tables.{IsKeyed-update}
use rcp_api.Volunteer.Db.{
  AssignmentStatus, notified, accepted, declined, rejected_full, en_route, completed, is_notified,
  is_accepted, is_en_route, DisasterEvent, EventRequirement, EventVolunteerMapping, Db,
}
use rcp_api.Volunteer.Matching.{allowed_from, answer, owns, transition_assignment}
use rcp_api.Volunteer.Matching.Quota.{is_engaged, engaged, IsBucket, IsCounted}
use rcp_api.Volunteer.Matching.Accept.{IsQuota}

notified_idle : (old : AssignmentStatus) → is_notified old ≡ true → false ≡ is_engaged old
notified_idle old h = ground arith

accepted_engaged : (old : AssignmentStatus) → is_accepted old ≡ true → true ≡ is_engaged old
accepted_engaged old h = ground arith

moving_engaged :
    (old : AssignmentStatus)
    → (if is_en_route old then true else is_accepted old) ≡ true
    → is_engaged old ≡ true
moving_engaged old h = ground arith

-- An answer that the table allows neither engages a volunteer nor frees one.
answer_engaged :
    (new old : AssignmentStatus) (test : AssignmentStatus → Bool)
    → allowed_from new ≡ some test
    → test old ≡ true
    → is_engaged new ≡ is_engaged old
unfolding allowed_from
answer_engaged declined old test h t =
    let e = some-injective is_notified test h in
    notified_idle old (subst (λ f. f old ≡ true) (sym e) t)
answer_engaged en_route old test h t =
    let e = some-injective is_accepted test h in
    accepted_engaged old (subst (λ f. f old ≡ true) (sym e) t)
answer_engaged completed old test h t =
    let e = some-injective (λ s. if is_en_route s then true else is_accepted s) test h in
    sym (moving_engaged old (subst (λ f. f old ≡ true) (sym e) t))
answer_engaged notified old test h t = cc
answer_engaged accepted old test h t = cc
answer_engaged rejected_full old test h t = cc

module _ (now id : ℕ) (new : AssignmentStatus) (test : AssignmentStatus → Bool)
    (allowed : allowed_from new ≡ some test) where
  count-answer :
      (bucket : ℕ) (ms : List EventVolunteerMapping)
      → count (engaged bucket) (update (λ m. (m.id == id) && test m.status) (answer now new) ms)
        ≡ count (engaged bucket) ms
  unfolding answer
  count-answer bucket [] = refl
  count-answer bucket (m ∷ ms) = elim (Bool-cases ((m.id == id) && test m.status)) [
    | inr other ↦ rw other (omega (arith, count-answer bucket ms))
    | inl moved ↦
        let passes : test m.status ≡ true = ground arith in
        rw (moved, answer_engaged new m.status test allowed passes)
          (omega (arith, count-answer bucket ms))
  ]

  IsCounted-answer :
      (rs : List EventRequirement) (ms : List EventVolunteerMapping)
      → IsCounted rs ms
      → IsCounted rs (update (λ m. (m.id == id) && test m.status) (answer now new) ms)
  unfolding answer
  IsCounted-answer rs ms c = record {
    keyed = c.keyed;
    keyed_mappings =
        IsKeyed-update (λ (m : EventVolunteerMapping). m.id) (answer now new) (λ m. refl) _ ms
          c.keyed_mappings;
    buckets =
        All-imp (IsBucket ms) _ rs
          (λ r b. record { within = b.within; counted = b.counted ∙ sym (count-answer r.id ms) })
          c.buckets;
  }

-- Declining, setting out and completing leave every quota kept and every count exact, whoever answers
-- and whatever the outcome.
pub transition_assignment-IsQuota :
    (now id user : ℕ) (new : AssignmentStatus) (db : Db)
    → IsQuota db
    → IsQuota (run (transition_assignment now id user new) db).1
unfolding transition_assignment
transition_assignment-IsQuota now id user new db h = elim (Option-cases (allowed_from new)) [
  | inl never ↦
      (let e : (run (transition_assignment now id user new) db).1 ≡ db = ground arith in
        subst IsQuota (sym e) h)
  | inr (test, allowed) ↦ elim (Option-cases (first (owns id user db) db.mappings)) [
    | inl missing ↦
        (let e : (run (transition_assignment now id user new) db).1 ≡ db = ground arith in
          subst IsQuota (sym e) h)
    | inr (x, found) ↦
        elim (Bool-cases (
          count (λ (m : EventVolunteerMapping). (m.id == x.id) && test m.status) db.mappings
          == 0)) [
            | inl refused ↦
                (let e : (run (transition_assignment now id user new) db).1 ≡ db = ground arith in
                  subst IsQuota (sym e) h)
            | inr moved ↦
                elim (Option-cases (first (λ (e : DisasterEvent). e.id == x.event_id) db.events)) [
                  | inl orphan ↦
                      (let e : (run (transition_assignment now id user new) db).1 ≡ db =
                          ground arith in
                        subst IsQuota (sym e) h)
                  | inr (event, known) ↦
                      let after = (run (transition_assignment now id user new) db).1 in
                      let e : after.requirements ≡ db.requirements = ground arith in
                      let e' : after.mappings
                          ≡ update (λ m. (m.id == x.id) && test m.status) (answer now new)
                              db.mappings =
                        ground arith in
                      subst (λ rs. IsCounted rs after.mappings) (sym e)
                        (subst (IsCounted db.requirements) (sym e') (
                          IsCounted-answer now x.id new test allowed db.requirements db.mappings h))
                ]
          ]
  ]
]
