-- ===== src/Volunteer/Broadcast/Candidates.antt =====
-- matching.py: whom `run_matching` notifies.
use rcp_api.Base.{
  ℕ, ◌≡◌, ◌≢◌, ◌==◌, exists, str_eq, Option-cases, ◌+◌, refl, sym, ap, ◌∙◌, String, Bool, true,
  false, not, some, List, [], ◌∷◌, ◌++◌, arith, inl, inr, select, All, if_elim, leb, length,
}
use mathlib.Core.List.{append_assoc, append-nil, Mem, mem-cons_self, mem-cons_of_mem}
use rcp_api.Base.Result.{ok}
use rcp_api.Base.Tx.{Session}
use rcp_api.Volunteer.Db.{
  RequirementStatus, open_bucket, notified, VolunteerProfile, DisasterEvent, EventRequirement,
  EventVolunteerMapping, Db, is_open, notified_data,
}
use rcp_api.Volunteer.Broadcast.{
  insert_created, by_created, matches, has_id, find_candidates, new_mapping, notify_all,
}
use rcp_api.Volunteer.Broadcast.Asked.{with_id}

module _ (P : VolunteerProfile → Type 0) where
  All-insert :
      (v : VolunteerProfile) (xs : List VolunteerProfile)
      → P v
      → All P xs
      → All P (insert_created v xs)
  unfolding insert_created
  All-insert v [] new old = (new, tt)
  All-insert v (x ∷ xs) new old =
      if_elim (All P) (leb v.created_at x.created_at) (λ _. (new, old))
        (λ _. (old.0, All-insert v xs new old.1))

  All-by_created : (xs : List VolunteerProfile) → All P xs → All P (by_created xs)
  unfolding by_created
  All-by_created [] all = tt
  All-by_created (x ∷ xs) all = All-insert x (by_created xs) all.0 (All-by_created xs all.1)

module _ {A : Type 0} (P : A → Type 0) where
  pub All-select :
      (p : A → Bool) (xs : List A) → All P xs → All (λ v. P v × (p v ≡ true)) (select p xs)
  All-select p [] all = tt
  All-select p (x ∷ xs) all =
      if_elim (All (λ v. P v × (p v ≡ true))) (p x) (λ hit. ((all.0, hit), All-select p xs all.1))
        (λ _. All-select p xs all.1)

module _ {A : Type 0} where
  All-Mem_later : (x : A) (xs ys : List A) → All (λ v. Mem v xs) ys → All (λ v. Mem v (x ∷ xs)) ys
  All-Mem_later x xs [] all = tt
  All-Mem_later x xs (y ∷ ys) all = (mem-cons_of_mem x all.0, All-Mem_later x xs ys all.1)

  pub All-Mem : (xs : List A) → All (λ v. Mem v xs) xs
  All-Mem [] = tt
  All-Mem (x ∷ xs) = (mem-cons_self, All-Mem_later x xs xs (All-Mem xs))

pub has_id-append :
    (ids more : List ℕ) (id : ℕ) → has_id (ids ++ more) id ≡ false → has_id ids id ≡ false
has_id-append [] more id h = refl
has_id-append (x ∷ ids) more id h = ground (arith, has_id-append ids more id)

-- A volunteer who can be asked: available, active, based in one of the districts, and skilled.
pub record IsFit (districts : List String) (skill : String) (v : VolunteerProfile) : Type 0 where
  pub available : v.available_status ≡ true
  pub active : v.is_active ≡ true
  pub base : String
  pub based : v.base_district ≡ some base
  pub served : exists (str_eq base) districts ≡ true
  pub skilled : exists (str_eq skill) v.skills ≡ true

module _ (districts : List String) (skill : String) (v : VolunteerProfile) where
  matches-IsFit : matches districts skill v ≡ true → IsFit districts skill v
  matches-IsFit h = elim (Option-cases v.base_district) [
    | inl nowhere ↦ let none_based : false ≡ true = ground arith in cc
    | inr (base, based) ↦ record {
      available = ground arith;
      active = ground arith;
      base = base;
      based = based;
      served = ground arith;
      skilled = ground arith;
    }
  ]

  matches-of_fit : IsFit districts skill v → matches districts skill v ≡ true
  matches-of_fit fit = ground (arith, fit.available, fit.active, fit.based, fit.served, fit.skilled)

  pub unfit_lem : matches districts skill v ≡ false → ¬ IsFit districts skill v
  unfit_lem h fit = cc (matches-of_fit fit)

open_lem : (s : RequirementStatus) → is_open s ≡ true → s ≡ open_bucket
open_lem open_bucket h = refl
open_lem _ h = cc

pub closed_lem : (s : RequirementStatus) → is_open s ≡ false → s ≢ open_bucket
closed_lem open_bucket h = cc
closed_lem _ h = λ e. cc

-- Whether a mapping for the volunteer is among these.
abbrev pub asks : ℕ → List EventVolunteerMapping → Bool
asks id new = exists (λ (m : EventVolunteerMapping). m.volunteer_id == id) new

-- A notice that a new mapping stands for: it is of the event, of an open bucket of the event among
-- `buckets`, and for a volunteer among `profiles` who is fit for the bucket and had no mapping.
pub record IsNotice (event : DisasterEvent) (districts : List String)
    (buckets : List EventRequirement) (profiles : List VolunteerProfile) (had : ℕ → Bool)
    (m : EventVolunteerMapping) : Type 0 where
  pub volunteer : VolunteerProfile
  pub bucket : EventRequirement
  pub known : Mem volunteer profiles
  pub asked : Mem bucket buckets
  pub of_event : bucket.event_id ≡ event.id
  pub still_open : bucket.status ≡ open_bucket
  pub fit : IsFit districts bucket.skill volunteer
  pub fresh : had volunteer.id ≡ false
  pub mapping :
      (m.event_id ≡ event.id)
      × (m.requirement_id ≡ bucket.id)
      × (m.volunteer_id ≡ volunteer.id)
      × (m.status ≡ notified)

-- The session that a loop leaves, if it adds the mappings `new`.
pub record Grows (new : List EventVolunteerMapping) (s t : Session Db) : Type 0 where
  pub durable : t.durable ≡ s.durable
  pub profiles : t.work.profiles ≡ s.work.profiles
  pub mappings : t.work.mappings ≡ s.work.mappings ++ new

pub candidates :
    (districts : List String) (skill : String) (mapped : List ℕ) (db : Db)
    → All
        (λ v.
          (Mem v db.profiles × (matches districts skill v ≡ true))
          × (not (has_id mapped v.id) ≡ true))
        (find_candidates districts skill mapped db)
unfolding find_candidates
candidates districts skill mapped db =
    All-select (λ v. Mem v db.profiles × (matches districts skill v ≡ true))
      (λ v. not (has_id mapped v.id)) (by_created (select (matches districts skill) db.profiles))
      (All-by_created (λ v. Mem v db.profiles × (matches districts skill v ≡ true))
        (select (matches districts skill) db.profiles)
        (All-select (λ v. Mem v db.profiles) (matches districts skill) db.profiles
          (All-Mem db.profiles)))

module _ (ids : ℕ → ℕ) (event : DisasterEvent) (r : EventRequirement) where
  pub notices : List VolunteerProfile → ℕ → List EventVolunteerMapping
  notices [] count = []
  notices (v ∷ vs) count = new_mapping (ids count) event r v ∷ notices vs (count + 1)

  pub length-notices :
      (vs : List VolunteerProfile) (count : ℕ) → length (notices vs count) ≡ length vs
  unfolding notices
  length-notices [] count = refl
  length-notices (v ∷ vs) count = omega (arith, length-notices vs (count + 1))

  pub exists-notices :
      (id : ℕ) (vs : List VolunteerProfile) (count : ℕ)
      → asks id (notices vs count) ≡ exists (with_id id) vs
  unfolding notices new_mapping
  exists-notices id [] count = refl
  exists-notices id (v ∷ vs) count = ground (arith, exists-notices id vs (count + 1))

  abbrev notified_once : VolunteerProfile → ℕ → Session Db → Session Db
  notified_once v count s = record s {
    work = record s.work {
      mappings = s.work.mappings ++ new_mapping (ids count) event r v ∷ [];
      outbox =
          s.work.outbox
          ++ record {
            routing_key = "volunteer.assignment.notified";
            tenant_id = some event.tenant_id;
            payload =
                notified_data event.id r.id v.user_id r.skill event.source_district event.title;
          }
            ∷ [];
    };
  }

  pub notify_all-Grows :
      (vs : List VolunteerProfile) (count : ℕ) (s : Session Db)
      → Grows (notices vs count) s (notify_all ids event r vs count s).1
        × ((notify_all ids event r vs count s).0 ≡ ok (count + length vs))
  unfolding notify_all notices
  notify_all-Grows [] count s = (
    record { durable = refl; profiles = refl; mappings = sym (append-nil s.work.mappings) },
    ap (λ n. ok n) (omega arith),
  )
  notify_all-Grows (v ∷ vs) count s =
      let (grown, counted) = notify_all-Grows vs (count + 1) (notified_once v count s) in
      (
        record {
          durable = grown.durable;
          profiles = grown.profiles;
          mappings =
              grown.mappings
              ∙ append_assoc s.work.mappings (new_mapping (ids count) event r v ∷ [])
                  (notices vs (count + 1));
        },
        counted ∙ ap (λ n. ok n) (omega arith),
      )

  pub All-notices :
      (districts : List String) (buckets : List EventRequirement) (profiles : List VolunteerProfile)
      (had : ℕ → Bool) (vs : List VolunteerProfile) (count : ℕ)
      → Mem r buckets
      → r.event_id ≡ event.id
      → is_open r.status ≡ true
      → All (λ v. (Mem v profiles × (matches districts r.skill v ≡ true)) × (had v.id ≡ false)) vs
      → All (IsNotice event districts buckets profiles had) (notices vs count)
  unfolding notices new_mapping
  All-notices districts buckets profiles had [] count asked of_event is_open_r all = tt
  All-notices districts buckets profiles had (v ∷ vs) count asked of_event is_open_r all = (
    record {
      volunteer = v;
      bucket = r;
      known = all.0.0.0;
      asked = asked;
      of_event = of_event;
      still_open = open_lem r.status is_open_r;
      fit = matches-IsFit districts r.skill v all.0.0.1;
      fresh = all.0.1;
      mapping = (refl, refl, refl, refl);
    },
    All-notices districts buckets profiles had vs (count + 1) asked of_event is_open_r all.1,
  )
