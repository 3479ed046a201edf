-- ===== src/Logistics/Workflow/Reach.antt =====
-- workflow.py: reachability along transitions, and the `for` loop of `_reachable_from`.
use rcp_api.Base.{
  ℕ, ◌+◌, ◌≤◌, ◌<◌, ◌≡◌, refl, ◌⊎◌, inl, inr, true, false, not, List, [], ◌∷◌, arith, All, length,
  count, count-lt, Bool-cases,
}
use rcp_api.Logistics.Status.{
  RequestStatus, statuses, eq_status, eq_status_sound, eq_status_refl, contains,
}
use rcp_api.Logistics.Workflow.{Transitions, Work, targets, mark, visit}

-- What a walk along the transitions can get to.
pub data Reachable (initial : RequestStatus) (ts : Transitions) : RequestStatus → Type 0 where
  start : Reachable initial ts initial
  follow :
      {s t : RequestStatus}
      → Reachable initial ts s
      → contains (targets ts s) t ≡ true
      → Reachable initial ts t

pub contains-here : (x : RequestStatus) (xs : List RequestStatus) → contains (x ∷ xs) x ≡ true
contains-here x xs = rw (eq_status_refl x)

pub contains-later :
    (x y : RequestStatus) (xs : List RequestStatus)
    → contains xs x ≡ true
    → contains (y ∷ xs) x ≡ true
contains-later x y xs h = ground arith

pub contains-cons :
    (x y : RequestStatus) (xs : List RequestStatus)
    → contains (y ∷ xs) x ≡ true
    → (x ≡ y) ⊎ (contains xs x ≡ true)
contains-cons x y xs h = ground (arith, eq_status_sound x y)

pub All-contains :
    (P : RequestStatus → Type 0) (xs : List RequestStatus) (x : RequestStatus)
    → All P xs
    → contains xs x ≡ true
    → P x
All-contains P [] x all h = cc
All-contains P (y ∷ xs) x all h = elim (contains-cons x y xs h) [
  | inl same ↦ rw same all.0
  | inr later ↦ All-contains P xs x all.1 later
]

-- How many states were not seen yet.
abbrev pub unseen : List RequestStatus → ℕ
unseen seen = count (λ s. not (contains seen s)) statuses

contains-statuses : (t : RequestStatus) → contains statuses t ≡ true
contains-statuses t = ground arith

unseen-cons :
    (t : RequestStatus) (seen : List RequestStatus)
    → contains seen t ≡ false
    → unseen (t ∷ seen) < unseen seen
unseen-cons t seen new =
    count-lt (λ s. not (contains seen s)) (λ s. not (contains (t ∷ seen) s)) (λ x. ground arith)
      statuses (eq_status t)
      (λ x same. rw (← eq_status_sound t x same) (rw new (refl, rw (eq_status_refl t))))
      (contains-statuses t)

module _ (t : RequestStatus) (w : Work) where
  mark_grows : (x : RequestStatus) → contains w.0 x ≡ true → contains (mark t w).0 x ≡ true
  unfolding mark
  mark_grows x h = ground arith

  mark_marks : contains (mark t w).0 t ≡ true
  unfolding mark
  mark_marks = ground (arith, eq_status_refl t)

  mark_queues : (x : RequestStatus) → contains w.1 x ≡ true → contains (mark t w).1 x ≡ true
  unfolding mark
  mark_queues x h = ground arith

  mark_new :
      (x : RequestStatus)
      → contains (mark t w).0 x ≡ true
      → (contains w.0 x ≡ true) ⊎ (contains (mark t w).1 x ≡ true)
  unfolding mark
  mark_new x h = ground arith

  mark_measure : unseen (mark t w).0 + length (mark t w).1 ≤ unseen w.0 + length w.1
  unfolding mark
  mark_measure = elim (Bool-cases (contains w.0 t)) [
    | inl old ↦ rw old (omega arith)
    | inr new ↦ rw new (omega (arith, unseen-cons t w.0 new))
  ]

  mark-All : (P : RequestStatus → Type 0) → P t → All P w.0 → All P (mark t w).0
  unfolding mark
  mark-All P h all = ground arith

  mark-All_queue : (P : RequestStatus → Type 0) → P t → All P w.1 → All P (mark t w).1
  unfolding mark
  mark-All_queue P h all = ground arith

pub visit_grows :
    (ts : List RequestStatus) (w : Work) (x : RequestStatus)
    → contains w.0 x ≡ true
    → contains (visit ts w).0 x ≡ true
unfolding visit
visit_grows [] w x h = h
visit_grows (t ∷ ts) w x h = visit_grows ts (mark t w) x (mark_grows t w x h)

pub visit_marks :
    (ts : List RequestStatus) (w : Work) (x : RequestStatus)
    → contains ts x ≡ true
    → contains (visit ts w).0 x ≡ true
unfolding visit
visit_marks [] w x h = cc
visit_marks (t ∷ ts) w x h = elim (contains-cons x t ts h) [
  | inl same ↦ rw same (visit_grows ts (mark t w) t (mark_marks t w))
  | inr later ↦ visit_marks ts (mark t w) x later
]

pub visit_queues :
    (ts : List RequestStatus) (w : Work) (x : RequestStatus)
    → contains w.1 x ≡ true
    → contains (visit ts w).1 x ≡ true
unfolding visit
visit_queues [] w x h = h
visit_queues (t ∷ ts) w x h = visit_queues ts (mark t w) x (mark_queues t w x h)

pub visit_new :
    (ts : List RequestStatus) (w : Work) (x : RequestStatus)
    → contains (visit ts w).0 x ≡ true
    → (contains w.0 x ≡ true) ⊎ (contains (visit ts w).1 x ≡ true)
unfolding visit
visit_new [] w x h = inl h
visit_new (t ∷ ts) w x h = elim (visit_new ts (mark t w) x h) [
  | inr queued ↦ inr queued
  | inl marked ↦ elim (mark_new t w x marked) [
    | inl old ↦ inl old
    | inr queued ↦ inr (visit_queues ts (mark t w) x queued)
  ]
]

pub visit_measure :
    (ts : List RequestStatus) (w : Work)
    → unseen (visit ts w).0 + length (visit ts w).1 ≤ unseen w.0 + length w.1
unfolding visit
visit_measure [] w = omega arith
visit_measure (t ∷ ts) w = omega (arith, mark_measure t w, visit_measure ts (mark t w))

pub visit-All :
    (P : RequestStatus → Type 0) (ts : List RequestStatus) (w : Work)
    → All P ts
    → All P w.0
    → All P w.1
    → All P (visit ts w).0 × All P (visit ts w).1
unfolding visit
visit-All P [] w h seen queue = (seen, queue)
visit-All P (t ∷ ts) w h seen queue =
    visit-All P ts (mark t w) h.1 (mark-All t w P h.0 seen) (mark-All_queue t w P h.0 queue)
