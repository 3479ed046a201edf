-- ===== src/Logistics/Workflow/Explore.antt =====
-- workflow.py: the `while` loop of `_reachable_from`.
use rcp_api.Base.{
  ℕ, zero, suc, ◌+◌, ◌<◌, ◌≡◌, refl, ◌↔◌, inl, inr, true, false, some, List, [], ◌∷◌, arith, All,
  length, Bool-cases,
}
use mathlib.Core.Path.{subst}
use mathlib.Core.Option.{some-injective}
use rcp_api.Logistics.Status.{RequestStatus, contains}
use rcp_api.Logistics.Workflow.{Transitions, Work, targets, visit, explore, fuel, reachable_from}
use rcp_api.Logistics.Workflow.Reach.{
  Reachable, start, follow, contains-here, contains-later, contains-cons, All-contains, unseen,
  visit_grows, visit_marks, visit_queues, visit_new, visit_measure, visit-All,
}

-- With more rounds than states left to queue, the search ends.
explore_ends :
    (ts : Transitions) (f : ℕ) (w : Work)
    → unseen w.0 + length w.1 < f
    → (seen : List RequestStatus) × (explore ts f w ≡ some seen)
unfolding explore
explore_ends ts zero w h = absurd (omega arith)
explore_ends ts (suc f) (seen, []) h = (seen, refl)
explore_ends ts (suc f) (seen, s ∷ queue) h =
    explore_ends ts f (visit (targets ts s) (seen, queue))
      (omega (arith, visit_measure (targets ts s) (seen, queue)))

enough_fuel : (s : RequestStatus) → unseen (s ∷ []) + 1 < fuel
enough_fuel s = ground arith

pub reachable_from_ends :
    (initial : RequestStatus) (ts : Transitions)
    → (seen : List RequestStatus) × (reachable_from initial ts ≡ some seen)
unfolding reachable_from
reachable_from_ends initial ts =
    explore_ends ts fuel (initial ∷ [], initial ∷ []) (enough_fuel initial)

module _ (initial : RequestStatus) (ts : Transitions) where
  All-targets :
      (s : RequestStatus) (next : List RequestStatus)
      → Reachable initial ts s
      → ((t : RequestStatus) → contains next t ≡ true → contains (targets ts s) t ≡ true)
      → All (Reachable initial ts) next
  All-targets s [] h sub = tt
  All-targets s (t ∷ next) h sub = (
    follow h (sub t (contains-here t next)),
    All-targets s next h (λ u m. sub u (contains-later u t next m)),
  )

  explore-Reachable :
      (f : ℕ) (w : Work) (seen : List RequestStatus)
      → All (Reachable initial ts) w.0
      → All (Reachable initial ts) w.1
      → explore ts f w ≡ some seen
      → All (Reachable initial ts) seen
  unfolding explore
  explore-Reachable zero w seen marked queued h = cc
  explore-Reachable (suc f) (marks, []) seen marked queued h =
      subst (All (Reachable initial ts)) (some-injective marks seen h) marked
  explore-Reachable (suc f) (marks, s ∷ queue) seen marked queued h =
      let (marked', queued') =
        visit-All (Reachable initial ts) (targets ts s) (marks, queue)
          (All-targets s (targets ts s) queued.0 (λ t m. m)) marked queued.1 in
      explore-Reachable f (visit (targets ts s) (marks, queue)) seen marked' queued' h

  -- Whatever is marked and no longer queued has all its targets marked.
  abbrev IsClosed : Work → Type 0
  IsClosed w =
      (s t : RequestStatus)
      → contains w.0 s ≡ true
      → contains w.1 s ≡ false
      → contains (targets ts s) t ≡ true
      → contains w.0 t ≡ true

  visit-IsClosed :
      (s : RequestStatus) (marks queue : List RequestStatus)
      → IsClosed (marks, s ∷ queue)
      → IsClosed (visit (targets ts s) (marks, queue))
  visit-IsClosed s marks queue closed x t marked unqueued edge =
      elim (visit_new (targets ts s) (marks, queue) x marked) [
        | inr queued ↦ cc
        | inl old ↦ elim (Bool-cases (contains (s ∷ queue) x)) [
          | inr settled ↦ visit_grows (targets ts s) (marks, queue) t (closed x t old settled edge)
          | inl waiting ↦ elim (contains-cons x s queue waiting) [
            | inl same ↦ visit_marks (targets ts s) (marks, queue) t (rw same at edge)
            | inr later ↦ cc (visit_queues (targets ts s) (marks, queue) x later)
          ]
        ]
      ]

  explore-IsClosed :
      (f : ℕ) (w : Work) (seen : List RequestStatus)
      → IsClosed w
      → explore ts f w ≡ some seen
      → IsClosed (seen, []) × ((x : RequestStatus) → contains w.0 x ≡ true → contains seen x ≡ true)
  unfolding explore
  explore-IsClosed zero w seen closed h = cc
  explore-IsClosed (suc f) (marks, []) seen closed h =
      rw (← some-injective marks seen h) (closed, λ x m. m)
  explore-IsClosed (suc f) (marks, s ∷ queue) seen closed h =
      let (closed', kept) =
        explore-IsClosed f (visit (targets ts s) (marks, queue)) seen
          (visit-IsClosed s marks queue closed) h in
      (closed', λ x m. kept x (visit_grows (targets ts s) (marks, queue) x m))

  first-IsClosed : IsClosed (initial ∷ [], initial ∷ [])
  first-IsClosed s t marked unqueued edge = cc

  Reachable-closed :
      (seen : List RequestStatus)
      → IsClosed (seen, [])
      → contains seen initial ≡ true
      → {s : RequestStatus} → Reachable initial ts s
      → contains seen s ≡ true
  Reachable-closed seen closed here start = here
  Reachable-closed seen closed here (follow {s = x} {t = y} r edge) =
      closed x y (Reachable-closed seen closed here r) refl edge

  Reachable-iff-seen :
      (seen : List RequestStatus)
      → reachable_from initial ts ≡ some seen
      → (s : RequestStatus) → Reachable initial ts s ↔ (contains seen s ≡ true)
  unfolding reachable_from
  Reachable-iff-seen seen ends s =
      let (closed, kept) =
        explore-IsClosed fuel (initial ∷ [], initial ∷ []) seen first-IsClosed ends in
      (
        λ r. Reachable-closed seen closed (kept initial (contains-here initial [])) r,
        All-contains (Reachable initial ts) seen s
            (explore-Reachable fuel (initial ∷ [], initial ∷ []) seen (start, tt) (start, tt) ends),
      )

-- The reachability search always returns, and what it returns holds a state exactly when the
-- transitions lead there from the initial one.
pub reachable_from-Reachable :
    (initial : RequestStatus) (ts : Transitions)
    → (seen : List RequestStatus) × (reachable_from initial ts ≡ some seen)
      × ((s : RequestStatus) → Reachable initial ts s ↔ (contains seen s ≡ true))
reachable_from-Reachable initial ts =
    let (seen, ends) = reachable_from_ends initial ts in
    (seen, ends, Reachable-iff-seen initial ts seen ends)
