-- ===== src/Common/Relay/Drained.antt =====
-- relay.py: what a relay does that nobody disturbs, while the broker confirms.
use rcp_api.Base.{
  ℕ, zero, suc, ◌-◌, ◌*◌, ◌≤◌, ◌≡◌, refl, sym, ap, ◌∙◌, Bool, true, false, some, List, [], ◌∷◌,
  ◌++◌, arith, map, select, length, take, Option-cases, inl, inr,
}
use mathlib.Core.List.{append_assoc, append-nil}
use rcp_api.Common.Relay.{
  OutboxRow, Message, Relay, batch_size, message, unpublished, select_batch, mark_batch, publish,
  drain_once,
}

-- The list without its first n elements.
drop : {A : Type 0} → ℕ → List A → List A
drop zero xs = xs
drop (suc n) [] = []
drop (suc n) (x ∷ xs) = drop n xs

take-drop : {A : Type 0} (n : ℕ) (xs : List A) → take n xs ++ drop n xs ≡ xs
unfolding drop
take-drop zero xs = refl
take-drop (suc n) [] = refl
take-drop (suc n) (x ∷ xs) = ap (λ ys. x ∷ ys) (take-drop n xs)

length-drop : {A : Type 0} (n : ℕ) (xs : List A) → length (drop n xs) ≡ length xs - n
unfolding drop
length-drop zero xs = omega arith
length-drop (suc n) [] = omega arith
length-drop (suc n) (x ∷ xs) = omega (arith, length-drop n xs)

nil_of_length : {A : Type 0} (xs : List A) → length xs ≤ 0 → xs ≡ []
nil_of_length [] h = refl
nil_of_length (x ∷ xs) h = absurd (omega (arith, h))

module _ {P : Type 0} where
  -- No other replica holds a lock; the broker confirms every message.
  abbrev pub none_locked : OutboxRow P → Bool
  none_locked row = false

  abbrev pub all_confirmed : OutboxRow P → Bool
  all_confirmed row = true

  -- The rows that are still to be published, in the order of their ids.
  abbrev pub pending : Relay P → List (OutboxRow P)
  pending relay = select unpublished relay.rows

  select_batch_lem :
      (n : ℕ) (rows : List (OutboxRow P))
      → select_batch none_locked n rows ≡ take n (select unpublished rows)
  unfolding select_batch
  select_batch_lem zero [] = refl
  select_batch_lem (suc n) [] = refl
  select_batch_lem zero (row ∷ rows) = refl
  select_batch_lem (suc n) (row ∷ rows) = elim (Option-cases row.published_at) [
    | inl fresh ↦ rw fresh (rw (select_batch_lem n rows) refl)
    | inr (t, done) ↦ rw done (select_batch_lem (suc n) rows)
  ]

  mark_batch_lem :
      (now n : ℕ) (rows : List (OutboxRow P))
      → select unpublished (mark_batch none_locked now n rows) ≡ drop n (select unpublished rows)
  unfolding mark_batch drop
  mark_batch_lem now zero [] = refl
  mark_batch_lem now (suc n) [] = refl
  mark_batch_lem now zero (row ∷ rows) = refl
  mark_batch_lem now (suc n) (row ∷ rows) = elim (Option-cases row.published_at) [
    | inl fresh ↦ rw fresh (mark_batch_lem now n rows)
    | inr (t, done) ↦ rw done (mark_batch_lem now (suc n) rows)
  ]

  publish_confirmed : (rows : List (OutboxRow P)) → publish all_confirmed rows ≡ (rows, true)
  unfolding publish
  publish_confirmed [] = refl
  publish_confirmed (row ∷ rows) = rw (publish_confirmed rows) refl

  drain_once_lem :
      (now : ℕ) (relay : Relay P)
      → drain_once none_locked all_confirmed now relay ≡ (
        some (length (take batch_size (pending relay))),
        record {
          rows = mark_batch none_locked now batch_size relay.rows;
          confirmed = relay.confirmed ++ map message (take batch_size (pending relay));
        },
      )
  unfolding drain_once
  drain_once_lem now relay =
      rw
        (
          publish_confirmed (select_batch none_locked batch_size relay.rows),
          select_batch_lem batch_size relay.rows,
        )
        refl

  pending-drain_once :
      (now : ℕ) (relay : Relay P)
      → pending (drain_once none_locked all_confirmed now relay).1 ≡ drop batch_size (pending relay)
  pending-drain_once now relay =
      rw (drain_once_lem now relay) (mark_batch_lem now batch_size relay.rows)

  -- `_relay_loop`, for a number of rounds, at these times
  unfoldable pub drain_rounds : List ℕ → Relay P → Relay P
  drain_rounds [] relay = relay
  drain_rounds (now ∷ times) relay =
      drain_rounds times (drain_once none_locked all_confirmed now relay).1

  -- What is confirmed in the end, and what is still pending.
  abbrev outcome : Relay P → List (Message P)
  outcome relay = relay.confirmed ++ map message (pending relay)

  pub map-append :
      (xs ys : List (OutboxRow P)) → map message (xs ++ ys) ≡ map message xs ++ map message ys
  map-append [] ys = refl
  map-append (x ∷ xs) ys = ap (λ zs. message x ∷ zs) (map-append xs ys)

  outcome-drain_once :
      (now : ℕ) (relay : Relay P)
      → outcome (drain_once none_locked all_confirmed now relay).1 ≡ outcome relay
  outcome-drain_once now relay =
      let here = take batch_size (pending relay) in
      let later = drop batch_size (pending relay) in
      rw (drain_once_lem now relay, mark_batch_lem now batch_size relay.rows)
        (append_assoc relay.confirmed (map message here) (map message later)
          ∙ ap (λ ms. relay.confirmed ++ ms)
              (sym (map-append here later)
                ∙ ap (map message) (take-drop batch_size (pending relay))))

  -- While the broker confirms and no other replica holds a lock, as many rounds of a hundred as
  -- the pending rows need confirm each pending event once, in the order of the ids, and leave
  -- none pending.
  pub drain_rounds_lem :
      (times : List ℕ) (relay : Relay P)
      → length (pending relay) ≤ batch_size * length times
      → (pending (drain_rounds times relay) ≡ [])
        × ((drain_rounds times relay).confirmed ≡ relay.confirmed ++ map message (pending relay))
  unfolding drain_rounds
  drain_rounds_lem [] relay enough =
      let none_left : pending relay ≡ [] = nil_of_length (pending relay) (omega (arith, enough)) in
      (none_left, sym (rw none_left (append-nil relay.confirmed)))
  drain_rounds_lem (now ∷ times) relay enough =
      let next = (drain_once none_locked all_confirmed now relay).1 in
      let fewer : length (pending next) ≡ length (pending relay) - batch_size =
        ap length (pending-drain_once now relay) ∙ length-drop batch_size (pending relay) in
      let (done, sent) = drain_rounds_lem times next (omega (arith, fewer, enough)) in
      (done, sent ∙ outcome-drain_once now relay)
