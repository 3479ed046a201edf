-- ===== src/Logistics/Workflow/Definition/Checked.antt =====
-- What `validate_definition` of workflow.py accepts.
use rcp_api.Base.{
  ◌≡◌, refl, sym, ◌≢◌, true, false, not, some, List, [], ◌∷◌, arith, exists, forall, All, if_elim,
  not-eq-true, Bool-cases, inl, inr,
}
use mathlib.Core.Path.{subst}
use rcp_api.Base.Json.{Value, str, Items, Fields, no_fields, field, get, keys, no_items, item}
use rcp_api.Base.Result.{ok, ok-injective, expect, >>=-eq-ok, require-eq-ok, expect-eq-ok}
use rcp_api.Logistics.Status.{RequestStatus, eq_status, eq_status_sound, contains}
use rcp_api.Logistics.Workflow.{Transitions, assign, terminal_states}
use rcp_api.Logistics.Workflow.Reach.{Reachable, contains-here, contains-later}
use rcp_api.Logistics.Workflow.Explore.{reachable_from-Reachable}
use rcp_api.Logistics.Workflow.Definition.{
  Definition, to_status, to_statuses, listed, parse_targets, parse_transitions, has_duplicate,
  has_source, transition_fields, check_reachable, validate_object, is_definition_key, or_default,
  bad_transitions, no_targets,
}

-- One state of a definition: it is not terminal, and its next states are one or more, each
-- listed once, and none of them is the state itself.
pub record IsEntry (entry : RequestStatus × List RequestStatus) : Type 0 where
  pub not_terminal : contains terminal_states entry.0 ≡ false
  pub not_empty : entry.1 ≢ []
  pub no_duplicate : has_duplicate entry.1 ≡ false
  pub no_loop : contains entry.1 entry.0 ≡ false

pub record IsWellFormed (d : Definition) : Type 0 where
  pub entries : All IsEntry d.transitions
  pub starts : has_source d.transitions d.initial ≡ true
  pub all_reachable :
      (s : RequestStatus) → has_source d.transitions s ≡ true → Reachable d.initial d.transitions s
  pub can_finish :
      (s : RequestStatus) × (contains terminal_states s ≡ true)
      × Reachable d.initial d.transitions s

listed_nonempty : (v : Value) (items : Items) → listed v ≡ some items → items ≢ no_items
unfolding listed
listed_nonempty v items h = ground arith

to_statuses_nonempty :
    (items : Items) (parsed : List RequestStatus)
    → items ≢ no_items
    → to_statuses items ≡ ok parsed
    → parsed ≢ []
unfolding to_statuses
to_statuses_nonempty no_items parsed some_items h = absurd (some_items refl)
to_statuses_nonempty (item v vs) parsed some_items h =
    let (s, e1, h1) = >>=-eq-ok (to_status v) _ h in
    let (rest, e2, h2) = >>=-eq-ok (to_statuses vs) _ h1 in λ e. cc

parse_targets-IsEntry :
    (source : RequestStatus) (v : Value) (next : List RequestStatus)
    → parse_targets source v ≡ ok next
    → IsEntry (source, next)
unfolding parse_targets listed to_statuses
parse_targets-IsEntry source v next h =
    let (t1, h1) = require-eq-ok (not (contains terminal_states source)) _ _ h in
    let (items, e2, h2) = >>=-eq-ok (expect (listed v) (no_targets source)) _ h1 in
    let (parsed, e3, h3) = >>=-eq-ok (to_statuses items) _ h2 in
    let (t4, h4) = require-eq-ok (not (has_duplicate parsed)) _ _ h3 in
    let (t5, h5) = require-eq-ok (not (contains parsed source)) _ _ h4 in
    rw (← ok-injective parsed next h5) (record {
      not_terminal = not-eq-true _ t1;
      not_empty =
          to_statuses_nonempty items parsed (listed_nonempty v items (expect-eq-ok _ _ e2)) e3;
      no_duplicate = not-eq-true _ t4;
      no_loop = not-eq-true _ t5;
    })

assign-IsEntry :
    (source : RequestStatus) (next : List RequestStatus) (ts : Transitions)
    → IsEntry (source, next)
    → All IsEntry ts
    → All IsEntry (assign source next ts)
assign-IsEntry source next [] h all = (h, tt)
assign-IsEntry source next ((s, old) ∷ ts) h all =
    if_elim (All IsEntry) (eq_status s source)
      (λ same. (rw (eq_status_sound s source same) h, all.1))
      (λ _. (all.0, assign-IsEntry source next ts h all.1))

parse_transitions-IsEntry :
    (fs : Fields) (acc ts : Transitions)
    → All IsEntry acc
    → parse_transitions fs acc ≡ ok ts
    → All IsEntry ts
unfolding parse_transitions
parse_transitions-IsEntry no_fields acc ts all h = subst (All IsEntry) (ok-injective acc ts h) all
parse_transitions-IsEntry (field k v fs) acc ts all h =
    let (source, e1, h1) = >>=-eq-ok (to_status (str k)) _ h in
    let (next, e2, h2) = >>=-eq-ok (parse_targets source v) _ h1 in
    parse_transitions-IsEntry fs (assign source next acc) ts
      (assign-IsEntry source next acc (parse_targets-IsEntry source v next e2) all) h2

check_reachable_lem :
    (initial : RequestStatus) (ts : Transitions) (seen : List RequestStatus) (d : Definition)
    → check_reachable initial ts (some seen) ≡ ok d
    → (d ≡ record { initial = initial; transitions = ts })
      × (forall (λ entry. contains seen entry.0) ts ≡ true)
      × (exists (contains seen) terminal_states ≡ true)
unfolding check_reachable
check_reachable_lem initial ts seen d h =
    let (t1, h1) = require-eq-ok (forall (λ entry. contains seen entry.0) ts) _ _ h in
    let (t2, h2) = require-eq-ok (exists (contains seen) terminal_states) _ _ h1 in
    (sym (ok-injective _ d h2), t1, t2)

has_source_seen :
    (seen : List RequestStatus) (ts : Transitions) (s : RequestStatus)
    → forall (λ entry. contains seen entry.0) ts ≡ true
    → has_source ts s ≡ true
    → contains seen s ≡ true
has_source_seen seen [] s f h = cc
has_source_seen seen ((source, next) ∷ ts) s f h =
    ground (arith, eq_status_sound s source, has_source_seen seen ts s)

exists_seen :
    (seen xs : List RequestStatus)
    → exists (contains seen) xs ≡ true
    → (s : RequestStatus) × (contains xs s ≡ true) × (contains seen s ≡ true)
exists_seen seen [] h = cc
exists_seen seen (x ∷ xs) h = elim (Bool-cases (contains seen x)) [
  | inl found ↦ (x, contains-here x xs, found)
  | inr missing ↦
      let (s, later, found) = exists_seen seen xs (rw missing at h) in
      (s, contains-later s x xs later, found)
]

-- A workflow that is accepted has no terminal source, lists one or more next states for each
-- source without duplicates or loops, starts at a source, reaches every source, and reaches a
-- terminal state.
pub validate_object-IsWellFormed :
    (fs : Fields) (d : Definition) → validate_object fs ≡ ok d → IsWellFormed d
unfolding validate_object
validate_object-IsWellFormed fs d h =
    let (t1, h1) = require-eq-ok (forall is_definition_key (keys fs)) _ _ h in
    let (raw, e2, h2) =
      >>=-eq-ok (expect (transition_fields (get "transitions" fs)) bad_transitions) _ h1 in
    let (ts, e3, h3) = >>=-eq-ok (parse_transitions raw []) _ h2 in
    let (initial, e4, h4) = >>=-eq-ok (to_status (or_default (get "initial" fs))) _ h3 in
    let (t5, h5) = require-eq-ok (has_source ts initial) _ _ h4 in
    let (seen, ends, exact) = reachable_from-Reachable initial ts in
    let (same, t6, t7) = check_reachable_lem initial ts seen d (rw ends at h5) in
    let (final, terminal, found) = exists_seen seen terminal_states t7 in
    rw same (record {
      entries = parse_transitions-IsEntry raw [] ts tt e3;
      starts = t5;
      all_reachable = λ s h'. (exact s).1 (has_source_seen seen ts s t6 h');
      can_finish = (final, terminal, (exact final).1 found);
    })
