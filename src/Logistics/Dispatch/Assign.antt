-- ===== src/Logistics/Dispatch/Assign.antt =====
-- dispatch.py: when `assign_task` assigns, and what it leaves alone when it does not.
use rcp_api.Base.{
  ℕ, ◌≡◌, ◌≢◌, refl, sym, ap, ◌⊎◌, inl, inr, String, true, false, Option, none, some, [], ◌∷◌, ◌++◌,
  arith, first, update, exists, str_eq, opt_eq, ◌==◌, Bool-cases, Option-cases,
}
use mathlib.Core.Path.{subst}
use rcp_api.Base.Result.{Result, ok, err}
use rcp_api.Base.Tx.{Session, run}
use rcp_api.Logistics.Status.{approved, in_progress}
use rcp_api.Logistics.Db.{
  ResourceCategory, HelpRequest, UserReplica, DispatchTask, assigned, task_data, Event, Db,
  Principal,
}
use rcp_api.Logistics.Dispatch.{
  DispatchError, request_not_found, not_approved, volunteer_deactivated, not_a_volunteer,
  task_not_found, category_name, DispatchTaskCreate, replica_of, check_volunteer, visible_request,
  can_dispatch, new_task, assign_task,
}

-- A volunteer who may be dispatched: unknown so far, or active and with the role.
abbrev pub Dispatchable : Option UserReplica → Type 0
Dispatchable none = Unit
Dispatchable (some replica) =
    (replica.is_active ≡ true) × (exists (str_eq "volunteer") replica.roles ≡ true)

abbrev session_of : Db → Session Db
session_of db = record { durable = db; work = db }

check_volunteer_passes :
    (o : Option UserReplica) → Dispatchable o → (s : Session Db) → check_volunteer o s ≡ (ok tt, s)
unfolding check_volunteer
check_volunteer_passes none fit s = refl
check_volunteer_passes (some replica) fit s = ground arith

check_volunteer_keeps : (o : Option UserReplica) (s : Session Db) → (check_volunteer o s).1 ≡ s
unfolding check_volunteer
check_volunteer_keeps none s = refl
check_volunteer_keeps (some replica) s = ground arith

abbrev name_in : ℕ → Db → Option String
name_in user db = elim (first (λ (row : UserReplica). row.user_id == user) db.replicas) [
  | none ↦ none
  | some replica ↦ some replica.full_name
]

module _ (id now : ℕ) (by : Principal) (form : DispatchTaskCreate) (db : Db) where
  -- The event for the volunteer: the task, the request, and the names of the category, the
  -- volunteer and the caller, where they are known.
  abbrev pub announcement : HelpRequest → DispatchTask → Event
  announcement request task = record {
    routing_key = "logistics.task.assigned";
    tenant_id = by.tenant_id;
    payload =
        task_data task request
          (elim (first (λ (row : ResourceCategory). row.id == request.category_id) db.categories) [
            | none ↦ none
            | some category ↦ some category.name
          ])
          (name_in form.volunteer_user_id db) (name_in by.user_id db) now;
  }

  -- What a successful call does, in the terms of the code.
  pub assign_task_passes :
      (request : HelpRequest)
      → visible_request by.tenant_id
          (first (λ (r : HelpRequest). r.id == form.request_id) db.requests)
        ≡ some request
      → can_dispatch request.status ≡ true
      → Dispatchable (replica_of form.volunteer_user_id db)
      → run (assign_task id now by form) db ≡ (
        ok (new_task id by request.tenant_id form),
        record db {
          requests =
              update
                (λ row. row.id == request.id)
                (λ row. record row { status = in_progress })
                db.requests;
          tasks = db.tasks ++ new_task id by request.tenant_id form ∷ [];
          outbox = db.outbox ++ announcement request (new_task id by request.tenant_id form) ∷ [];
        },
      )
  unfolding assign_task replica_of category_name
  assign_task_passes request e open_for fit =
      ground
        (arith, check_volunteer_passes (replica_of form.volunteer_user_id db) fit (session_of db))

  -- The task that is assigned.
  abbrev pub assigned_task : HelpRequest → DispatchTask
  assigned_task request = record {
    id = id;
    tenant_id = request.tenant_id;
    request_id = form.request_id;
    volunteer_user_id = form.volunteer_user_id;
    assigned_by_user_id = some by.user_id;
    title = form.title;
    instructions = form.instructions;
    status = assigned;
    accepted_at = none;
    completed_at = none;
  }

  -- For a request of the caller's tenant that is approved or in progress, and a volunteer who is not
  -- known to be unfit, assign_task returns the new task, with the status assigned, and stores it, sets
  -- the request in progress, puts one event for the volunteer into the outbox, and leaves the
  -- categories, the items and the replicas alone.
  pub assign_task_succeeds :
      (request : HelpRequest)
      → first (λ (r : HelpRequest). r.id == form.request_id) db.requests ≡ some request
      → by.tenant_id ≡ some request.tenant_id
      → (request.status ≡ approved) ⊎ (request.status ≡ in_progress)
      → Dispatchable (replica_of form.volunteer_user_id db)
      → run (assign_task id now by form) db ≡ (
        ok (assigned_task request),
        record db {
          requests =
              update
                (λ row. row.id == request.id)
                (λ row. record row { status = in_progress })
                db.requests;
          tasks = db.tasks ++ assigned_task request ∷ [];
          outbox = db.outbox ++ announcement request (assigned_task request) ∷ [];
        },
      )
  unfolding visible_request can_dispatch new_task
  assign_task_succeeds request found of_tenant ready fit =
      assign_task_passes request (ground arith)
        (elim ready [ inl e ↦ ground arith | inr e ↦ ground arith ]) fit

  abbrev found : Option HelpRequest
  found = first (λ (r : HelpRequest). r.id == form.request_id) db.requests

  abbrev outcome : Result DispatchError DispatchTask
  outcome = (run (assign_task id now by form) db).0

  -- What makes `assign_task` raise an error.
  abbrev pub IsReason : DispatchError → Type 0
  IsReason request_not_found =
      (found ≡ none)
      ⊎ ((r : HelpRequest) × (found ≡ some r) × (opt_eq (some r.tenant_id) by.tenant_id ≡ false))
  IsReason not_approved =
      (r : HelpRequest) × (found ≡ some r) × (r.status ≢ approved) × (r.status ≢ in_progress)
  IsReason volunteer_deactivated =
      (v : UserReplica) × (replica_of form.volunteer_user_id db ≡ some v) × (v.is_active ≡ false)
  IsReason not_a_volunteer =
      (v : UserReplica) × (replica_of form.volunteer_user_id db ≡ some v)
      × (exists (str_eq "volunteer") v.roles ≡ false)
  IsReason task_not_found = ⊥

  refusal :
      (known error : DispatchError)
      → outcome ≡ err known
      → outcome ≡ err error
      → IsReason known
      → IsReason error
  refusal known error e h reason = let same : known ≡ error = cc in subst IsReason same reason

  passing :
      (request : HelpRequest) (error : DispatchError)
      → visible_request by.tenant_id found ≡ some request
      → can_dispatch request.status ≡ true
      → outcome ≡ err error
      → Dispatchable (replica_of form.volunteer_user_id db)
      → IsReason error
  passing request error visible ready h fit =
      let passes : outcome ≡ ok (new_task id by request.tenant_id form) =
        ap (λ p. p.0) (assign_task_passes request visible ready fit) in
      cc

  volunteer-IsReason :
      (request : HelpRequest) (error : DispatchError)
      → visible_request by.tenant_id found ≡ some request
      → can_dispatch request.status ≡ true
      → outcome ≡ err error
      → IsReason error
  unfolding assign_task check_volunteer
  volunteer-IsReason request error visible ready h =
      elim (Option-cases (replica_of form.volunteer_user_id db)) [
        | inl unknown ↦ passing request error visible ready h (subst Dispatchable (sym unknown) tt)
        | inr (v, known) ↦ elim (Bool-cases v.is_active) [
          | inr idle ↦ refusal volunteer_deactivated error (ground arith) h (v, known, idle)
          | inl live ↦ elim (Bool-cases (exists (str_eq "volunteer") v.roles)) [
            | inr other ↦ refusal not_a_volunteer error (ground arith) h (v, known, other)
            | inl fit ↦
                passing request error visible ready h (subst Dispatchable (sym known) (live, fit))
          ]
        ]
      ]

  -- Whenever assign_task raises, the database is as it was, and there is the reason that the error
  -- tells: the request is not there or of another tenant, is neither approved nor in progress, or the
  -- volunteer is known and deactivated or without the role.
  pub assign_task_refuses :
      (error : DispatchError)
      → outcome ≡ err error
      → IsReason error × ((run (assign_task id now by form) db).1 ≡ db)
  unfolding assign_task visible_request can_dispatch
  assign_task_refuses error h = (
    elim (Option-cases found) [
      | inl missing ↦ refusal request_not_found error (ground arith) h (inl missing)
      | inr (r, here) ↦ elim (Bool-cases (opt_eq (some r.tenant_id) by.tenant_id)) [
        | inr foreign ↦ refusal request_not_found error (ground arith) h (inr (r, here, foreign))
        | inl own ↦ elim (Bool-cases (can_dispatch r.status)) [
          | inr early ↦
              refusal not_approved error (ground arith) h
                (r, here, λ e. cc (rw e at early), λ e. cc (rw e at early))
          | inl ready ↦ volunteer-IsReason r error (ground arith) ready h
        ]
      ]
    ],
    ground (arith, check_volunteer_keeps (replica_of form.volunteer_user_id db) (session_of db)),
  )
