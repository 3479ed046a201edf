-- ===== src/Logistics/Replicas/Follows.antt =====
-- consumers/iam.py with dispatch.py and IAM's auth.py: what an event on a user means for dispatch.
use mathlib.Core.Path.{subst}
use rcp_api.Base.{
  ℕ, ◌≡◌, refl, sym, String, Bool, true, false, not, Option, some, List, [], ◌∷◌, ◌++◌, arith, ◌==◌,
  ◌&&◌, leb, exists, first, update, str_eq, if◌then◌else◌, inl, inr, Bool-cases,
}
use rcp_api.Base.Result.{ok, err}
use rcp_api.Base.Tx.{run}
use rcp_api.Iam.Db.{User, roles, is_active}
use rcp_api.Iam.Auth.{user_registered_payload}
use rcp_api.Logistics.Db.{HelpRequest, UserReplica, Db, Principal}
use rcp_api.Logistics.Dispatch.{
  volunteer_deactivated, not_a_volunteer, DispatchTaskCreate, replica_of, visible_request,
  can_dispatch, new_task, assign_task, check_volunteer,
}
use rcp_api.Logistics.Replicas.{
  ReplicaData, IamEnvelope, Inbox, refresh_replica, new_replica, upsert_replica, is_user_update,
  apply_iam, already_processed, handle_iam, deactivate_replica,
}

-- IAM's event on a user as the consumer reads it.
abbrev pub user_event : ℕ → String → User → IamEnvelope
user_event event_id kind user =
    let data' = user_registered_payload user in
    record {
      event_id = event_id;
      event_type = kind;
      tenant_id = data'.tenant_id;
      user = record {
        user_id = data'.user_id;
        full_name = data'.full_name;
        phone = data'.phone;
        roles = some data'.roles;
        is_active = some data'.is_active;
        updated_at = data'.updated_at;
      };
    }

-- A newer event on the user was handled before.
abbrev pub has_later : User → List UserReplica → Bool
has_later user rows =
    exists
      (λ (row : UserReplica).
        (row.user_id == user.id) && not (leb row.source_updated_at user.updated_at))
      rows

-- What dispatch reads of a replica is as IAM has it.
pub record IsCopy (user : User) (replica : UserReplica) : Type 0 where
  pub same_name : replica.full_name ≡ user.full_name
  pub same_roles : replica.roles ≡ roles user
  pub same_active : replica.is_active ≡ is_active user

module _ (event_id : ℕ) (kind : String) (user : User) where
  abbrev find : List UserReplica → Option UserReplica
  find rows = first (λ (row : UserReplica). row.user_id == user.id) rows

  abbrev IsFound : List UserReplica → Type 0
  IsFound rows = (replica : UserReplica) × (find rows ≡ some replica) × IsCopy user replica

  abbrev data_of : ReplicaData
  data_of = (user_event event_id kind user).user

  refresh_replica-IsCopy :
      (row : UserReplica)
      → leb row.source_updated_at user.updated_at ≡ true
      → IsCopy user (refresh_replica data_of row)
  unfolding refresh_replica
  refresh_replica-IsCopy row current = record {
    same_name = ground arith;
    same_roles = ground arith;
    same_active = ground arith;
  }

  refresh_replica_user : (row : UserReplica) → (refresh_replica data_of row).user_id ≡ row.user_id
  unfolding refresh_replica
  refresh_replica_user row = ground arith

  refreshed-IsFound :
      (rows : List UserReplica)
      → has_later user rows ≡ false
      → exists (λ (row : UserReplica). row.user_id == user.id) rows ≡ true
      → IsFound (update (λ row. row.user_id == user.id) (refresh_replica data_of) rows)
  refreshed-IsFound [] later known = cc
  refreshed-IsFound (row ∷ rows) later known = elim (Bool-cases (row.user_id == user.id)) [
    | inl here ↦
        let current : leb row.source_updated_at user.updated_at ≡ true = ground arith in
        (
          refresh_replica data_of row,
          ground (arith, refresh_replica_user row),
          refresh_replica-IsCopy row current,
        )
    | inr other ↦
        let (replica, found, copy) = refreshed-IsFound rows (ground arith) (ground arith) in
        (replica, ground arith, copy)
  ]

  added_found :
      (rows : List UserReplica)
      → exists (λ (row : UserReplica). row.user_id == user.id) rows ≡ false
      → find (rows ++ new_replica user.tenant_id data_of ∷ [])
        ≡ some (new_replica user.tenant_id data_of)
  unfolding new_replica
  added_found [] absent = ground arith
  added_found (row ∷ rows) absent = ground (arith, added_found rows)

  upserted-IsFound :
      (rows : List UserReplica)
      → has_later user rows ≡ false
      → IsFound (upsert_replica user.tenant_id data_of rows)
  unfolding upsert_replica new_replica
  upserted-IsFound rows later =
      elim (Bool-cases (exists (λ (row : UserReplica). row.user_id == user.id) rows)) [
        | inl known ↦ rw known (refreshed-IsFound rows later known)
        | inr absent ↦ rw absent (
          new_replica user.tenant_id data_of,
          added_found rows absent,
          record { same_name = refl; same_roles = refl; same_active = refl },
        )
      ]

  abbrev pub delivered : Inbox → Db
  delivered inbox = (handle_iam (user_event event_id kind user) inbox).db

  module _ (inbox : Inbox) (update_kind : is_user_update kind ≡ true)
      (fresh : already_processed (user_event event_id kind user) inbox ≡ false)
      (newest : has_later user inbox.db.replicas ≡ false) where
    delivered_replicas :
        (delivered inbox).replicas ≡ upsert_replica user.tenant_id data_of inbox.db.replicas
    unfolding handle_iam apply_iam
    delivered_replicas = ground arith

    delivered_found :
        (replica : UserReplica) × (replica_of user.id (delivered inbox) ≡ some replica)
        × IsCopy user replica
    unfolding replica_of
    delivered_found =
        subst IsFound (sym delivered_replicas) (upserted-IsFound inbox.db.replicas newest)

    delivered_requests : (delivered inbox).requests ≡ inbox.db.requests
    unfolding handle_iam
    delivered_requests = ground arith

    -- Once an iam.user.registered or an iam.user.updated with the user as IAM has it is delivered,
    -- for the first time and not after a newer one on the user, dispatching the user to a visible
    -- request that is approved or in progress raises if the user is not active or has no role of a
    -- volunteer in IAM, and else returns the new task.
    pub assign_task_follows :
        (id now : ℕ) (by : Principal) (form : DispatchTaskCreate) (request : HelpRequest)
        → form.volunteer_user_id ≡ user.id
        → visible_request by.tenant_id
            (first (λ (r : HelpRequest). r.id == form.request_id) inbox.db.requests)
          ≡ some request
        → can_dispatch request.status ≡ true
        → (run (assign_task id now by form) (delivered inbox)).0 ≡ (
            if is_active user
            then if exists (str_eq "volunteer") (roles user)
              then ok (new_task id by request.tenant_id form)
              else err not_a_volunteer
            else err volunteer_deactivated)
    unfolding assign_task check_volunteer
    assign_task_follows id now by form request names visible open_for =
        let (replica, found, copy) = delivered_found in
        ground (arith, names, visible, delivered_requests, found, copy.same_roles, copy.same_active)

-- A deactivation has no time that is looked at: delivered late, when the user is active again and the
-- replica says so, it deactivates the replica, and dispatch refuses the user.
module _ (e : IamEnvelope) (inbox : Inbox) (kind : e.event_type ≡ "iam.user.deactivated")
    (fresh : already_processed e inbox ≡ false) where
  deactivated_found :
      (rows : List UserReplica) (replica : UserReplica)
      → first (λ (row : UserReplica). row.user_id == e.user.user_id) rows ≡ some replica
      → first
          (λ (row : UserReplica). row.user_id == e.user.user_id)
          (deactivate_replica e.user rows)
        ≡ some (record replica { is_active = false })
  unfolding deactivate_replica
  deactivated_found [] replica found = cc
  deactivated_found (row ∷ rows) replica found = elim (Bool-cases (row.user_id == e.user.user_id)) [
    | inl here ↦ ground arith
    | inr other ↦ ground (arith, deactivated_found rows replica)
  ]

  abbrev deactivated : Db
  deactivated = record inbox.db { replicas = deactivate_replica e.user inbox.db.replicas }

  handled_deactivated : (handle_iam e inbox).db ≡ deactivated
  unfolding handle_iam apply_iam is_user_update
  handled_deactivated = rw (fresh, kind) refl

  late_deactivation_refuses :
      (id now : ℕ) (by : Principal) (form : DispatchTaskCreate) (request : HelpRequest)
      (replica : UserReplica)
      → form.volunteer_user_id ≡ e.user.user_id
      → replica_of e.user.user_id inbox.db ≡ some replica
      → visible_request by.tenant_id
          (first (λ (r : HelpRequest). r.id == form.request_id) inbox.db.requests)
        ≡ some request
      → can_dispatch request.status ≡ true
      → run (assign_task id now by form) (handle_iam e inbox).db
        ≡ (err volunteer_deactivated, (handle_iam e inbox).db)
  unfolding assign_task check_volunteer replica_of
  late_deactivation_refuses id now by form request replica names known visible open_for =
      let here = deactivated_found inbox.db.replicas replica known in
      rw handled_deactivated (ground (arith, names, visible, here))
