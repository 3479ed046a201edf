-- ===== src/Analytics/Tests.antt =====
-- Runs of services/analytics at concrete events.
use rcp_api.Base.{◌≡◌, ◌⊎◌, refl, true, false, none, some, [], ◌∷◌, arith}
use rcp_api.Base.Int.{pos}
use rcp_api.Base.Json.{null}
use rcp_api.Logistics.Status.{pending, verified, approved}
use rcp_api.Logistics.Db.{critical, HelpRequest, Principal, Db as Store}
use rcp_api.Analytics.Upsert.{is_stale}
use rcp_api.Analytics.Projections.{RequestProjection, Db, Envelope, request_row, on_message}
use rcp_api.Analytics.Projections.Delivery.{deliver_all, on_message_again}
use rcp_api.Analytics.Projections.Newest.{IsRequestEvent, newest_wins}
use rcp_api.Analytics.Projections.Follows.{
  announcement, announced_row, find_row, announced_projects,
}

abbrev request : HelpRequest
request = record {
  id = 5;
  tenant_id = 7;
  requester_user_id = some 20;
  verified_by_user_id = none;
  requester_name = none;
  requester_phone = none;
  category_id = 1;
  description = "insulin";
  quantity_needed = pos 2;
  urgency = critical;
  status = pending;
  extra_fields = null;
  area = none;
  latitude = none;
  longitude = none;
  is_sensitive = true;
  verified_at = none;
  fulfilled_at = none;
  created_at = 40;
}

abbrev coordinator : Principal
coordinator = record { user_id = 9; tenant_id = some 7; roles = "coordinator" ∷ [] }

abbrev store : Store
store = record {
  categories = [];
  items = [];
  requests = request ∷ [];
  tasks = [];
  replicas = [];
  outbox = [];
}

-- The projection of the request as it was submitted
abbrev row : RequestProjection
row = record {
  request_id = 5;
  tenant_id = 7;
  category_id = 1;
  quantity_needed = pos 2;
  status = "pending";
  urgency = "critical";
  updated_at = some 40;
}

abbrev projections : Db
projections = record { categories = []; items = []; requests = row ∷ []; processed = 1 ∷ [] }

abbrev first_change : Envelope
first_change = announcement 2 50 request verified coordinator store projections

abbrev second_change : Envelope
second_change = announcement 3 60 request approved coordinator store projections

on_message_again_example :
    (on_message first_change projections ≡ (false, projections))
    ⊎ (((on_message first_change projections).0 ≡ true)
        × let db' = deliver_all (second_change ∷ []) (on_message first_change projections).1 in
          on_message first_change db' ≡ (true, db'))
on_message_again_example = on_message_again first_change (second_change ∷ []) projections

first_change_event : IsRequestEvent first_change projections (announced_row 50 request verified)
unfolding request_row
first_change_event = record {
  tenant = 7;
  of_tenant = refl;
  kind = refl;
  fresh = refl;
  carries = refl;
}

second_change_event : IsRequestEvent second_change projections (announced_row 60 request approved)
unfolding request_row
second_change_event = record {
  tenant = 7;
  of_tenant = refl;
  kind = refl;
  fresh = refl;
  carries = refl;
}

newest_wins_example :
    ((on_message second_change (on_message first_change projections).1).1.requests
      ≡ (on_message second_change projections).1.requests)
    × ((on_message first_change (on_message second_change projections).1).1.requests
        ≡ (on_message second_change projections).1.requests)
newest_wins_example =
    newest_wins first_change second_change projections (announced_row 50 request verified)
      (announced_row 60 request approved) 50 60 first_change_event second_change_event refl refl
      refl refl (omega arith)

-- The request was critical.
announced_projects_example :
    find_row 5 (on_message first_change projections).1.requests
    ≡ some (announced_row 50 request verified)
unfolding is_stale
announced_projects_example =
    announced_projects 2 50 request verified coordinator store projections refl refl
