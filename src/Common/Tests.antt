-- ===== src/Common/Tests.antt =====
-- Runs of packages/common and of the relays at concrete rows.
use rcp_api.Base.{
  ℕ, zero, suc, ◌≡◌, refl, String, Bool, true, false, Option, none, some, [], ◌∷◌, arith, str_eq,
  eq_iff, Bool-cases, inl, inr,
}
use rcp_api.Base.Text.{is_empty}
use rcp_api.Base.Result.{ok}
use rcp_api.Iam.Db.{User, coordinator}
use rcp_api.Iam.Auth.{Platform, Draw}
use rcp_api.Common.Relay.{OutboxRow, Relay, message, drain_once}
use rcp_api.Common.Relay.Sound.{AreBacked, emit_row, drain, start, after, Run-AreBacked}
use rcp_api.Common.Relay.Drained.{pending, drain_rounds, drain_rounds_lem}
use rcp_api.Common.Auth.{Library, JwksCache, Attempt, get_key}
use rcp_api.Common.Auth.Access.{
  Reads, claim_fields, named_by, issued, tenant_request, tenant_request_lem,
}

abbrev first_row : OutboxRow ℕ
first_row = record {
  id = 1;
  event_id = 11;
  routing_key = "iam.user.registered";
  payload = 5;
  published_at = none;
}

abbrev second_row : OutboxRow ℕ
second_row = record {
  id = 2;
  event_id = 12;
  routing_key = "iam.user.updated";
  payload = 6;
  published_at = none;
}

abbrev idle : Relay ℕ
idle = record { rows = []; confirmed = [] }

abbrev waiting : Relay ℕ
waiting = record { rows = first_row ∷ second_row ∷ []; confirmed = [] }

drain_rounds_lem_example :
    (pending (drain_rounds (70 ∷ []) waiting) ≡ [])
    × ((drain_rounds (70 ∷ []) waiting).confirmed ≡ message first_row ∷ message second_row ∷ [])
drain_rounds_lem_example = drain_rounds_lem (70 ∷ []) waiting (omega arith)

abbrev every_row : OutboxRow ℕ → Bool
every_row row = true

abbrev no_row : OutboxRow ℕ → Bool
no_row row = false

Run-AreBacked_example :
    AreBacked (drain_once no_row every_row 70 (record { rows = first_row ∷ []; confirmed = [] })).1
Run-AreBacked_example =
    Run-AreBacked
      (after (after start (emit_row idle first_row refl))
        (drain (record { rows = first_row ∷ []; confirmed = [] }) no_row every_row 70))
      tt

-- Ids written in strokes.
strokes : ℕ → String
strokes zero = "1"
strokes (suc n) = String.◌∷◌ "1" (strokes n)

count_strokes : String → Option ℕ
count_strokes String.[] = none
count_strokes (String.◌∷◌ c s) = elim (count_strokes s) [ none ↦ some zero | some n ↦ some (suc n) ]

count_strokes-strokes : (n : ℕ) → count_strokes (strokes n) ≡ some n
unfolding strokes count_strokes
count_strokes-strokes zero = refl
count_strokes-strokes (suc n) = rw (count_strokes-strokes n) refl

not_empty : (s : String) → is_empty s ≡ false → str_eq s "" ≡ false
not_empty s h = elim (Bool-cases (str_eq s "")) [
  | inl e ↦ cc (rw ((eq_iff s "").0 e) at h)
  | inr e ↦ e
]

strokes_print : (n : ℕ) → str_eq (strokes n) "" ≡ false
unfolding strokes
strokes_print zero = refl
strokes_print (suc n) = not_empty (String.◌∷◌ "1" (strokes n)) refl

abbrev platform : Platform
platform = record {
  hash_password = λ salt p. p;
  verify_password = λ p h. str_eq p h;
  sha256 = λ s. s;
  sign = λ c. "signed";
  haversine = λ a b c d. a;
  less = λ a b. false;
  access_token_ttl_minutes = 15;
  refresh_token_ttl_days = 7;
}

abbrev draw : Draw
draw = record { now = 1000; id = 40; admin_id = 0; raw_token = "r"; salt = 0 }

abbrev amara : User
amara = record {
  id = 9;
  tenant_id = some 7;
  user_type = coordinator;
  email = "amara@example.org";
  password_hash = "h";
  full_name = "Amara";
  phone = none;
  status = "active";
  granted = [];
  latitude = none;
  longitude = none;
  assigned_tenant_id = none;
  updated_at = 0;
}

-- A library that accepts the one token.
abbrev library : Library ℕ
library = record {
  get_unverified_header = λ token. some (some "RS256", some "k1");
  decode = λ token key issuer audience.
      some (claim_fields strokes issuer audience (issued platform draw amara));
  uuid = count_strokes;
}

abbrev jwks : JwksCache ℕ
jwks = record { keys = ("k1", 1) ∷ []; fetched_at = 100 }

abbrev attempt : Attempt ℕ
attempt = record { now = 200; later = 200; answer = none; answered_at = 0 }

amara-Reads : Reads library platform strokes "iam" "rcp" "k1" 1 (issued platform draw amara)
amara-Reads = record {
  header = refl;
  claims = refl;
  parses = count_strokes-strokes;
  prints = strokes_print;
}

tenant_request_lem_example :
    tenant_request library platform strokes "iam" "rcp" "k1" 1 draw amara
      ("coordinator" ∷ [])
      600000
      attempt
      jwks
    ≡ ok (named_by (issued platform draw amara))
unfolding get_key
tenant_request_lem_example =
    tenant_request_lem library platform strokes "iam" "rcp" "k1" 1 draw amara ("coordinator" ∷ [])
      600000 attempt jwks amara-Reads refl
