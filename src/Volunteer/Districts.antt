-- ===== src/Volunteer/Districts.antt =====
-- services/volunteer/app/domain/districts.py: the districts of Sri Lanka and who borders whom.
pub mod Broadcast
use rcp_api.Base.{
  String, Bool, true, false, List, [], ◌∷◌, map, ◌==◌, ◌&&◌, not, exists, forall, first, select,
  Option, none, some, length, str_eq, if◌then◌else◌,
}
use rcp_api.Base.Result.{Result, ok, err}
use Prim.Native.String.{compare}
use Prim.Native.Nat.{Ordering}

-- A dict from districts to sets of districts.
unfoldable pub adjacency : List (String × List String)
adjacency =
    ("Colombo", "Gampaha" ∷ "Kalutara" ∷ "Kegalle" ∷ "Ratnapura" ∷ [])
    ∷ ("Gampaha", "Colombo" ∷ "Kegalle" ∷ "Kurunegala" ∷ "Puttalam" ∷ [])
    ∷ ("Kalutara", "Colombo" ∷ "Galle" ∷ "Ratnapura" ∷ [])
    ∷ ("Kandy", "Badulla" ∷ "Kegalle" ∷ "Kurunegala" ∷ "Matale" ∷ "Nuwara Eliya" ∷ [])
    ∷ ("Matale", "Anuradhapura" ∷ "Kandy" ∷ "Kurunegala" ∷ "Polonnaruwa" ∷ [])
    ∷ ("Nuwara Eliya", "Badulla" ∷ "Kandy" ∷ "Kegalle" ∷ "Ratnapura" ∷ [])
    ∷ ("Galle", "Kalutara" ∷ "Matara" ∷ "Ratnapura" ∷ [])
    ∷ ("Matara", "Galle" ∷ "Hambantota" ∷ "Ratnapura" ∷ [])
    ∷ ("Hambantota", "Ampara" ∷ "Matara" ∷ "Moneragala" ∷ "Ratnapura" ∷ [])
    ∷ ("Jaffna", "Kilinochchi" ∷ [])
    ∷ ("Kilinochchi", "Jaffna" ∷ "Mannar" ∷ "Mullaitivu" ∷ [])
    ∷ ("Mannar", "Anuradhapura" ∷ "Kilinochchi" ∷ "Puttalam" ∷ "Vavuniya" ∷ [])
    ∷ ("Vavuniya", "Anuradhapura" ∷ "Mannar" ∷ "Mullaitivu" ∷ "Trincomalee" ∷ [])
    ∷ ("Mullaitivu", "Kilinochchi" ∷ "Trincomalee" ∷ "Vavuniya" ∷ [])
    ∷ (
      "Trincomalee",
      "Anuradhapura" ∷ "Batticaloa" ∷ "Mullaitivu" ∷ "Polonnaruwa" ∷ "Vavuniya" ∷ [],
    )
    ∷ ("Batticaloa", "Ampara" ∷ "Polonnaruwa" ∷ "Trincomalee" ∷ [])
    ∷ ("Ampara", "Badulla" ∷ "Batticaloa" ∷ "Hambantota" ∷ "Moneragala" ∷ "Polonnaruwa" ∷ [])
    ∷ ("Kurunegala", "Anuradhapura" ∷ "Gampaha" ∷ "Kandy" ∷ "Kegalle" ∷ "Matale" ∷ "Puttalam" ∷ [])
    ∷ ("Puttalam", "Anuradhapura" ∷ "Gampaha" ∷ "Kurunegala" ∷ "Mannar" ∷ [])
    ∷ (
      "Anuradhapura",
      "Kurunegala" ∷ "Mannar" ∷ "Matale" ∷ "Polonnaruwa" ∷ "Puttalam" ∷ "Trincomalee" ∷ "Vavuniya"
          ∷ [],
    )
    ∷ (
      "Polonnaruwa",
      "Ampara" ∷ "Anuradhapura" ∷ "Badulla" ∷ "Batticaloa" ∷ "Matale" ∷ "Trincomalee" ∷ [],
    )
    ∷ (
      "Badulla",
      "Ampara" ∷ "Kandy" ∷ "Moneragala" ∷ "Nuwara Eliya" ∷ "Polonnaruwa" ∷ "Ratnapura" ∷ [],
    )
    ∷ ("Moneragala", "Ampara" ∷ "Badulla" ∷ "Hambantota" ∷ "Ratnapura" ∷ [])
    ∷ (
      "Ratnapura",
      "Badulla" ∷ "Colombo" ∷ "Galle" ∷ "Hambantota" ∷ "Kalutara" ∷ "Kegalle" ∷ "Matara"
          ∷ "Moneragala" ∷ "Nuwara Eliya" ∷ [],
    )
    ∷ (
      "Kegalle",
      "Colombo" ∷ "Gampaha" ∷ "Kandy" ∷ "Kurunegala" ∷ "Nuwara Eliya" ∷ "Ratnapura" ∷ [],
    )
    ∷ []

abbrev pub mem : String → List String → Bool
mem d ds = exists (str_eq d) ds

abbrev pub neighbours_in : List (String × List String) → String → List String
neighbours_in [] d = []
neighbours_in ((k, ns) ∷ rest) d = if str_eq k d then ns else neighbours_in rest d

-- `name in DISTRICTS`
abbrev pub is_valid_district : String → Bool
is_valid_district name = exists (λ (row : String × List String). str_eq row.0 name) adjacency

-- What `_validate` asserts of one row.
abbrev pub row_valid : String × List String → Bool
row_valid row =
    not (mem row.0 row.1)
    && forall (λ n. is_valid_district n && mem row.0 (neighbours_in adjacency n)) row.1

pub validate : Bool
validate = (length adjacency == 25) && forall row_valid adjacency

pub data DistrictError : Type 0 where
  unknown_district : String → DistrictError
  unknown_districts : List String → DistrictError
  no_targets : DistrictError
  unknown_type : String → DistrictError

-- `sorted(set(…))`
abbrev pub insert_once : String → List String → List String
insert_once d [] = d ∷ []
insert_once d (x ∷ xs) =
    let rest = insert_once d xs in
    elim (compare d x) [
      | Ordering.lt ↦ d ∷ (x ∷ xs)
      | Ordering.eq ↦ x ∷ xs
      | Ordering.gt ↦ x ∷ rest
    ]

abbrev pub sorted_set : List String → List String
sorted_set [] = []
sorted_set (d ∷ ds) = insert_once d (sorted_set ds)

unfoldable pub resolve_targets : List String → Result DistrictError (List String)
resolve_targets [] = err no_targets
resolve_targets (d ∷ ds) =
    let unknown = select (λ t. not (is_valid_district t)) (d ∷ ds) in
    elim unknown [ [] ↦ ok (sorted_set (d ∷ ds)) | u ∷ us ↦ err (unknown_districts (u ∷ us)) ]

-- `resolve_broadcast_districts`; no targets are the empty list
unfoldable pub resolve_broadcast_districts :
    String → String → List String → Result DistrictError (List String)
resolve_broadcast_districts broadcast_type source targets =
    if not (is_valid_district source)
    then err (unknown_district source)
    else if str_eq broadcast_type "RADIUS_L1"
    then ok (source ∷ [])
    else if str_eq broadcast_type "RADIUS_L2"
    then ok (sorted_set (source ∷ neighbours_in adjacency source))
    else if str_eq broadcast_type "TARGETED"
    then resolve_targets targets
    else err (unknown_type broadcast_type)
