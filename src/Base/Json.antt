-- ===== src/Base/Json.antt =====
-- Values of a JSON column or body, as Python holds them after parsing.
use Prim.Native.Nat.{ℕ}
use Prim.Native.String.{String}
use mathlib.Core.Bool.{Bool, true, false, not}
use mathlib.Core.List.{List, [], ◌∷◌}
use mathlib.Core.Option.{Option, none, some}
use rcp_api.Base.Tests.{str_eq, if◌then◌else◌}
use rcp_api.Base.Int.{ℤ, pos, eqb_ℤ}

mutual
  -- `real m k` is the finite float m / 2 ^ k; the two others that `json.loads` makes of `NaN`,
  -- `Infinity` and `-Infinity`.
  pub data Value : Type 0 where
    null : Value
    bool : Bool → Value
    int : ℤ → Value
    real : ℤ → ℕ → Value
    nan : Value
    infinity : (negative : Bool) → Value
    str : String → Value
    arr : Items → Value
    obj : Fields → Value

  pub data Fields : Type 0 where
    no_fields : Fields
    field : (key : String) (v : Value) (others : Fields) → Fields

  pub data Items : Type 0 where
    no_items : Items
    item : (v : Value) (others : Items) → Items

-- `for item in items`
abbrev pub to_list : Items → List Value
to_list no_items = []
to_list (item v vs) = v ∷ to_list vs

-- `obj.get(key)`; Python's dicts hold a key once.
abbrev pub get : String → Fields → Option Value
get k no_fields = none
get k (field j v fs) = if str_eq j k then some v else get k fs

-- `list(obj)`
abbrev pub keys : Fields → List String
keys no_fields = []
keys (field k v fs) = k ∷ keys fs

-- Python's truth of a value.
abbrev pub truthy : Value → Bool
truthy null = false
truthy (bool b) = b
truthy (int n) = not (eqb_ℤ n (pos 0))
truthy (real m k) = not (eqb_ℤ m (pos 0))
truthy nan = true
truthy (infinity negative) = true
truthy (str text) = not (str_eq text "")
truthy (arr no_items) = false
truthy (arr (item v vs)) = true
truthy (obj no_fields) = false
truthy (obj (field k v fs)) = true
