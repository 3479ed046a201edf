-- ===== src/Volunteer/Districts/Broadcast.antt =====
-- districts.py: what `_validate` asserts at import, and where a broadcast goes.
use rcp_api.Base.{
  ◌≡◌, refl, String, Bool, true, not, List, [], ◌∷◌, arith, inl, inr, ◌⊎◌, ◌&&◌, forall, select,
  Bool-cases, str_eq, eq_iff,
}
use mathlib.Core.Path.{subst}
use rcp_api.Base.Result.{ok, ok-injective}
use Prim.Native.String.{compare}
use Prim.Native.Nat.{Ordering}
use rcp_api.Volunteer.Districts.{
  adjacency, mem, neighbours_in, is_valid_district, row_valid, sorted_set, insert_once,
  resolve_targets, resolve_broadcast_districts,
}

validates : forall row_valid adjacency ≡ true
unfolding adjacency
validates = refl

str_eq_sound : (a b : String) → str_eq a b ≡ true → a ≡ b
str_eq_sound a b h = (eq_iff a b).0 h

forall_mem :
    (p : String → Bool) (d : String) (ds : List String)
    → forall p ds ≡ true
    → mem d ds ≡ true
    → p d ≡ true
forall_mem p d [] all h = cc
forall_mem p d (x ∷ xs) all h = elim (Bool-cases (str_eq d x)) [
  | inl here ↦ rw (str_eq_sound d x here) (ground arith)
  | inr there ↦ forall_mem p d xs (ground arith) (ground arith)
]

neighbours_valid :
    (table : List (String × List String)) (d e : String)
    → forall row_valid table ≡ true
    → mem e (neighbours_in table d) ≡ true
    → (is_valid_district e && mem d (neighbours_in adjacency e)) ≡ true
neighbours_valid [] d e all h = cc
neighbours_valid (row ∷ rest) d e all h = elim (Bool-cases (str_eq row.0 d)) [
  | inl here ↦
      let at_d : row.0 ≡ d = str_eq_sound row.0 d here in
      let each =
        forall_mem (λ n. is_valid_district n && mem row.0 (neighbours_in adjacency n)) e row.1
          (ground arith) (rw here at h) in
      subst (λ k. (is_valid_district e && mem k (neighbours_in adjacency e)) ≡ true) at_d each
  | inr there ↦ neighbours_valid rest d e (ground arith) (rw there at h)
]

-- The map of borders is symmetric, and no district outside of it is a neighbour.
pub neighbours_symmetric :
    (d e : String)
    → mem e (neighbours_in adjacency d) ≡ true
    → (is_valid_district e ≡ true) × (mem d (neighbours_in adjacency e) ≡ true)
neighbours_symmetric d e h =
    let both = neighbours_valid adjacency d e validates h in (ground arith, ground arith)

forall_valid :
    (ds : List String)
    → ((d : String) → mem d ds ≡ true → is_valid_district d ≡ true)
    → forall is_valid_district ds ≡ true
forall_valid [] h = refl
forall_valid (d ∷ ds) h =
    rw (h d (rw ((eq_iff d d).1 refl) refl)) (forall_valid ds (λ e m. h e (ground arith)))

insert_valid :
    (d : String) (ds : List String)
    → is_valid_district d ≡ true
    → forall is_valid_district ds ≡ true
    → forall is_valid_district (insert_once d ds) ≡ true
insert_valid d [] new old = rw new refl
insert_valid d (x ∷ xs) new old =
    let valid = is_valid_district in
    elim (compare d x)
      as (λ o.
        forall valid (elim o [
          | Ordering.lt ↦ d ∷ (x ∷ xs)
          | Ordering.eq ↦ x ∷ xs
          | Ordering.gt ↦ x ∷ insert_once d xs
        ])
        ≡ true) [
          | Ordering.lt ↦ rw new old
          | Ordering.eq ↦ old
          | Ordering.gt ↦ ground (arith, insert_valid d xs)
        ]

sorted_valid :
    (ds : List String)
    → forall is_valid_district ds ≡ true
    → forall is_valid_district (sorted_set ds) ≡ true
sorted_valid [] h = refl
sorted_valid (d ∷ ds) h =
    insert_valid d (sorted_set ds) (ground arith) (sorted_valid ds (ground arith))

List-cases : {A : Type 0} (xs : List A) → (xs ≡ []) ⊎ ((x : A) × (rest : List A) × (xs ≡ x ∷ rest))
List-cases [] = inl refl
List-cases (x ∷ xs) = inr (x, xs, refl)

select_none :
    (p : String → Bool) (ts : List String) → select (λ t. not (p t)) ts ≡ [] → forall p ts ≡ true
select_none p [] h = refl
select_none p (t ∷ ts) h = elim (Bool-cases (p t)) [
  | inl hit ↦ rw hit (select_none p ts (rw hit at h))
  | inr miss ↦ cc (rw miss at h)
]

targets_valid :
    (ts ds : List String) → resolve_targets ts ≡ ok ds → forall is_valid_district ds ≡ true
unfolding resolve_targets
targets_valid [] ds h = cc
targets_valid (t ∷ ts) ds h = elim (List-cases (select (λ u. not (is_valid_district u)) (t ∷ ts))) [
  | inl none_left ↦
      let e : sorted_set (t ∷ ts) ≡ ds = ok-injective _ _ (rw (resolve_targets, none_left) at h) in
      rw⁻¹ e (sorted_valid (t ∷ ts) (select_none is_valid_district (t ∷ ts) none_left))
  | inr (u, us, found) ↦ cc (rw (resolve_targets, found) at h)
]

-- A broadcast that can be resolved goes to districts that exist.
pub resolve_sound :
    (kind source : String) (targets ds : List String)
    → resolve_broadcast_districts kind source targets ≡ ok ds
    → forall is_valid_district ds ≡ true
unfolding resolve_broadcast_districts
resolve_sound kind source targets ds h = elim (Bool-cases (is_valid_district source)) [
  | inr unknown ↦ cc (rw unknown at h)
  | inl known ↦ elim (Bool-cases (str_eq kind "RADIUS_L1")) [
    | inl here ↦
        let e : source ∷ [] ≡ ds = ok-injective _ _ (rw (known, here) at h) in
        rw⁻¹ e (rw known refl)
    | inr farther ↦ elim (Bool-cases (str_eq kind "RADIUS_L2")) [
      | inl near ↦
          let e : sorted_set (source ∷ neighbours_in adjacency source) ≡ ds =
            ok-injective _ _ (rw (known, farther, near) at h) in
          rw⁻¹ e (
            sorted_valid (source ∷ neighbours_in adjacency source) (
              rw known (
                forall_valid (neighbours_in adjacency source)
                  (λ d m. (neighbours_symmetric source d m).0))))
      | inr other ↦ elim (Bool-cases (str_eq kind "TARGETED")) [
        | inl targeted ↦ targets_valid targets ds (rw (known, farther, other, targeted) at h)
        | inr no_kind ↦ cc (rw (known, farther, other, no_kind) at h)
      ]
    ]
  ]
]
