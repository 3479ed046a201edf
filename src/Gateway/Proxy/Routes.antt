-- ===== src/Gateway/Proxy/Routes.antt =====
-- proxy.py: the route that is chosen.
use rcp_api.Base.{
  ℕ, ◌≡◌, ◌≤◌, ◌⊎◌, refl, String, false, none, some, List, [], ◌∷◌, arith, leb, leb→le, select, All,
  All-imp, Bool-cases, Option-cases, inl, inr,
}
use mathlib.Core.Option.{some-injective}
use mathlib.Core.List.{Mem, mem-cons_self, mem-cons_of_mem}
use rcp_api.Base.Text.{char_count}
use rcp_api.Gateway.Proxy.{Route, is_under, longest, resolve_upstream}

abbrev len : Route → ℕ
len route = char_count route.0

-- The route is one of them, and none of them is longer.
pub record IsLongest (routes : List Route) (best : Route) : Type 0 where
  pub member : Mem best routes
  pub none_longer : All (λ (r : Route). char_count r.0 ≤ char_count best.0) routes

longest-none : (routes : List Route) → longest routes ≡ none → routes ≡ []
unfolding longest
longest-none [] h = refl
longest-none (r ∷ rest) h = elim (Option-cases (longest rest)) [
  | inl e ↦ cc (rw (longest, e) at h)
  | inr (b, e) ↦ elim (Bool-cases (leb (len b) (len r))) [
    | inl more ↦ cc (rw (longest, e, more) at h)
    | inr less ↦ cc (rw (longest, e, less) at h)
  ]
]

leb-false : (a b : ℕ) → leb a b ≡ false → b ≤ a
leb-false a b h = ground arith

longest-IsLongest :
    (routes : List Route) (best : Route) → longest routes ≡ some best → IsLongest routes best
unfolding longest
longest-IsLongest [] best h = cc
longest-IsLongest (r ∷ rest) best h = elim (Option-cases (longest rest)) [
  | inl e ↦
      let same : r ≡ best = some-injective r best (rw (longest, e) at h) in
      let empty = longest-none rest e in
      rw (← same, empty) (record { member = mem-cons_self; none_longer = (omega arith, tt) })
  | inr (b, e) ↦
      let ih = longest-IsLongest rest b e in
      elim (Bool-cases (leb (len b) (len r))) [
        | inl more ↦
            let same : r ≡ best = some-injective r best (rw (longest, e, more) at h) in
            let le = leb→le (len b) (len r) more in
            rw (← same) (record {
              member = mem-cons_self;
              none_longer = (
                omega arith,
                All-imp _ (λ (x : Route). len x ≤ len r) rest (λ x k. omega (arith, le, k))
                    ih.none_longer,
              );
            })
        | inr less ↦
            let same : b ≡ best = some-injective b best (rw (longest, e, less) at h) in
            rw (← same) (record {
              member = mem-cons_of_mem r ih.member;
              none_longer = (leb-false (len b) (len r) less, ih.none_longer);
            })
      ]
]

abbrev pub matches : List Route → String → List Route
matches table path = select (λ route. is_under path route.0) table

-- The upstream of a path is that of a matching prefix of the table to which no longer one
-- matches; there is none only if no prefix matches.
pub resolve_upstream_lem :
    (table : List Route) (path : String)
    → ((resolve_upstream table path ≡ none) × (matches table path ≡ []))
      ⊎ ((best : Route) × (resolve_upstream table path ≡ some best.1)
          × IsLongest (matches table path) best)
unfolding resolve_upstream
resolve_upstream_lem table path = elim (Option-cases (longest (matches table path))) [
  | inl e ↦ inl (rw (resolve_upstream, e) refl, longest-none (matches table path) e)
  | inr (best, e) ↦
      inr (best, rw (resolve_upstream, e) refl, longest-IsLongest (matches table path) best e)
]
