-- ===== src/Volunteer/Broadcast/Asked.antt =====
-- matching.py: whoever fits is among the candidates of `_find_candidates`.
use rcp_api.Base.{
  ℕ, ◌≡◌, refl, ◌∙◌, inl, inr, ◌⊎◌, String, Bool, true, false, not, List, [], ◌∷◌, ◌++◌, map, arith,
  ◌==◌, select, exists, All, All-imp, Bool-cases, if◌then◌else◌,
}
use rcp_api.Volunteer.Db.{VolunteerProfile, Db}
use rcp_api.Volunteer.Broadcast.{insert_created, by_created, matches, has_id, find_candidates}

abbrev pub with_id : ℕ → VolunteerProfile → Bool
with_id id v = v.id == id

-- A query leaves out no row that fits.
selected :
    (p : VolunteerProfile → Bool) (xs : List VolunteerProfile)
    → All (λ v. (p v ≡ false) ⊎ (exists (with_id v.id) (select p xs) ≡ true)) xs
selected p [] = tt
selected p (x ∷ xs) = (
  elim (Bool-cases (p x)) [ inr e ↦ inl e | inl e ↦ inr (ground arith) ],
  All-imp (λ v. (p v ≡ false) ⊎ (exists (with_id v.id) (select p xs) ≡ true))
      (λ v. (p v ≡ false) ⊎ (exists (with_id v.id) (select p (x ∷ xs)) ≡ true)) xs
      (λ v h. elim h [ inl e ↦ inl e | inr e ↦ inr (ground arith) ]) (selected p xs),
)

module _ (q : VolunteerProfile → Bool) where
  exists-insert :
      (v : VolunteerProfile) (xs : List VolunteerProfile)
      → exists q (insert_created v xs) ≡ (if q v then true else exists q xs)
  unfolding insert_created
  exists-insert v [] = refl
  exists-insert v (x ∷ xs) = ground (arith, exists-insert v xs)

  exists-by_created : (xs : List VolunteerProfile) → exists q (by_created xs) ≡ exists q xs
  unfolding by_created
  exists-by_created [] = refl
  exists-by_created (x ∷ xs) = ground (arith, exists-insert x (by_created xs), exists-by_created xs)

exists-unmapped :
    (mapped : List ℕ) (id : ℕ) (xs : List VolunteerProfile)
    → has_id mapped id ≡ false
    → exists (with_id id) xs ≡ true
    → exists (with_id id) (select (λ w. not (has_id mapped w.id)) xs) ≡ true
exists-unmapped mapped id [] new h = cc
exists-unmapped mapped id (x ∷ xs) new h = elim (Bool-cases (x.id == id)) [
  | inl here ↦
      let same : x.id ≡ id = ground arith in
      let new_here : has_id mapped x.id ≡ false = rw same new in rw (new_here, here) refl
  | inr other ↦
      let later = exists-unmapped mapped id xs new (rw other at h) in ground (arith, later)
]

-- Whoever matches is among the candidates, or is mapped already.
pub candidates-All :
    (districts : List String) (skill : String) (mapped : List ℕ) (db : Db)
    → All
        (λ v.
          (matches districts skill v ≡ false)
          ⊎ ((has_id mapped v.id ≡ true)
              ⊎ (exists (with_id v.id) (find_candidates districts skill mapped db) ≡ true)))
        db.profiles
unfolding find_candidates
candidates-All districts skill mapped db =
    let fitting = select (matches districts skill) db.profiles in
    All-imp _ _ db.profiles
      (λ (v : VolunteerProfile)
          (h : (matches districts skill v ≡ false) ⊎ (exists (with_id v.id) fitting ≡ true)).
        elim h [
          | inl e ↦ inl e
          | inr e ↦ elim (Bool-cases (has_id mapped v.id)) [
            | inl old ↦ inr (inl old)
            | inr new ↦ inr (
                inr (
                  exists-unmapped mapped v.id (by_created fitting) new
                    (exists-by_created (with_id v.id) fitting ∙ e)))
          ]
        ])
      (selected (matches districts skill) db.profiles)

pub has_id-split :
    (ids more : List ℕ) (id : ℕ)
    → has_id (ids ++ more) id ≡ true
    → (has_id ids id ≡ true) ⊎ (has_id more id ≡ true)
has_id-split [] more id h = inr h
has_id-split (x ∷ ids) more id h = elim (Bool-cases (x == id)) [
  | inl here ↦ inl (ground arith)
  | inr other ↦ elim (has_id-split ids more id (rw other at h)) [
    | inl e ↦ inl (ground arith)
    | inr e ↦ inr e
  ]
]

pub has_id-map :
    (vs : List VolunteerProfile) (id : ℕ) → has_id (map (λ v. v.id) vs) id ≡ exists (with_id id) vs
has_id-map [] id = refl
has_id-map (v ∷ vs) id = ground (arith, has_id-map vs id)
