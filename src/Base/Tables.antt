-- ===== src/Base/Tables.antt =====
-- Tables with a primary key: what an `UPDATE` of one row does to queries, counts and predicates.
use Prim.Native.Nat.{ℕ, ◌+◌}
use mathlib.Core.Path.{◌≡◌, refl, ap, ◌∙◌}
use mathlib.Core.Logic.{◌⊎◌, inl, inr}
use mathlib.Core.Bool.{Bool, true, false, ◌&&◌}
use mathlib.Core.List.{List, [], ◌∷◌, ◌++◌}
use mathlib.Core.Option
use mathlib.Core.Option.{Option, none, some, some-injective}
use native.Mathlib.Omega.{arith}
use rcp_api.Base.Tests.{◌==◌, if◌then◌else◌, if_elim, Bool-cases}
use rcp_api.Base.Lists.{All, exists, first, count, update}

beq_refl : (n : ℕ) → (n == n) ≡ true
beq_refl n = ground arith

abbrev pub one_if : Bool → ℕ
one_if b = if b then 1 else 0

module _ {ℓ} {A : Type ℓ} where
  pub update-absent :
      (p : A → Bool) (f : A → A) (xs : List A) → exists p xs ≡ false → update p f xs ≡ xs
  update-absent p f [] h = refl
  update-absent p f (x ∷ xs) h = ground (arith, update-absent p f xs)

  pub first-none : (p : A → Bool) (xs : List A) → first p xs ≡ none → exists p xs ≡ false
  first-none p [] h = refl
  first-none p (x ∷ xs) h = ground (arith, first-none p xs)

  -- The second half of a guard moves into the assignment.
  pub update-and :
      (p q : A → Bool) (f : A → A) (xs : List A)
      → update (λ x. p x && q x) f xs ≡ update p (λ x. if q x then f x else x) xs
  update-and p q f [] = refl
  update-and p q f (x ∷ xs) = ground (arith, update-and p q f xs)

  pub update-update :
      (p : A → Bool) (f g : A → A) (xs : List A)
      → ((x : A) → p (f x) ≡ p x)
      → update p g (update p f xs) ≡ update p (λ x. g (f x)) xs
  update-update p f g [] same = refl
  update-update p f g (x ∷ xs) same = ground (arith, same x, update-update p f g xs same)

  pub update_ext :
      (p : A → Bool) (f g : A → A) (xs : List A)
      → ((x : A) → f x ≡ g x)
      → update p f xs ≡ update p g xs
  update_ext p f g [] same = refl
  update_ext p f g (x ∷ xs) same = ground (arith, same x, update_ext p f g xs same)

  pub update-append :
      (p : A → Bool) (f : A → A) (xs ys : List A)
      → update p f (xs ++ ys) ≡ update p f xs ++ update p f ys
  update-append p f [] ys = refl
  update-append p f (x ∷ xs) ys = ground (arith, update-append p f xs ys)

module _ {ℓ} {A : Type ℓ} (key : A → ℕ) where
  -- No two rows have one key.
  abbrev pub IsKeyed : List A → Type 0
  IsKeyed [] = Unit
  IsKeyed (x ∷ xs) = (exists (λ row. key row == key x) xs ≡ false) × IsKeyed xs

  pub first-exists :
      (p : A → Bool) (xs : List A) (x : A)
      → first p xs ≡ some x
      → exists (λ row. key row == key x) xs ≡ true
  first-exists p [] x h = cc
  first-exists p (y ∷ xs) x h =
      ground (arith, first-exists p xs x, ap (λ (o : Option A). Option.map key o) h)

  module _ (f : A → A) (keeps : (x : A) → key (f x) ≡ key x) where
    pub exists-update_key :
        (k : ℕ) (p : A → Bool) (xs : List A)
        → exists (λ row. key row == k) (update p f xs) ≡ exists (λ row. key row == k) xs
    exists-update_key k p [] = refl
    exists-update_key k p (x ∷ xs) = ground (arith, keeps x, exists-update_key k p xs)

    pub IsKeyed-update : (p : A → Bool) (xs : List A) → IsKeyed xs → IsKeyed (update p f xs)
    IsKeyed-update p [] h = tt
    IsKeyed-update p (x ∷ xs) h = (
      if_elim (λ y. exists (λ row. key row == key y) (update p f xs) ≡ false) (p x)
          (λ _. rw (keeps x) (exists-update_key (key x) p xs ∙ h.0))
          (λ _. exists-update_key (key x) p xs ∙ h.0),
      IsKeyed-update p xs h.1,
    )

  pub count-absent :
      (k : ℕ) (q : A → Bool) (xs : List A)
      → exists (λ row. key row == k) xs ≡ false
      → count (λ row. (key row == k) && q row) xs ≡ 0
  count-absent k q [] h = refl
  count-absent k q (x ∷ xs) h = ground (arith, count-absent k q xs)

  All-others {κ λ'} :
      (P : A → Type κ) (P' : A → Type λ') (k : ℕ) (xs : List A)
      → exists (λ row. key row == k) xs ≡ false
      → ((y : A) → (key y == k) ≡ false → P y → P' y)
      → All P xs
      → All P' xs
  All-others P P' k [] absent others all = tt
  All-others P P' k (y ∷ xs) absent others all = elim (Bool-cases (key y == k)) [
    | inl same ↦ cc (rw same at absent)
    | inr other ↦ (others y other all.0, All-others P P' k xs (rw other at absent) others all.1)
  ]

  module _ (p : A → Bool) (f : A → A) (x : A) where
    other_key :
        (y : A) (xs : List A) → IsKeyed (y ∷ xs) → first p xs ≡ some x → (key y == key x) ≡ false
    other_key y xs keyed found = elim (Bool-cases (key y == key x)) [
      | inr other ↦ other
      | inl same ↦
          let e : key y ≡ key x = ground arith in cc (rw e at keyed.0, first-exists p xs x found)
    ]

    -- The row that a query found is the first one, or it is in the rest and the first is another.
    update-first-cases :
        (y : A) (xs : List A)
        → IsKeyed (y ∷ xs)
        → first p (y ∷ xs) ≡ some x
        → ((y ≡ x) × (update (λ row. key row == key x) f xs ≡ xs))
          ⊎ ((first p xs ≡ some x) × ((key y == key x) ≡ false))
    update-first-cases y xs keyed h = elim (Bool-cases (p y)) [
      | inl here ↦
          let same : y ≡ x = some-injective y x (rw here at h) in
          inl (same, update-absent (λ row. key row == key x) f xs (rw same at keyed.0))
      | inr later ↦
          let found : first p xs ≡ some x = rw later at h in inr (found, other_key y xs keyed found)
    ]

    -- The update of the row that a query found keeps a property of all rows, if it does for it.
    pub All-update-first {κ} :
        (P : A → Type κ) (xs : List A)
        → IsKeyed xs
        → first p xs ≡ some x
        → All P xs
        → P (f x)
        → All P (update (λ row. key row == key x) f xs)
    All-update-first P [] keyed h all new = tt
    All-update-first P (y ∷ xs) keyed h all new = elim (update-first-cases y xs keyed h) [
      | inl (same, e) ↦ rw (e, same, beq_refl (key x)) (new, all.1)
      | inr (later, e) ↦ rw e (all.0, All-update-first P xs keyed.1 later all.1 new)
    ]

    pub count-update-first :
        (q : A → Bool) (xs : List A)
        → IsKeyed xs
        → first p xs ≡ some x
        → count q (update (λ row. key row == key x) f xs) + one_if (q x)
          ≡ count q xs + one_if (q (f x))
    count-update-first q [] keyed h = cc
    count-update-first q (y ∷ xs) keyed h = elim (update-first-cases y xs keyed h) [
      | inl (same, e) ↦ rw (e, same, beq_refl (key x)) (omega arith)
      | inr (later, e) ↦ rw e (omega (arith, count-update-first q xs keyed.1 later))
    ]

    -- How many rows with the key of the row that was found pass a test: that row, or none.
    pub count_found :
        (q : A → Bool) (xs : List A)
        → IsKeyed xs
        → first p xs ≡ some x
        → count (λ row. (key row == key x) && q row) xs ≡ one_if (q x)
    count_found q [] keyed h = cc
    count_found q (y ∷ xs) keyed h = elim (Bool-cases (p y)) [
      | inr later ↦
          let found : first p xs ≡ some x = rw later at h in
          rw (other_key y xs keyed found) (omega (arith, count_found q xs keyed.1 found))
      | inl here ↦
          let same : y ≡ x = some-injective y x (rw here at h) in
          rw (same, beq_refl (key x))
            (omega (arith, count-absent (key x) q xs (rw same at keyed.0)))
    ]

    -- A property of all rows becomes another one, if it does for the changed row and for those with
    -- other keys.
    pub All-change_first {κ λ'} :
        (P : A → Type κ) (P' : A → Type λ') (xs : List A)
        → IsKeyed xs
        → first p xs ≡ some x
        → ((y : A) → (key y == key x) ≡ false → P y → P' y)
        → (P x → P' (f x))
        → All P xs
        → All P' (update (λ row. key row == key x) f xs)
    All-change_first P P' [] keyed h others this all = tt
    All-change_first P P' (y ∷ xs) keyed h others this all =
        elim (update-first-cases y xs keyed h) [
          | inl (same, e) ↦
              rw (e, same, beq_refl (key x))
                (
                  this (rw same at all.0),
                  All-others P P' (key x) xs (rw same at keyed.0) others all.1,
                )
          | inr (later, e) ↦
              rw e (others y e all.0, All-change_first P P' xs keyed.1 later others this all.1)
        ]
