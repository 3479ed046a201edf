-- ===== src/Base/Lists.antt =====
-- Lists measured by native numbers, predicates over lists, and the queries that a table answers.
use Prim.Native.Nat.{ℕ, zero, suc, ◌+◌, ◌<◌, ◌≤◌}
use mathlib.Core.Path.{◌≡◌, subst}
use mathlib.Core.Bool.{Bool, true, false}
use mathlib.Core.List.{List, [], ◌∷◌, ◌++◌}
use mathlib.Core.Option.{Option, none, some}
use native.Mathlib.Omega.{arith}
use rcp_api.Base.Tests.{if◌then◌else◌, if_elim}

-- Every row satisfies the predicate.
abbrev pub All {ℓ κ} : {A : Type ℓ} → (A → Type κ) → List A → Type κ
All P [] = Unit
All P (x ∷ xs) = P x × All P xs

module _ {ℓ} {A : Type ℓ} where
  abbrev pub length : List A → ℕ
  length [] = 0
  length (x ∷ xs) = suc (length xs)

  -- `any(p(x) for x in xs)`
  abbrev pub exists : (A → Bool) → List A → Bool
  exists p [] = false
  exists p (x ∷ xs) = if p x then true else exists p xs

  abbrev pub forall : (A → Bool) → List A → Bool
  forall p [] = true
  forall p (x ∷ xs) = if p x then forall p xs else false

  -- `SELECT … WHERE p`, the first row
  abbrev pub first : (A → Bool) → List A → Option A
  first p [] = none
  first p (x ∷ xs) = if p x then some x else first p xs

  -- `SELECT … WHERE p`, all rows
  abbrev pub select : (A → Bool) → List A → List A
  select p [] = []
  select p (x ∷ xs) = let rest = select p xs in if p x then x ∷ rest else rest

  -- `SELECT count(*) WHERE p`
  abbrev pub count : (A → Bool) → List A → ℕ
  count p [] = 0
  count p (x ∷ xs) = (if p x then 1 else 0) + count p xs

  -- `UPDATE … SET f WHERE p`
  abbrev pub update : (A → Bool) → (A → A) → List A → List A
  update p f [] = []
  update p f (x ∷ xs) = (if p x then f x else x) ∷ update p f xs

  -- `LIMIT n`
  abbrev pub take : ℕ → List A → List A
  take zero xs = []
  take (suc n) [] = []
  take (suc n) (x ∷ xs) = x ∷ take n xs

  pub count-append : (p : A → Bool) (xs ys : List A) → count p (xs ++ ys) ≡ count p xs + count p ys
  count-append p [] ys = omega arith
  count-append p (x ∷ xs) ys = omega (arith, count-append p xs ys)

  pub length-append : (xs ys : List A) → length (xs ++ ys) ≡ length xs + length ys
  length-append [] ys = omega arith
  length-append (x ∷ xs) ys = omega (arith, length-append xs ys)

  -- What `first` returns satisfies the test.
  pub first_sound : (p : A → Bool) (xs : List A) (x : A) → first p xs ≡ some x → p x ≡ true
  first_sound p [] x h = cc
  first_sound p (y ∷ xs) x h = ground (arith, first_sound p xs x)

  pub exists-append_left :
      (p : A → Bool) (xs ys : List A) → exists p xs ≡ true → exists p (xs ++ ys) ≡ true
  exists-append_left p [] ys h = cc
  exists-append_left p (x ∷ xs) ys h = ground (arith, exists-append_left p xs ys)

  pub exists-append_right :
      (p : A → Bool) (xs ys : List A) → exists p ys ≡ true → exists p (xs ++ ys) ≡ true
  exists-append_right p [] ys h = h
  exists-append_right p (x ∷ xs) ys h = ground (arith, exists-append_right p xs ys)

module _ {ℓ κ} {A : Type ℓ} (P : A → Type κ) where
  pub All-append : (xs ys : List A) → All P xs → All P ys → All P (xs ++ ys)
  All-append [] ys hx hy = hy
  All-append (x ∷ xs) ys hx hy = (hx.0, All-append xs ys hx.1 hy)

  pub All-first : (p : A → Bool) (xs : List A) (x : A) → All P xs → first p xs ≡ some x → P x
  All-first p [] x all = λ h. cc
  All-first p (y ∷ xs) x all =
      if_elim (λ o. o ≡ some x → P x) (p y) (λ _ e. subst P (cc) all.0)
        (λ _. All-first p xs x all.1)

  pub All-update :
      (p : A → Bool) (f : A → A)
      → ((x : A) → p x ≡ true → P x → P (f x))
      → (xs : List A) → All P xs
      → All P (update p f xs)
  All-update p f keep [] h = tt
  All-update p f keep (x ∷ xs) h =
      (if_elim P (p x) (λ t. keep x t h.0) (λ _. h.0), All-update p f keep xs h.1)

module _ {ℓ} {A : Type ℓ} (p q : A → Bool) (le : (x : A) → q x ≡ true → p x ≡ true) where
  pub count-le : (xs : List A) → count q xs ≤ count p xs
  count-le [] = omega arith
  count-le (x ∷ xs) = ground (arith, le x, count-le xs)

  -- A row that only the wider test selects makes the count of the narrower one smaller.
  pub count-lt :
      (xs : List A) (same : A → Bool)
      → ((x : A) → same x ≡ true → (p x ≡ true) × (q x ≡ false))
      → exists same xs ≡ true
      → count q xs < count p xs
  count-lt [] same gap h = cc
  count-lt (x ∷ xs) same gap h = ground (arith, le x, gap x, count-le xs, count-lt xs same gap)

pub All-imp {ℓ κ λ'} :
    {A : Type ℓ} (P : A → Type κ) (Q : A → Type λ') (xs : List A)
    → ((x : A) → P x → Q x)
    → All P xs
    → All Q xs
All-imp P Q [] f all = tt
All-imp P Q (x ∷ xs) f all = (f x all.0, All-imp P Q xs f all.1)
