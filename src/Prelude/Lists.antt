-- ===== src/Prelude/Lists.antt =====
-- Queries over lists of rows, and predicates on all the elements of a list.
use Prim.Native.Nat.{ℕ, suc}
use Prim.Native.String.{String}
use mathlib.Core.Path.{◌≡◌, refl, sym, subst}
use mathlib.Core.Bool.{Bool, true, false, ◌&&◌, ◌||◌}
use mathlib.Core.Option.{Option, none, some}
use mathlib.Core.List.{List, [], ◌∷◌, Memᴰ, map}
use text.Mathlib.Text.{◌==◌ as str_eq}
use native.Mathlib.Omega.{arith}
use mathlib.Core.Logic.{inl, inr}
use novena_hub.Prelude.Tests.{if◌then◌else◌, Bool-cases}

module _ {ℓ} {A : Type ℓ} where
  abbrev pub length : List A → ℕ
  length [] = 0
  length (x ∷ xs) = suc (length xs)

  -- `.filter(...).first()`
  abbrev pub find? : (A → Bool) → List A → Option A
  find? p [] = none
  find? p (x ∷ xs) = if p x then some x else find? p xs

  -- `.filter(...)`
  abbrev pub select : (A → Bool) → List A → List A
  select p [] = []
  select p (x ∷ xs) = let rest = select p xs in if p x then x ∷ rest else rest

  -- `.filter(...).exists()`
  abbrev pub any : (A → Bool) → List A → Bool
  any p [] = false
  any p (x ∷ xs) = p x || any p xs

  abbrev pub all : (A → Bool) → List A → Bool
  all p [] = true
  all p (x ∷ xs) = p x && all p xs

  -- `.filter(...).update(...)`
  abbrev pub update_where : (A → Bool) → (A → A) → List A → List A
  update_where p f [] = []
  update_where p f (x ∷ xs) = (if p x then f x else x) ∷ update_where p f xs

  -- `row = ....filter(...).first()`, changes of the row, and `row.save()`.
  abbrev pub update_first : (A → Bool) → (A → A) → List A → List A
  update_first p f [] = []
  update_first p f (x ∷ xs) = let rest = update_first p f xs in if p x then f x ∷ xs else x ∷ rest

-- What a query finds is a row of the table that meets the query's condition.
pub find?-sound {ℓ} :
    {A : Type ℓ} (p : A → Bool) (xs : List A) {a : A}
    → find? p xs ≡ some a
    → Memᴰ a xs × (p a ≡ true)
find?-sound p [] h = cc
find?-sound p (x ∷ xs) {a} h = elim (Bool-cases (p x)) [
  | inl found ↦ (Memᴰ.head (ground arith), ground arith)
  | inr passed ↦ let (m, q) = find?-sound p xs {a = a} (ground arith) in (Memᴰ.tail m, q)
]

-- Every element satisfies the predicate.
abbrev pub All {ℓ κ} : {A : Type ℓ} → (A → Type κ) → List A → Type κ
All P [] = Unit
All P (x ∷ xs) = P x × All P xs

pub All-Mem {ℓ κ} : {A : Type ℓ} (P : A → Type κ) (xs : List A) {a : A} → All P xs → Memᴰ a xs → P a
All-Mem P [] h m = elim m [ ]
All-Mem P (x ∷ xs) {a} h (Memᴰ.head e) = subst P (sym e) h.0
All-Mem P (x ∷ xs) {a} h (Memᴰ.tail m) = All-Mem P xs h.1 m

-- `text in list`
abbrev pub contains : List String → String → Bool
contains xs s = any (str_eq s) xs

-- The elements of two lists are related in pairs.
pub data Each {ℓ κ} {A : Type ℓ} (R : A → A → Type κ) : List A → List A → Type (ℓ ⊔ κ) where
  ended : Each R [] []
  paired : {x y : A} {xs ys : List A} → R x y → Each R xs ys → Each R (x ∷ xs) (y ∷ ys)

module _ {ℓ κ} {A : Type ℓ} {R : A → A → Type κ} (keep : (a : A) → R a a) where
  pub Each-refl : (xs : List A) → Each R xs xs
  Each-refl [] = ended
  Each-refl (x ∷ xs) = paired (keep x) (Each-refl xs)

  -- An update of the first row that a query finds relates every row with itself, but that one with
  -- its new value.
  pub Each-update_first :
      (p : A → Bool) (f : A → A) (xs : List A) {a : A}
      → find? p xs ≡ some a
      → R a (f a)
      → Each R xs (update_first p f xs)
  Each-update_first p f [] h r = cc
  Each-update_first p f (x ∷ xs) {a} h r = elim (Bool-cases (p x)) [
    | inl found ↦
        let e : x ≡ a = ground arith in
        rw found (
          paired (subst (λ y. R x (f y)) (sym e) (subst (λ y. R y (f a)) (sym e) r)) (Each-refl xs))
    | inr passed ↦ rw passed (paired (keep x) (Each-update_first p f xs (ground arith) r))
  ]

  module _ (p : A → Bool) (f : A → A) (step : (a : A) → R a (f a)) where
    pub Each-update_where : (xs : List A) → Each R xs (update_where p f xs)
    Each-update_where [] = ended
    Each-update_where (x ∷ xs) = elim (Bool-cases (p x)) [
      | inl found ↦ rw found (paired (step x) (Each-update_where xs))
      | inr passed ↦ rw passed (paired (keep x) (Each-update_where xs))
    ]

    pub Each-update_first_of : (xs : List A) → Each R xs (update_first p f xs)
    Each-update_first_of [] = ended
    Each-update_first_of (x ∷ xs) = elim (Bool-cases (p x)) [
      | inl found ↦ rw found (paired (step x) (Each-refl xs))
      | inr passed ↦ rw passed (paired (keep x) (Each-update_first_of xs))
    ]

module _ {ℓ} {A : Type ℓ} (p : A → Bool) (f g : A → A) (same : (a : A) → p (f a) ≡ p a) where
  -- Two updates of one row are an update by both.
  pub update_first_twice :
      (xs : List A) → update_first p g (update_first p f xs) ≡ update_first p (λ a. g (f a)) xs
  update_first_twice [] = refl
  update_first_twice (x ∷ xs) = elim (Bool-cases (p x)) [
    | inl found ↦ rw (found, same x, found) refl
    | inr passed ↦ rw (passed, passed, update_first_twice xs) refl
  ]

pub Each-map {ℓ κ} :
    {A : Type ℓ} {R : A → A → Type κ} (f : A → A)
    → ((a : A) → R a (f a))
    → (xs : List A) → Each R xs (map f xs)
Each-map f step [] = ended
Each-map f step (x ∷ xs) = paired (step x) (Each-map f step xs)

pub All-map {ℓ κ} :
    {A : Type ℓ} (P : A → Type κ) (f : A → A)
    → ((a : A) → P (f a))
    → (xs : List A) → All P (map f xs)
All-map P f holds [] = tt
All-map P f holds (x ∷ xs) = (holds x, All-map P f holds xs)
