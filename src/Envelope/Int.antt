-- ===== src/Envelope/Int.antt =====
-- Integers over the native numbers, with their order and arithmetic.
use novena_hub.Prelude.{
  ℕ, zero, suc, ◌*◌, ◌-◌, ◌+◌, ◌≡◌, refl, Bool, true, false, leb, arith, if◌then◌else◌, Bool-cases,
  inl, inr,
}

pub data ℤ : Type 0 where
  pos : ℕ → ℤ
  negsuc : ℕ → ℤ

abbrev pub leb_int : ℤ → ℤ → Bool
leb_int (pos a) (pos b) = leb a b
leb_int (pos a) (negsuc b) = false
leb_int (negsuc a) (pos b) = true
leb_int (negsuc a) (negsuc b) = leb b a

-- The distance of two integers.
abbrev pub distance : ℤ → ℤ → ℕ
distance (pos a) (pos b) = (a - b) + (b - a)
distance (pos a) (negsuc b) = a + suc b
distance (negsuc a) (pos b) = suc a + b
distance (negsuc a) (negsuc b) = (a - b) + (b - a)

-- The negative of a number.
abbrev neg : ℕ → ℤ
neg zero = pos 0
neg (suc n) = negsuc n

-- `a - b`
abbrev pub minus : ℕ → ℕ → ℤ
minus a b = if leb b a then pos (a - b) else neg (b - a)

abbrev pub add_int : ℤ → ℤ → ℤ
add_int (pos a) (pos b) = pos (a + b)
add_int (pos a) (negsuc b) = minus a (suc b)
add_int (negsuc a) (pos b) = minus b (suc a)
add_int (negsuc a) (negsuc b) = negsuc (suc (a + b))

abbrev pub mul_int : ℤ → ℤ → ℤ
mul_int (pos a) (pos b) = pos (a * b)
mul_int (pos a) (negsuc b) = neg (a * suc b)
mul_int (negsuc a) (pos b) = neg (suc a * b)
mul_int (negsuc a) (negsuc b) = pos (suc a * suc b)

-- The absolute value.
abbrev pub magnitude : ℤ → ℕ
magnitude (pos a) = a
magnitude (negsuc a) = suc a

abbrev pub max_int : ℤ → ℤ → ℤ
max_int a b = if leb_int a b then b else a

abbrev pub min_int : ℤ → ℤ → ℤ
min_int a b = if leb_int a b then a else b

pub leb_int_trans : (a b c : ℤ) → leb_int a b ≡ true → leb_int b c ≡ true → leb_int a c ≡ true
leb_int_trans (pos a) (pos b) (pos c) h k = ground arith
leb_int_trans (pos a) (pos b) (negsuc c) h k = cc
leb_int_trans (pos a) (negsuc b) c h k = cc
leb_int_trans (negsuc a) (pos b) (pos c) h k = refl
leb_int_trans (negsuc a) (pos b) (negsuc c) h k = cc
leb_int_trans (negsuc a) (negsuc b) (pos c) h k = refl
leb_int_trans (negsuc a) (negsuc b) (negsuc c) h k = ground arith

pub leb_int_total : (a b : ℤ) → leb_int a b ≡ false → leb_int b a ≡ true
leb_int_total (pos a) (pos b) h = ground arith
leb_int_total (pos a) (negsuc b) h = refl
leb_int_total (negsuc a) (pos b) h = cc
leb_int_total (negsuc a) (negsuc b) h = ground arith

-- A larger number is not rounded to a smaller one.
abbrev pub IsMonotone : (ℤ → ℤ) → Type 0
IsMonotone f = (a b : ℤ) → leb_int a b ≡ true → leb_int (f a) (f b) ≡ true

module _ (f : ℤ → ℤ) (mono : IsMonotone f) where
  pub rounded_max_below :
      (a b n : ℤ)
      → leb_int (f (max_int a b)) n ≡ true
      → (leb_int (f a) n ≡ true) × (leb_int (f b) n ≡ true)
  rounded_max_below a b n h = elim (Bool-cases (leb_int a b)) [
    | inl le ↦
        let k : leb_int (f b) n ≡ true = rw le at h in
        (leb_int_trans (f a) (f b) n (mono a b le) k, k)
    | inr gt ↦
        let k : leb_int (f a) n ≡ true = rw gt at h in
        (k, leb_int_trans (f b) (f a) n (mono b a (leb_int_total a b gt)) k)
  ]

  pub rounded_min_above :
      (a b n : ℤ)
      → leb_int n (f (min_int a b)) ≡ true
      → (leb_int n (f a) ≡ true) × (leb_int n (f b) ≡ true)
  rounded_min_above a b n h = elim (Bool-cases (leb_int a b)) [
    | inl le ↦
        let k : leb_int n (f a) ≡ true = rw le at h in
        (k, leb_int_trans n (f a) (f b) k (mono a b le))
    | inr gt ↦
        let k : leb_int n (f b) ≡ true = rw gt at h in
        (leb_int_trans n (f b) (f a) k (mono b a (leb_int_total a b gt)), k)
  ]
