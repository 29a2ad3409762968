-- ===== src/Envelope/Sets.antt =====
-- apps/devices/control_governance.py: proofs on the sets that `_intersect_limits` intersects.
use novena_hub.Prelude.{
  ◌||◌, ◌≡◌, refl, Bool, true, false, String, List, [], ◌∷◌, eq_iff, ◌⊎◌, All, all, arith,
  Bool-cases, inl, inr,
}
use novena_hub.Envelope.Int.{ℤ, leb_int_trans}
use novena_hub.Envelope.{canonical, same, Scalar, allowed_in, common}

-- Equality of canonical values is transitive.
same_trans : (a b c : ℤ ⊎ String) → same a b ≡ true → same b c ≡ true → same a c ≡ true
same_trans (inl a) (inl b) (inl c) h k = ground (arith, leb_int_trans a b c, leb_int_trans c b a)
same_trans (inl a) (inl b) (inr c) h k = cc
same_trans (inl a) (inr b) c h k = cc
same_trans (inr a) (inl b) c h k = cc
same_trans (inr a) (inr b) (inl c) h k = cc
same_trans (inr a) (inr b) (inr c) h k = ground (arith, eq_iff a b, eq_iff b c, eq_iff a c)

allowed_in-canonical :
    (u v : Scalar) (set : List Scalar)
    → same (canonical u) (canonical v) ≡ true
    → allowed_in u set ≡ true
    → allowed_in v set ≡ true
allowed_in-canonical u v [] e h = cc
allowed_in-canonical u v (x ∷ set) e h = elim (Bool-cases (same (canonical x) (canonical u))) [
  | inl hit ↦ rw (same_trans (canonical x) (canonical u) (canonical v) hit e) refl
  | inr miss ↦
      let later = allowed_in-canonical u v set e (rw miss at h) in
      elim (Bool-cases (same (canonical x) (canonical v))) [
        | inl hit ↦ rw hit refl
        | inr other ↦ rw other later
      ]
]

or_true : (a : Bool) {b : Bool} → b ≡ true → (a || b) ≡ true
or_true true h = refl
or_true false h = h

allowed_in_every :
    (u v : Scalar) (rest : List (List Scalar))
    → same (canonical u) (canonical v) ≡ true
    → all (allowed_in u) rest ≡ true
    → All (λ t. allowed_in v t ≡ true) rest
allowed_in_every u v [] e h = tt
allowed_in_every u v (t ∷ rest) e h = elim (Bool-cases (allowed_in u t)) [
  | inl hit ↦ (allowed_in-canonical u v t e hit, allowed_in_every u v rest e (rw hit at h))
  | inr miss ↦ cc (rw miss at h)
]

-- A value of the common ones is allowed in every set.
pub common-All :
    (v : Scalar) (set : List Scalar) (rest : List (List Scalar))
    → allowed_in v (common set rest) ≡ true
    → All (λ t. allowed_in v t ≡ true) (set ∷ rest)
common-All v [] rest h = cc
common-All v (u ∷ set) rest h = elim (Bool-cases (all (allowed_in u) rest)) [
  | inl everywhere ↦ elim (Bool-cases (same (canonical u) (canonical v))) [
    | inl hit ↦ (rw hit refl, allowed_in_every u v rest hit everywhere)
    | inr miss ↦
        let later = common-All v set rest (rw (everywhere, miss) at h) in (rw miss later.0, later.1)
  ]
  | inr somewhere ↦
      let later = common-All v set rest (rw somewhere at h) in
      (or_true (same (canonical u) (canonical v)) later.0, later.1)
]
