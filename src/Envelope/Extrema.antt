-- ===== src/Envelope/Extrema.antt =====
-- apps/devices/control_governance.py: proofs on the extrema that `_intersect_limits` takes.
use novena_hub.Prelude.{◌≡◌, refl, Option, none, some, List, [], ◌∷◌, subst, All}
use novena_hub.Envelope.Int.{ℤ, max_int, min_int}
use novena_hub.Envelope.{greatest, least}

-- What an extremum of two numbers satisfies both numbers satisfy.
abbrev pub IsInherited : (ℤ → ℤ → ℤ) → (ℤ → Type 0) → Type 0
IsInherited op P = (a b : ℤ) → P (op a b) → P a × P b

extremum_step :
    (op : ℤ → ℤ → ℤ) (P : ℤ → Type 0) (k : ℤ) (o : Option ℤ)
    → IsInherited op P
    → ((g : ℤ) → elim o [ none ↦ some k | some m ↦ some (op k m) ] ≡ some g → P g)
    → P k × ((g : ℤ) → o ≡ some g → P g)
extremum_step op P k none i h = (h k refl, λ g e. cc)
extremum_step op P k (some m) i h =
    let (one, other) = i k m (h (op k m) refl) in
    (one, λ g e. let same_g : m ≡ g = cc in subst P same_g other)

pub greatest-All :
    (P : ℤ → Type 0) (ns : List ℤ)
    → IsInherited max_int P
    → ((g : ℤ) → greatest ns ≡ some g → P g)
    → All P ns
unfolding greatest
greatest-All P [] i h = tt
greatest-All P (k ∷ rest) i h =
    let (one, others) = extremum_step max_int P k (greatest rest) i h in
    (one, greatest-All P rest i others)

pub least-All :
    (P : ℤ → Type 0) (ns : List ℤ)
    → IsInherited min_int P
    → ((g : ℤ) → least ns ≡ some g → P g)
    → All P ns
unfolding least
least-All P [] i h = tt
least-All P (k ∷ rest) i h =
    let (one, others) = extremum_step min_int P k (least rest) i h in
    (one, least-All P rest i others)
