-- ===== src/Envelope/Cases.antt =====
-- apps/devices/control_governance.py: proofs on the numbers and the sets of single documents.
use novena_hub.Prelude.{
  ◌≡◌, refl, Bool, true, String, Option, none, some, List, [], ◌∷◌, subst, All, arith,
}
use novena_hub.RemoteControl.Types.{Denial}
use novena_hub.RemoteControl.Revalidation.{or_else}
use novena_hub.Envelope.Int.{ℤ, leb_int}
use novena_hub.Envelope.{
  Scalar, Limits, passed, allowed_in, enum_sets, common, when_any, intersect_sets, number_of,
  numbers, enum_error, min_error, max_error,
}
use novena_hub.Envelope.Sets.{common-All}

module _ (decimal : String → Option ℤ) where
  -- The value is a number that satisfies the comparison.
  abbrev pub Compares : Scalar → (ℤ → Bool) → Type 0
  Compares v p = (n : ℤ) × (number_of decimal v ≡ some n) × (p n ≡ true)

  abbrev pub Bounds : (ℤ → Type 0) → Option Scalar → Type 0
  Bounds P x = (b : Scalar) (m : ℤ) → x ≡ some b → number_of decimal b ≡ some m → P m

  numbers_step :
      (P : ℤ → Type 0) (b : Scalar) (o : Option ℤ) (os : Option (List ℤ)) {ns : List ℤ}
      → number_of decimal b ≡ o
      → elim o [ none ↦ none | some n ↦ elim os [ none ↦ none | some ms ↦ some (n ∷ ms) ] ]
        ≡ some ns
      → All P ns
      → Bounds P (some b) × (ms : List ℤ) × (os ≡ some ms) × All P ms
  numbers_step P b none os e h p = cc
  numbers_step P b (some n) none e h p = cc
  numbers_step P b (some n) (some ms) {ns} e h p =
      let same_list : ns ≡ n ∷ ms = cc in
      let q = subst (All P) same_list p in
      ((λ c m x y. let same_m : n ≡ m = cc in subst P same_m q.0), ms, refl, q.1)

  -- What holds of all the numbers holds of the number of each given value.
  pub numbers-All :
      (P : ℤ → Type 0) (xs : List (Option Scalar)) {ns : List ℤ}
      → numbers decimal xs ≡ some ns
      → All P ns
      → All (Bounds P) xs
  unfolding numbers
  numbers-All P [] h p = tt
  numbers-All P (none ∷ rest) h p = ((λ b m x y. cc), numbers-All P rest h p)
  numbers-All P (some b ∷ rest) h p =
      let (here, ms, e, q) =
        numbers_step P b (number_of decimal b) (numbers decimal rest) refl h p in
      (here, numbers-All P rest e q)

  pub min_case :
      (o x : Option ℤ)
      → min_error decimal o x ≡ none
      → (g : ℤ) → o ≡ some g
      → (n : ℤ) × (x ≡ some n) × (leb_int g n ≡ true)
  min_case none x h g e = cc
  min_case (some low) none h g e = cc
  min_case (some low) (some n) h g e =
      let same_g : low ≡ g = cc in (n, refl, subst (λ k. leb_int k n ≡ true) same_g (ground arith))

  pub max_case :
      (o x : Option ℤ)
      → max_error decimal o x ≡ none
      → (g : ℤ) → o ≡ some g
      → (n : ℤ) × (x ≡ some n) × (leb_int n g ≡ true)
  max_case none x h g e = cc
  max_case (some high) none h g e = cc
  max_case (some high) (some n) h g e =
      let same_g : high ≡ g = cc in (n, refl, subst (λ k. leb_int n k ≡ true) same_g (ground arith))

  -- The sets of the sources, when the value is in all of them.
  sets_step :
      (v : Scalar) (o : Option (List Scalar)) (sets : List (List Scalar))
      → All (λ t. allowed_in v t ≡ true) (elim o [ none ↦ sets | some set ↦ set ∷ sets ])
      → ((set : List Scalar) → o ≡ some set → allowed_in v set ≡ true)
        × All (λ t. allowed_in v t ≡ true) sets
  sets_step v none sets h = ((λ set e. cc), h)
  sets_step v (some t) sets h = (
    (λ set e. let same_set : t ≡ set = cc in subst (λ x. allowed_in v x ≡ true) same_set h.0),
    h.1,
  )

  pub enum_sets-All :
      (v : Scalar) (sources : List Limits)
      → All (λ t. allowed_in v t ≡ true) (enum_sets sources)
      → All
          (λ (s : Limits). (set : List Scalar) → s.enum ≡ some set → allowed_in v set ≡ true)
          sources
  unfolding enum_sets
  enum_sets-All v [] h = tt
  enum_sets-All v (s ∷ rest) h =
      let (here, later) = sets_step v s.enum (enum_sets rest) h in
      (here, enum_sets-All v rest later)

  when_any_passed :
      (set : List Scalar) {o : Option (List Scalar)} → when_any set ≡ passed o → o ≡ some set
  when_any_passed [] h = cc
  when_any_passed (x ∷ set) h = cc

  enum_case :
      (v : Scalar) (o : Option (List Scalar)) {set : List Scalar}
      → o ≡ some set
      → enum_error decimal o v ≡ none
      → allowed_in v set ≡ true
  enum_case v none s e = cc
  enum_case v (some t) {set} s e =
      let same_set : t ≡ set = cc in subst (λ x. allowed_in v x ≡ true) same_set (ground arith)

  -- A value that the effective set allows is in all the sets.
  pub intersect_sets-All :
      (v : Scalar) (sets : List (List Scalar)) {o : Option (List Scalar)}
      → intersect_sets sets ≡ passed o
      → enum_error decimal o v ≡ none
      → All (λ t. allowed_in v t ≡ true) sets
  intersect_sets-All v [] h e = tt
  intersect_sets-All v (set ∷ rest) {o} h e =
      common-All v set rest (enum_case v o (when_any_passed (common set rest) {o = o} h) e)

  pub or_else-none : (a b : Option Denial) → or_else a b ≡ none → (a ≡ none) × (b ≡ none)
  or_else-none none b h = (refl, h)
  or_else-none (some d) b h = cc
