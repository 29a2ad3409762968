-- ===== src/Envelope/Within.antt =====
-- apps/devices/control_governance.py: proofs on `_intersect_limits` and the checks of a value.
use novena_hub.Prelude.{
  ℕ, ◌≡◌, refl, true, String, Option, none, some, List, [], ◌∷◌, sym, ap, ◌∙◌, map, All, Bool-cases,
  inl, inr,
}
use novena_hub.Envelope.Int.{
  ℤ, leb_int, max_int, min_int, IsMonotone, rounded_max_below, rounded_min_above,
}
use novena_hub.Envelope.{
  Scalar, Limits, Effective, Checked, passed, refused, allowed_in, greatest, least, floated,
  overlap, bounds, enum_sets, intersect_sets, assemble, number_of, numbers, intersect_limits,
  limits_error,
}
use novena_hub.Envelope.Extrema.{IsInherited, greatest-All, least-All}
use novena_hub.Envelope.Cases.{
  Compares, Bounds, numbers-All, min_case, max_case, enum_sets-All, intersect_sets-All,
  or_else-none,
}

module _ (decimal : String → Option ℤ) (rounded : ℕ → ℤ → ℤ) where
  -- How `float` rounds a limit.
  abbrev float : ℤ → ℤ
  float = rounded 6

  -- The value lies within one document of limits, whose bounds are rounded to floats.
  pub record IsWithin (v : Scalar) (s : Limits) : Type 0 where
    pub above : Bounds decimal (λ low. Compares decimal v (leb_int (float low))) s.min
    pub below : Bounds decimal (λ high. Compares decimal v (λ n. leb_int n (float high))) s.max
    pub allowed : (set : List Scalar) → s.enum ≡ some set → allowed_in v set ≡ true

  max-IsInherited :
      (v : Scalar)
      → IsMonotone (rounded 6)
      → IsInherited max_int (λ low. Compares decimal v (leb_int (float low)))
  max-IsInherited v mono a b (n, e, h) =
      let (one, other) = rounded_max_below (rounded 6) mono a b n h in ((n, e, one), (n, e, other))

  min-IsInherited :
      (v : Scalar)
      → IsMonotone (rounded 6)
      → IsInherited min_int (λ high. Compares decimal v (λ n. leb_int n (float high)))
  min-IsInherited v mono a b (n, e, h) =
      let (one, other) = rounded_min_above (rounded 6) mono a b n h in ((n, e, one), (n, e, other))

  -- How an intersection comes about.
  pub record IsIntersection (sources : List Limits) (e : Effective) : Type 0 where
    pub minima : List ℤ
    pub maxima : List ℤ
    pub minima_read : numbers decimal (map (λ s. s.min) sources) ≡ some minima
    pub maxima_read : numbers decimal (map (λ s. s.max) sources) ≡ some maxima
    pub low : e.min ≡ floated float (greatest minima)
    pub high : e.max ≡ floated float (least maxima)
    pub set : intersect_sets (enum_sets sources) ≡ passed e.enum
    pub overlapping : overlap e.min e.max ≡ true

  assemble_lem :
      (b : Checked (Option ℤ × Option ℤ)) (t : Checked (Option (List Scalar)))
      (r : Checked (Option ℤ × (Option ℤ × Option ℤ))) {e : Effective}
      → assemble b t r ≡ passed e
      → (b ≡ passed (e.min, e.max)) × (t ≡ passed e.enum)
  assemble_lem (refused d) t r h = cc
  assemble_lem (passed x) (refused d) r h = cc
  assemble_lem (passed x) (passed t) (refused d) h = cc
  assemble_lem (passed (low, high)) (passed t) (passed (delta, (rate, pause))) {e} h =
      let same_e : record {
        min = low;
        max = high;
        enum = t;
        max_delta = delta;
        max_rate = rate;
        cooldown_seconds = pause;
      }
          ≡ e =
        cc in
      (
        ap (λ (x : Effective). passed (x.min, x.max)) same_e,
        ap (λ (x : Effective). passed x.enum) same_e,
      )

  bounds_lem :
      (a b : Option (List ℤ)) {low high : Option ℤ}
      → bounds float a b ≡ passed (low, high)
      → (minima maxima : List ℤ) × (a ≡ some minima)
        × (b ≡ some maxima)
        × (low ≡ floated float (greatest minima))
        × (high ≡ floated float (least maxima))
        × (overlap (floated float (greatest minima)) (floated float (least maxima)) ≡ true)
  bounds_lem none b h = cc
  bounds_lem (some minima) none h = cc
  bounds_lem (some minima) (some maxima) {low} {high} h =
      elim (Bool-cases (overlap (floated float (greatest minima)) (floated float (least maxima)))) [
        | inl meet ↦
            let same_pair : (floated float (greatest minima), floated float (least maxima))
                ≡ (low, high) =
              cc (rw meet at h) in
            (
              minima,
              maxima,
              refl,
              refl,
              ap (λ (x : Option ℤ × Option ℤ). x.0) (sym same_pair),
              ap (λ (x : Option ℤ × Option ℤ). x.1) (sym same_pair),
              meet,
            )
        | inr apart ↦ cc (rw apart at h)
      ]

  intersect_limits-IsIntersection :
      (sources : List Limits) {e : Effective}
      → intersect_limits decimal rounded sources ≡ passed e
      → IsIntersection sources e
  unfolding intersect_limits
  intersect_limits-IsIntersection sources {e} h =
      let (bounded, chosen) = assemble_lem _ _ _ {e = e} h in
      let (minima, maxima, read_min, read_max, low, high, meet) = bounds_lem _ _ bounded in
      record {
        minima = minima;
        maxima = maxima;
        minima_read = read_min;
        maxima_read = read_max;
        low = low;
        high = high;
        set = chosen;
        overlapping = rw (low, high) meet;
      }

  every-IsWithin :
      (v : Scalar) (sources : List Limits)
      → All
          (Bounds decimal (λ low. Compares decimal v (leb_int (float low))))
          (map (λ s. s.min) sources)
      → All
          (Bounds decimal (λ high. Compares decimal v (λ n. leb_int n (float high))))
          (map (λ s. s.max) sources)
      → All
          (λ (s : Limits). (set : List Scalar) → s.enum ≡ some set → allowed_in v set ≡ true)
          sources
      → All (IsWithin v) sources
  every-IsWithin v [] a b c = tt
  every-IsWithin v (s ∷ rest) a b c =
      (record { above = a.0; below = b.0; allowed = c.0 }, every-IsWithin v rest a.1 b.1 c.1)

  -- A value that the checks against an effective envelope pass lies within every document of limits
  -- that the envelope was intersected from, whose bounds are rounded to floats: at or above each
  -- minimum, at or below each maximum, and among each set of allowed values, if rounding is monotone.
  pub limits_error-IsWithin :
      (sources : List Limits) (e : Effective) (v : Scalar)
      → IsMonotone (rounded 6)
      → intersect_limits decimal rounded sources ≡ passed e
      → limits_error decimal e v ≡ none
      → All (IsWithin v) sources
  unfolding limits_error
  limits_error-IsWithin sources e v mono made ok =
      let i = intersect_limits-IsIntersection sources {e = e} made in
      let (in_set, bounded) = or_else-none decimal _ _ ok in
      let (low, high) = or_else-none decimal _ _ bounded in
      every-IsWithin v sources
        (numbers-All decimal _ _ i.minima_read (
          greatest-All _ i.minima (max-IsInherited v mono) (λ g x.
            min_case decimal e.min (number_of decimal v) low (float g)
              (i.low ∙ ap (floated float) x))))
        (numbers-All decimal _ _ i.maxima_read (
          least-All _ i.maxima (min-IsInherited v mono) (λ g x.
            max_case decimal e.max (number_of decimal v) high (float g)
              (i.high ∙ ap (floated float) x))))
        (enum_sets-All decimal v sources
          (intersect_sets-All decimal v (enum_sets sources) {o = e.enum} i.set in_set))
