-- ===== src/Alerts/Sustained.antt =====
-- apps/alerts/services.py: proofs on a condition that has to last.
use mathlib.Core.List.{Memᴰ}
use novena_hub.Prelude.{
  ℕ, suc, ◌+◌, ◌-◌, ◌≤◌, ◌<◌, ◌≡◌, refl, subst, Bool, true, false, ◌&&◌, Option, none, some, List,
  [], ◌∷◌, select, leb, ltb, seconds, All, Option-cases, ltb→lt, arith, Bool-cases, inl, inr,
}
use novena_hub.Envelope.Int.{ℤ, pos}
use novena_hub.Alerts.{AlertRule, Point}
use novena_hub.Alerts.Window.{
  Reading, meets, insert, order_by_timestamp, later_of, latest_before, last_point, follows,
  unbroken, unbroken_from, evaluate_window, evaluate_duration, evaluate_condition, history_of,
  gap_of, in_window,
}

module _ (P : Point → Type 0) where
  All-insert : (p : Point) (xs : List Point) → P p → All P xs → All P (insert p xs)
  All-insert p [] h hs = (h, tt)
  All-insert p (q ∷ qs) h (hq, hs) = elim (Bool-cases (leb p.timestamp q.timestamp)) [
    | inl b ↦ rw b (h, (hq, hs))
    | inr b ↦ rw b (hq, All-insert p qs h hs)
  ]

  insert-All : (p : Point) (xs : List Point) → All P (insert p xs) → P p × All P xs
  insert-All p [] h = h
  insert-All p (q ∷ qs) h = elim (Bool-cases (leb p.timestamp q.timestamp)) [
    | inl b ↦ rw b at h
    | inr b ↦
        let k : P q × All P (insert p qs) = rw b at h in
        let (hp, hs) = insert-All p qs k.1 in (hp, (k.0, hs))
  ]

  All-order : (xs : List Point) → All P xs → All P (order_by_timestamp xs)
  unfolding order_by_timestamp
  All-order [] h = tt
  All-order (x ∷ xs) (h, hs) = All-insert x (order_by_timestamp xs) h (All-order xs hs)

  order-All : (xs : List Point) → All P (order_by_timestamp xs) → All P xs
  unfolding order_by_timestamp
  order-All [] h = tt
  order-All (x ∷ xs) h =
      let (hx, hs) = insert-All x (order_by_timestamp xs) h in (hx, order-All xs hs)

-- Each point follows the one before it within the gap.
abbrev pub IsSteady : ℕ → Point → List Point → Type 0
IsSteady gap p [] = Unit
IsSteady gap p (q ∷ qs) = ((q.timestamp - p.timestamp) ≤ gap) × IsSteady gap q qs

abbrev pub Meets : AlertRule → Point → Type 0
Meets r p = meets r p ≡ true

and_true : (a b : Bool) → (a && b) ≡ true → (a ≡ true) × (b ≡ true)
and_true true true h = (refl, refl)
and_true true false h = (refl, h)
and_true false b h = (h, cc)

follows-inv :
    (r : AlertRule) (gap : ℕ) (p : Point) (qs : List Point)
    → follows r gap p qs ≡ true
    → All (Meets r) qs × IsSteady gap p qs
unfolding follows
follows-inv r gap p [] h = (tt, tt)
follows-inv r gap p (q ∷ qs) h =
    let (m, h1) = and_true _ _ h in
    let (near, h2) = and_true _ _ h1 in
    let (all, steady) = follows-inv r gap q qs h2 in ((m, all), (ground arith, steady))

last_point-All :
    (P : Point → Type 0) (p : Point) (ps : List Point) → P p → All P ps → P (last_point p ps)
unfolding last_point
last_point-All P p [] h hs = h
last_point-All P p (q ∷ qs) h (hq, hs) = last_point-All P q qs hq hs

-- What an unbroken run of points says.
pub record IsRun (r : AlertRule) (gap read_at : ℕ) (p : Point) (ps : List Point) : Type 0 where
  pub first_meets : Meets r p
  pub rest_meets : All (Meets r) ps
  pub steady : IsSteady gap p ps
  pub recent : read_at - (last_point p ps).timestamp ≤ gap

unbroken-IsRun :
    (r : AlertRule) (gap read_at : ℕ) (p : Point) (ps : List Point)
    → unbroken r gap read_at p ps ≡ true
    → IsRun r gap read_at p ps
unfolding unbroken
unbroken-IsRun r gap read_at p ps h =
    let (near, h1) = and_true _ _ h in
    let (m, h2) = and_true _ _ h1 in
    let (all, steady) = follows-inv r gap p ps h2 in
    record { first_meets = m; rest_meets = all; steady = steady; recent = ground arith }

-- A reading of the history that meets the rule, at a moment or at most the gap before it.
abbrev pub IsCovered : AlertRule → List Point → ℕ → ℕ → Type 0
IsCovered r history gap t =
    (q : Point) × Memᴰ q history × Meets r q × (q.timestamp ≤ t) × (t ≤ q.timestamp + gap)

-- An unbroken run leaves no moment uncovered, from its first point to the clock.
run-covers :
    (r : AlertRule) (history : List Point) (gap read_at t : ℕ) (p : Point) (ps : List Point)
    → All (λ a. Memᴰ a history) (p ∷ ps)
    → IsRun r gap read_at p ps
    → p.timestamp ≤ t
    → t ≤ read_at
    → IsCovered r history gap t
unfolding last_point
run-covers r history gap read_at t p [] known run from to =
    (p, known.0, run.first_meets, from, omega (arith, run.recent))
run-covers r history gap read_at t p (q ∷ qs) known run from to =
    elim (Bool-cases (leb q.timestamp t)) [
      | inl past ↦
          run-covers r history gap read_at t q qs known.1
            (record {
              first_meets = run.rest_meets.0;
              rest_meets = run.rest_meets.1;
              steady = run.steady.1;
              recent = run.recent;
            })
            (ground arith) to
      | inr ahead ↦
          let soon : q.timestamp - p.timestamp ≤ gap = run.steady.0 in
          (p, known.0, run.first_meets, from, ground arith)
    ]

later_of-picks :
    (P : Point → Type 0) (x : Point) (o : Option Point) {q : Point}
    → some (later_of x o) ≡ some q
    → P x
    → ((y : Point) → o ≡ some y → P y)
    → P q
later_of-picks P x none {q} h hx ho = let e : x ≡ q = cc in subst P e hx
later_of-picks P x (some y) {q} h hx ho = elim (Bool-cases (ltb x.timestamp y.timestamp)) [
  | inl b ↦ let k : some y ≡ some q = rw b at h in let e : y ≡ q = cc in subst P e (ho y refl)
  | inr b ↦ let k : some x ≡ some q = rw b at h in let e : x ≡ q = cc in subst P e hx
]

-- The point before the window is one of the history.
latest_before-Mem :
    (start : ℕ) (xs : List Point) {q : Point}
    → latest_before start xs ≡ some q
    → Memᴰ q xs × q.timestamp < start
unfolding latest_before
latest_before-Mem start [] h = cc
latest_before-Mem start (x ∷ xs) {q} h = elim (Bool-cases (ltb x.timestamp start)) [
  | inl b ↦
      let k : some (later_of x (latest_before start xs)) ≡ some q = rw b at h in
      later_of-picks (λ y. Memᴰ y (x ∷ xs) × y.timestamp < start) x (latest_before start xs) k
        (Memᴰ.head refl, ltb→lt _ _ b)
        (λ y e. let (m, lt) = latest_before-Mem start xs e in (Memᴰ.tail m, lt))
  | inr b ↦
      let k : latest_before start xs ≡ some q = rw b at h in
      let (m, lt) = latest_before-Mem start xs k in (Memᴰ.tail m, lt)
]

-- What holds when a condition has lasted for its duration, which begins at `start`: the readings of
-- the window meet it; one of the history that meets it is from before the window, or of its first two
-- seconds; and from that reading on, until the clock is read, at every moment a reading of the history
-- that meets the condition is at most the offline threshold old.
pub record IsSustained (r : AlertRule) (x : Reading) (start : ℕ) : Type 0 where
  pub measured : All (Meets r) (select (in_window start) (history_of x))
  pub first : Point
  pub first_in : Memᴰ first (history_of x)
  pub first_meets : Meets r first
  pub reaches_back : first.timestamp ≤ start + seconds 2
  pub covered :
      (t : ℕ) → first.timestamp ≤ t → t ≤ x.read_at → IsCovered r (history_of x) (gap_of x) t

select-All :
    (Q : Point → Type 0) (f : Point → Bool) (xs : List Point)
    → ((a : Point) → Memᴰ a xs → Q a)
    → All Q (select f xs)
select-All Q f [] k = tt
select-All Q f (x ∷ xs) k =
    let rest = select-All Q f xs (λ a m. k a (Memᴰ.tail m)) in
    elim (Bool-cases (f x)) [ inl b ↦ rw b (k x (Memᴰ.head refl), rest) | inr b ↦ rw b rest ]

not_late : (a b : ℕ) → ltb a b ≡ false → b ≤ a
not_late a b h = ground arith

-- The window in its order, against the points in the window as they stand.
window-IsSustained :
    (r : AlertRule) (x : Reading) (start : ℕ) (points : List Point)
    → points ≡ order_by_timestamp (select (in_window start) (history_of x))
    → All (λ a. Memᴰ a (history_of x)) points
    → evaluate_window r (gap_of x) start x.read_at (history_of x) points ≡ true
    → IsSustained r x start
unfolding evaluate_window unbroken_from
window-IsSustained r x start [] e known h = cc
window-IsSustained r x start (p ∷ ps) e known h =
    elim (Bool-cases (ltb (start + seconds 2) p.timestamp)) [
      | inl late ↦ elim (Option-cases (latest_before start (history_of x))) [
        | inl n ↦ let k : false ≡ true = rw (evaluate_window, late, n) at h in (cc)
        | inr (q, n) ↦
            let k : (meets r q && unbroken r (gap_of x) x.read_at q (p ∷ ps)) ≡ true =
              rw (evaluate_window, late, n) at h in
            let (m, u) = and_true _ _ k in
            let run = unbroken-IsRun r (gap_of x) x.read_at q (p ∷ ps) u in
            let (found, before) = latest_before-Mem start (history_of x) n in
            record {
              measured = order-All (Meets r) _ (subst (All (Meets r)) e run.rest_meets);
              first = q;
              first_in = found;
              first_meets = run.first_meets;
              reaches_back = omega arith;
              covered = λ t.
                  run-covers r (history_of x) (gap_of x) x.read_at t q (p ∷ ps) (found, known) run;
            }
      ]
      | inr early ↦
          let k : unbroken r (gap_of x) x.read_at p ps ≡ true = rw (evaluate_window, early) at h in
          let run = unbroken-IsRun r (gap_of x) x.read_at p ps k in
          record {
            measured =
                order-All (Meets r) _ (subst (All (Meets r)) e (run.first_meets, run.rest_meets));
            first = p;
            first_in = known.0;
            first_meets = run.first_meets;
            reaches_back = not_late _ _ early;
            covered = λ t. run-covers r (history_of x) (gap_of x) x.read_at t p ps known run;
          }
    ]

duration-IsSustained :
    (r : AlertRule) (x : Reading) (d : ℕ)
    → evaluate_duration r x (pos (suc d)) ≡ true
    → IsSustained r x (x.now - seconds (suc d))
unfolding evaluate_duration
duration-IsSustained r x d h =
    let start = x.now - seconds (suc d) in
    let known =
      All-order (λ a. Memᴰ a (history_of x)) (select (in_window start) (history_of x))
        (select-All _ (in_window start) (history_of x) (λ a m. m)) in
    window-IsSustained r x start _ refl known h

-- When `evaluate_condition` holds for a rule with a duration of at least one second: every reading of
-- the window of that duration meets the condition; a reading of the same device and key that meets
-- it is from before the window or from its first two seconds; and from that reading on, until the
-- clock is read again, at every moment some reading of the device and key that meets the condition
-- is no older than the offline threshold of the device.
pub evaluate_condition-IsSustained :
    (r : AlertRule) (x : Reading) (v : ℤ) (d : ℕ)
    → evaluate_condition r x v ≡ true
    → r.duration_seconds ≡ pos (suc d)
    → IsSustained r x (x.now - seconds (suc d))
unfolding evaluate_condition
evaluate_condition-IsSustained r x v d h lasts =
    let (now_met, k) = and_true _ _ h in
    duration-IsSustained r x d (subst (λ n. evaluate_duration r x n ≡ true) lasts k)
