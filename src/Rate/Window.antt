-- ===== src/Rate/Window.antt =====
-- src/iperf_api.c: the cyclic array of interval totals holds the last intervals.
use mathlib.Core.Path.{subst, ap₂}
use iperf3_windows_msvc.Prelude.{
  ℕ, zero, suc, ◌+◌, ◌-◌, ◌%◌, ◌^◌, ◌≤◌, ◌<◌, ◌≡◌, refl, sym, ap, ◌∙◌, ◌⊎◌, inl, inr, List, [], ◌∷◌,
  ◌++◌, length, set, take, drop, get_or, length-set, length-append, length-replicate, replicate,
  arith, append_assoc, append-nil,
}
use iperf3_windows_msvc.Prelude.Double.{Double}
use iperf3_windows_msvc.Rate.Total.{
  LimitSettings, LimitState, max_interval, reset_limit, add_intervals, next_index,
}

-- `p` in reverse, in front of `ts`.
abbrev pub rev_onto : List ℕ → List ℕ → List ℕ
rev_onto [] ts = ts
rev_onto (x ∷ p) ts = rev_onto p (x ∷ ts)

abbrev pub sum : List ℕ → ℕ
sum [] = 0
sum (x ∷ xs) = x + sum xs

rev_onto-append : (p q ts : List ℕ) → rev_onto (p ++ q) ts ≡ rev_onto q (rev_onto p ts)
rev_onto-append [] q ts = refl
rev_onto-append (x ∷ p) q ts = rev_onto-append p q (x ∷ ts)

length-rev_onto : (p ts : List ℕ) → length (rev_onto p ts) ≡ length p + length ts
length-rev_onto [] ts = omega arith
length-rev_onto (x ∷ p) ts = omega (arith, length-rev_onto p (x ∷ ts))

set-rev_onto :
    (p ts : List ℕ) (k v : ℕ) → set (rev_onto p ts) (length p + k) v ≡ rev_onto p (set ts k v)
set-rev_onto [] ts k v = ap (λ i. set ts i v) (omega arith)
set-rev_onto (x ∷ p) ts k v =
    ap (λ i. set (rev_onto p (x ∷ ts)) i v) (omega arith) ∙ set-rev_onto p (x ∷ ts) (suc k) v

sum-take-rev_onto :
    (p ts : List ℕ) (k : ℕ) → sum (take (length p + k) (rev_onto p ts)) ≡ sum p + sum (take k ts)
sum-take-rev_onto [] ts k =
    let none_more : 0 + k ≡ k = omega arith in omega (arith, ap (λ n. sum (take n ts)) none_more)
sum-take-rev_onto (x ∷ p) ts k =
    let more : suc (length p) + k ≡ length p + suc k = omega arith in
    ap (λ n. sum (take n (rev_onto p (x ∷ ts)))) more
    ∙ omega (arith, sum-take-rev_onto p (x ∷ ts) (suc k))

sum-append : (p q : List ℕ) → sum (p ++ q) ≡ sum p + sum q
sum-append [] q = omega arith
sum-append (x ∷ p) q = omega (arith, sum-append p q)

add_intervals-sum :
    (n : ℕ) (xs : List ℕ) (acc : ℕ)
    → acc < 2 ^ 64
    → add_intervals n xs acc ≡ (acc + sum (take n xs)) % 2 ^ 64
add_intervals-sum zero xs acc h = omega arith
add_intervals-sum (suc n) [] acc h = omega arith
add_intervals-sum (suc n) (x ∷ xs) acc h =
    omega (arith, add_intervals-sum n xs ((acc + x) % 2 ^ 64) (omega arith))

-- A list is empty or has a last element.
last_cases : (xs : List ℕ) → (xs ≡ []) ⊎ ((ys : List ℕ) × (y : ℕ) × (xs ≡ ys ++ (y ∷ [])))
last_cases [] = inl refl
last_cases (x ∷ xs) = elim (last_cases xs) [
  | inl e ↦ inr ([], x, ap (λ t. x ∷ t) e)
  | inr (ys, y, e) ↦ inr (x ∷ ys, y, ap (λ t. x ∷ t) e)
]

take_front :
    (xs ys : List ℕ) (y : ℕ) → take (suc (length ys)) xs ≡ ys ++ (y ∷ []) → take (length ys) xs ≡ ys
take_front xs [] y h = refl
take_front [] (z ∷ ys) y h = absurd (omega (arith, ap length h))
take_front (x ∷ xs) (z ∷ ys) y h =
    ap₂ (λ a t. a ∷ t) (ap (λ l. get_or l 0 0) h) (take_front xs ys y (ap (drop 1) h))

-- The oldest of the latest entries falls out when a new one comes.
oldest_out :
    (xs ys : List ℕ) (y n : ℕ) → length ys ≡ n → take (suc n) xs ≡ ys ++ (y ∷ []) → take n xs ≡ ys
oldest_out xs ys y n len h =
    subst (λ m. take m xs ≡ ys) len
      (take_front xs ys y (subst (λ m. take (suc m) xs ≡ ys ++ (y ∷ [])) (sym len) h))

take-append : (n : ℕ) (xs ys : List ℕ) → n ≤ length xs → take n (xs ++ ys) ≡ take n xs
take-append zero xs ys h = refl
take-append (suc n) [] ys h = absurd (omega arith)
take-append (suc n) (x ∷ xs) ys h = ap (λ t. x ∷ t) (take-append n xs ys (omega arith))

before_total : (q ts : List ℕ) → sum (take (length q) (rev_onto q ts)) ≡ sum q
before_total q ts =
    let none_more : length q + 0 ≡ length q = omega arith in
    omega (arith, ap (λ n. sum (take n (rev_onto q ts))) none_more, sum-take-rev_onto q ts 0)

-- What the array is: the entries of this lap, latest first, then those of the lap before, then the
-- part that is not used. `totals` are the totals of all intervals so far, latest first.
pub record IsRing (n : ℕ) (totals : List ℕ) (s : LimitState) : Type 0 where
  pub lap : List ℕ
  pub before : List ℕ
  pub unused : List ℕ
  pub array : s.intervals_traffic_bytes ≡ rev_onto lap (rev_onto before unused)
  pub index : length lap ≡ suc s.last_interval_index
  pub size : length lap + length before ≡ n
  pub whole : length s.intervals_traffic_bytes ≡ max_interval
  pub latest : take n (totals ++ replicate n 0) ≡ lap ++ before

-- The loop of the check over the array adds the latest totals.
pub ring_total :
    (n : ℕ) (totals : List ℕ) (s : LimitState)
    → IsRing n totals s
    → n ≤ length totals
    → add_intervals n s.intervals_traffic_bytes 0 ≡ sum (take n totals) % 2 ^ 64
ring_total n totals s ring enough =
    let p = ring.lap in
    let q = rev_onto ring.before ring.unused in
    let two_laps : sum (take n s.intervals_traffic_bytes) ≡ sum p + sum ring.before =
      ap (λ a. sum (take n a)) ring.array
      ∙ ap (λ m. sum (take m (rev_onto p q))) (sym ring.size)
      ∙ omega (
        arith,
        sum-take-rev_onto p q (length ring.before),
        before_total ring.before ring.unused,
      ) in
    omega (
      arith,
      add_intervals-sum n s.intervals_traffic_bytes 0,
      two_laps,
      sum-append p ring.before,
      ap sum (sym (take-append n totals (replicate n 0) enough) ∙ ring.latest),
    )

module _ (n v : ℕ) (totals : List ℕ) (s t : LimitState) (ring : IsRing (suc n) totals s) where
  lap_index : suc s.last_interval_index ≡ length ring.lap + 0
  lap_index = omega (arith, ring.index)

  oldest_first :
      (ys : List ℕ) (y : ℕ)
      → ring.before ≡ ys ++ (y ∷ [])
      → s.intervals_traffic_bytes ≡ rev_onto ring.lap (y ∷ rev_onto ys ring.unused)
  oldest_first ys y split =
      ring.array
      ∙ ap (λ b. rev_onto ring.lap (rev_onto b ring.unused)) split
      ∙ ap (rev_onto ring.lap) (rev_onto-append ys (y ∷ []) ring.unused)

  -- The lap goes on over the oldest entry, `y`.
  step_on-IsRing :
      (ys : List ℕ) (y : ℕ)
      → ring.before ≡ ys ++ (y ∷ [])
      → t.last_interval_index ≡ suc s.last_interval_index
      → t.intervals_traffic_bytes ≡ set s.intervals_traffic_bytes (suc s.last_interval_index) v
      → IsRing (suc n) (v ∷ totals) t
  step_on-IsRing ys y split index array = record {
    lap = v ∷ ring.lap;
    before = ys;
    unused = ring.unused;
    array =
        array
        ∙ ap (λ a. set a (suc s.last_interval_index) v) (oldest_first ys y split)
        ∙ ap (λ i. set (rev_onto ring.lap (y ∷ rev_onto ys ring.unused)) i v) lap_index
        ∙ set-rev_onto ring.lap (y ∷ rev_onto ys ring.unused) 0 v;
    index = omega (arith, index, ring.index);
    size = omega (arith, ring.size, ap length split, length-append ys (y ∷ []));
    whole = omega (
      arith,
      ap length array,
      length-set s.intervals_traffic_bytes (suc s.last_interval_index) v,
      ring.whole,
    );
    latest =
        ap (λ t. v ∷ t)
          (subst (λ k. take n (totals ++ k) ≡ ring.lap ++ ys) refl
            (oldest_out (totals ++ replicate (suc n) 0) (ring.lap ++ ys) y n
              (omega (
                arith,
                ring.size,
                ap length split,
                length-append ys (y ∷ []),
                length-append ring.lap ys,
              ))
              (ring.latest
                ∙ ap (λ b. ring.lap ++ b) split
                ∙ sym (append_assoc ring.lap ys (y ∷ [])))));
  }

  -- The lap is over: the next one starts at the front, on the oldest entry.
  step_round-IsRing :
      ring.before ≡ []
      → t.last_interval_index ≡ 0
      → t.intervals_traffic_bytes ≡ set s.intervals_traffic_bytes 0 v
      → IsRing (suc n) (v ∷ totals) t
  step_round-IsRing none_before index array = elim (last_cases ring.lap) [
    | inl e ↦ absurd (omega (arith, ap length e, ring.index))
    | inr (ys, y, split) ↦ record {
      lap = v ∷ [];
      before = ys;
      unused = ring.unused;
      array =
          array
          ∙ ap (λ a. set a 0 v)
              (ring.array
                ∙ ap (λ b. rev_onto ring.lap (rev_onto b ring.unused)) none_before
                ∙ ap (λ p. rev_onto p ring.unused) split
                ∙ rev_onto-append ys (y ∷ []) ring.unused);
      index = omega (arith, index);
      size =
          omega
            (arith, ring.size, ap length none_before, ap length split, length-append ys (y ∷ []));
      whole = omega (arith, ap length array, length-set s.intervals_traffic_bytes 0 v, ring.whole);
      latest =
          ap (λ t. v ∷ t)
            (oldest_out (totals ++ replicate (suc n) 0) ys y n
              (omega (
                arith,
                ring.size,
                ap length none_before,
                ap length split,
                length-append ys (y ∷ []),
              ))
              (ring.latest ∙ ap (λ b. ring.lap ++ b) none_before ∙ append-nil ring.lap ∙ split));
    }
  ]

-- Every total that the check puts into the array moves the window by one.
module _ (D : Double) (c : LimitSettings (D.F)) (v : ℕ) (totals : List ℕ) (s t : LimitState) where
  pub next-IsRing :
      (n : ℕ)
      → c.bitrate_limit_stats_per_interval ≡ suc n
      → IsRing (suc n) totals s
      → t.last_interval_index ≡ next_index D c s.last_interval_index
      → t.intervals_traffic_bytes
        ≡ set s.intervals_traffic_bytes (next_index D c s.last_interval_index) v
      → IsRing (suc n) (v ∷ totals) t
  next-IsRing n per ring index array = elim (last_cases ring.before) [
    | inl none_before ↦
        let over : next_index D c s.last_interval_index ≡ 0 =
          ground (arith, per, ring.size, ring.index, ap length none_before) in
        step_round-IsRing n v totals s t ring none_before (index ∙ over)
          (array ∙ ap (λ i. set s.intervals_traffic_bytes i v) over)
    | inr (ys, y, split) ↦
        let on : next_index D c s.last_interval_index ≡ suc s.last_interval_index =
          ground (arith, per, ring.size, ring.index, ap length split, length-append ys (y ∷ [])) in
        step_on-IsRing n v totals s t ring ys y split (index ∙ on)
          (array ∙ ap (λ i. set s.intervals_traffic_bytes i v) on)
  ]

zeros_lem : (n k : ℕ) → rev_onto (replicate n 0) (replicate k 0) ≡ replicate (n + k) 0
zeros_lem zero k = ap (λ m. replicate m 0) (omega arith)
zeros_lem (suc n) k = zeros_lem n (suc k) ∙ ap (λ m. replicate m 0) (omega arith)

take-replicate : (n : ℕ) → take n (replicate {A = ℕ} n 0) ≡ replicate n 0
take-replicate zero = refl
take-replicate (suc n) = ap {B = List ℕ} (λ t. 0 ∷ t) (take-replicate n)

pub reset-IsRing : (n : ℕ) → suc n ≤ max_interval → IsRing (suc n) [] reset_limit
unfolding reset_limit
reset-IsRing n h = record {
  lap = 0 ∷ [];
  before = replicate n 0;
  unused = replicate (max_interval - suc n) 0;
  array =
      ap (λ t. 0 ∷ t)
        (sym (zeros_lem n (max_interval - suc n) ∙ ap (λ m. replicate m 0) {y = 59} (omega arith)));
  index = refl;
  size = omega (arith, length-replicate {A = ℕ} n 0);
  whole = refl;
  latest = ap {B = List ℕ} (λ t. 0 ∷ t) (take-replicate n);
}
