-- ===== src/Bench/Stats/Percentile.antt =====
-- What the percentiles of bench/run.mjs say of the samples.
use mathlib.Core.Path.{subst}
use zopa.Base.{ℕ, suc, zero, ◌+◌, ◌-◌, ◌≤◌, ◌<◌, ◌≡◌, refl, inl, inr, ◌≢◌, true}
use zopa.Base.{some, List, [], ◌∷◌, arith}
use zopa.Base.Lists.{length, get_elem?, get_elem?-lt, get_elem?-In, All, All-In, In}
use zopa.Base.Number.{Numbers, IsOrdered, hundredths}
use zopa.Bench.Stats.{sort, rank, percentile, Summary, summarise}
use zopa.Bench.Stats.Sort.{
  Finite, Sorted, count_by, count_by-sort, length-sort, sort-All, sort-Sorted,
}

module _ (N : Numbers) where
  -- A percentile of some samples: one of them, with the stated share of them not above it, and the
  -- rest of them not below it.
  pub record IsQuantile (samples : List N.Num) (p v : N.Num) : Type 0 where
    pub sample : In v samples
    pub below : rank N (length samples) p + 1 ≤ count_by (λ x. N.le x v) samples
    pub above : length samples - rank N (length samples) p ≤ count_by (λ x. N.le v x) samples

  -- The three percentiles of a summary.
  pub record Percentiles (samples : List N.Num) (s : Summary N) : Type 0 where
    pub v50 : N.Num
    pub v95 : N.Num
    pub v99 : N.Num
    pub p50 : s.p50 ≡ some v50
    pub p95 : s.p95 ≡ some v95
    pub p99 : s.p99 ≡ some v99
    pub quantile_50 : IsQuantile samples (hundredths N 50) v50
    pub quantile_95 : IsQuantile samples (hundredths N 95) v95
    pub quantile_99 : IsQuantile samples (hundredths N 99) v99
    pub ordered_50_95 : N.le v50 v95 ≡ true
    pub ordered_95_99 : N.le v95 v99 ≡ true

All-self : {A : Type 0} (ys xs : List A) → ((z : A) → In z xs → In z ys) → All (λ z. In z ys) xs
All-self ys [] h = tt
All-self ys (x ∷ xs) h = (h x (inl refl), All-self ys xs (λ z m. h z (inr m)))

module _ (N : Numbers) (ord : IsOrdered N) where
  Sorted-get_elem? :
      (xs : List N.Num) (i j : ℕ) (a b : N.Num)
      → Finite N xs
      → Sorted N xs
      → i ≤ j
      → get_elem? xs i ≡ some a
      → get_elem? xs j ≡ some b
      → N.le a b ≡ true
  Sorted-get_elem? [] i j a b _ _ l p q = absurd (cc)
  Sorted-get_elem? (x ∷ xs) zero zero a b (f, fs) s l p q =
      let r : x ≡ a = ground arith in
      let t : x ≡ b = ground arith in rw (← r, ← t) (ord.le_refl x f)
  Sorted-get_elem? (x ∷ xs) zero (suc j) a b (f, fs) (h, s) l p q =
      let r : x ≡ a = ground arith in
      rw (← r) (All-In (λ y. N.le x y ≡ true) b xs h (get_elem?-In xs j b q))
  Sorted-get_elem? (x ∷ xs) (suc i) zero a b fs s l p q = absurd (omega arith)
  Sorted-get_elem? (x ∷ xs) (suc i) (suc j) a b (f, fs) (h, s) l p q =
      Sorted-get_elem? xs i j a b fs s (omega arith) p q

  -- The entry at `i` has `i` entries before it that are not above it.
  Sorted-count_below :
      (xs : List N.Num) (i : ℕ) (a : N.Num)
      → Finite N xs
      → Sorted N xs
      → get_elem? xs i ≡ some a
      → i + 1 ≤ count_by (λ x. N.le x a) xs
  unfolding count_by
  Sorted-count_below [] i a _ _ p = absurd (cc)
  Sorted-count_below (x ∷ xs) zero a (f, fs) (h, s) p =
      let r : x ≡ a = ground arith in rw (← r, ord.le_refl x f) (omega arith)
  Sorted-count_below (x ∷ xs) (suc i) a (f, fs) (h, s) p =
      rw (All-In (λ y. N.le x y ≡ true) a xs h (get_elem?-In xs i a p))
        (omega (arith, Sorted-count_below xs i a fs s p))

  All-count :
      (xs : List N.Num) (a : N.Num)
      → All (λ y. N.le a y ≡ true) xs
      → count_by (λ x. N.le a x) xs ≡ length xs
  unfolding count_by
  All-count [] a _ = refl
  All-count (x ∷ xs) a (h, hs) = rw h (omega (arith, All-count xs a hs))

  -- The entries from `i` on are not below the one at `i`.
  Sorted-count_above :
      (xs : List N.Num) (i : ℕ) (a : N.Num)
      → Finite N xs
      → Sorted N xs
      → get_elem? xs i ≡ some a
      → length xs - i ≤ count_by (λ x. N.le a x) xs
  unfolding count_by
  Sorted-count_above [] i a _ _ p = absurd (cc)
  Sorted-count_above (x ∷ xs) zero a (f, fs) (h, s) p =
      let r : x ≡ a = ground arith in
      let hs : All (λ y. N.le a y ≡ true) xs =
        subst (λ (z : N.Num). All (λ y. N.le z y ≡ true) xs) r h in
      let e : N.le a x ≡ true = subst (λ (z : N.Num). N.le z x ≡ true) r (ord.le_refl x f) in
      rw e (omega (arith, All-count xs a hs))
  Sorted-count_above (x ∷ xs) (suc i) a (f, fs) (h, s) p =
      omega (arith, Sorted-count_above xs i a fs s p)

  module _ (samples : List N.Num) (some_sample : samples ≢ []) (finite : Finite N samples) where
    sorted-Finite : Finite N (sort N samples)
    sorted-Finite = sort-All N (λ x. N.is_finite x ≡ true) samples finite

    In-sort : (v : N.Num) → In v (sort N samples) → In v samples
    In-sort v =
        All-In (λ z. In z samples) v (sort N samples)
          (sort-All N (λ z. In z samples) samples (All-self samples samples (λ z m. m)))

    rank_lt : (p : N.Num) → rank N (length (sort N samples)) p < length (sort N samples)
    rank_lt p = rw length-sort (from_length samples some_sample)
      where
        from_length : (xs : List N.Num) → xs ≢ [] → rank N (length xs) p < length xs
        from_length [] n = absurd (n refl)
        from_length (x ∷ xs) n = omega arith

    percentile-IsQuantile :
        (p v : N.Num) → percentile N (sort N samples) p ≡ some v → IsQuantile N samples p v
    unfolding percentile
    percentile-IsQuantile p v e =
        let xs = sort N samples in
        let i = rank N (length xs) p in
        record {
          sample = In-sort v (get_elem?-In xs i v e);
          below =
              rw (← length-sort N samples, ← count_by-sort N (λ x. N.le x v) samples)
                (Sorted-count_below xs i v sorted-Finite (sort-Sorted N ord samples finite) e);
          above =
              rw (← length-sort N samples, ← count_by-sort N (λ x. N.le v x) samples)
                (Sorted-count_above xs i v sorted-Finite (sort-Sorted N ord samples finite) e);
        }

    percentile_mono :
        (p q v w : N.Num)
        → N.le p q ≡ true
        → percentile N (sort N samples) p ≡ some v
        → percentile N (sort N samples) q ≡ some w
        → N.le v w ≡ true
    unfolding percentile
    percentile_mono p q v w h e f =
        let n = length (sort N samples) in
        Sorted-get_elem? (sort N samples) (rank N n p) (rank N n q) v w sorted-Finite
          (sort-Sorted N ord samples finite) (omega (arith, ord.floor_mul_mono n p q h)) e f

    percentile_total : (p : N.Num) → (v : N.Num) × (percentile N (sort N samples) p ≡ some v)
    unfolding percentile
    percentile_total p = get_elem?-lt (sort N samples) _ (rank_lt p)

    -- Of finite samples, not none of them, `summarise` gives three percentiles. Each is a sample v
    -- with at least floor(n * p) + 1 samples not above it, or all n, and at least the other samples
    -- and v not below it. They stand in their order.
    pub summarise-Percentiles : Percentiles N samples (summarise N samples)
    summarise-Percentiles =
        let (a, e) = percentile_total (hundredths N 50) in
        let (b, f) = percentile_total (hundredths N 95) in
        let (c, g) = percentile_total (hundredths N 99) in
        record {
          v50 = a;
          v95 = b;
          v99 = c;
          p50 = unfold summarise in e;
          p95 = unfold summarise in f;
          p99 = unfold summarise in g;
          quantile_50 = percentile-IsQuantile (hundredths N 50) a e;
          quantile_95 = percentile-IsQuantile (hundredths N 95) b f;
          quantile_99 = percentile-IsQuantile (hundredths N 99) c g;
          ordered_50_95 =
              percentile_mono (hundredths N 50) (hundredths N 95) a b
                (ord.le-hundredths 50 95 (omega arith) (omega arith)) e f;
          ordered_95_99 =
              percentile_mono (hundredths N 95) (hundredths N 99) b c
                (ord.le-hundredths 95 99 (omega arith) (omega arith)) f g;
        }
