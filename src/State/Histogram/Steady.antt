-- ===== src/State/Histogram/Steady.antt =====
-- state/percentile.go: observeRSS and histogramAdd keep the counts and their total in step.
use fpm_tune.Common.{
  ℕ, zero, suc, ◌+◌, ◌-◌, ◌*◌, ◌^◌, ◌≤◌, ◌<◌, ◌≡◌, refl, sym, ap, ap₂, subst, ◌∙◌, ◌⊎◌, inl, inr,
  true, false, List, [], ◌∷◌, map, Option, none, some, length, modify, length-modify, length-map,
  Bool-cases, ltb, ltb→lt, ltb→ge, arith,
}
use fpm_tune.Common.Word.{sub64, slt, slt_small, add64_exact}
use fpm_tune.Common.Float.{Float, IsIeee}
use fpm_tune.State.Histogram.{
  Histogram, histogram_add, total_from, increment, halve, decay_after, zeros, rss_buckets,
  bucket_of, observe_rss, counts_of,
}

abbrev pub sum : List ℕ → ℕ
sum [] = 0
sum (c ∷ cs) = c + sum cs

pub total_from-sum : (n : ℕ) (cs : List ℕ) → n + sum cs < 2 ^ 63 → total_from n cs ≡ n + sum cs
unfolding total_from
total_from-sum n [] h = omega arith
total_from-sum n (c ∷ cs) h =
    rw (add64_exact n c (omega arith)) (total_from-sum (n + c) cs (omega arith) ∙ (omega arith))

sum-modify : (cs : List ℕ) (i : ℕ) → i < length cs → sum (modify cs i suc) ≡ suc (sum cs)
sum-modify [] i h = omega arith
sum-modify (c ∷ cs) zero h = omega arith
sum-modify (c ∷ cs) (suc i) h =
    let ih : sum (modify cs i suc) ≡ suc (sum cs) = sum-modify cs i (omega arith) in omega arith

sum-halve : (cs : List ℕ) → 2 * sum (map halve cs) ≤ sum cs
sum-halve [] = omega arith
sum-halve (c ∷ cs) = let ih : 2 * sum (map halve cs) ≤ sum cs = sum-halve cs in omega arith

-- No count is near the range of a uint32.
modify-increment :
    (cs : List ℕ) (i : ℕ) → sum cs < 2 ^ 32 - 1 → modify cs i increment ≡ modify cs i suc
modify-increment [] i h = refl
modify-increment (c ∷ cs) zero h =
    let e : increment c ≡ suc c = omega arith in ap₂ (λ x xs. x ∷ xs) e refl
modify-increment (c ∷ cs) (suc i) h =
    ap₂ (λ x xs. x ∷ xs) refl (modify-increment cs i (omega arith))

-- The number of readings is the total of the counts, and at most decay_after.
abbrev pub IsSteady : Histogram → Type 0
IsSteady h = (h.samples ≡ sum h.counts) × (h.samples ≤ decay_after)

-- One more reading in its bucket; past decay_after, every count halved.
abbrev pub Added : Histogram → ℕ → Histogram → Type 0
Added h bucket r =
    IsSteady r
    × (length r.counts ≡ length h.counts)
    × (h.samples < decay_after
        → (r.counts ≡ modify h.counts bucket suc) × (r.samples ≡ suc h.samples))
    × (h.samples ≡ decay_after → r.counts ≡ map halve (modify h.counts bucket suc))

pub histogram_add-Added :
    (h : Histogram) (bucket : ℕ)
    → IsSteady h
    → bucket < length h.counts
    → Added h bucket (histogram_add h bucket)
unfolding histogram_add
histogram_add-Added h bucket (e, le) k =
    let more = modify h.counts bucket suc in
    let m : sum more ≡ suc (sum h.counts) = sum-modify h.counts bucket k in
    let half : 2 * sum (map halve more) ≤ sum more = sum-halve more in
    let same : length more ≡ length h.counts = length-modify _ _ _ in
    rw
      (
        modify-increment h.counts bucket (omega arith),
        add64_exact h.samples 1 (omega arith),
        slt_small decay_after (h.samples + 1) (omega arith) (omega arith),
      )
      elim (Bool-cases (ltb decay_after (h.samples + 1))) [
        | inl t ↦
            let full : decay_after < h.samples + 1 = ltb→lt _ _ t in
            let total : total_from 0 (map halve more) ≡ sum (map halve more) =
              total_from-sum 0 _ (omega arith) ∙ (omega arith) in
            rw t (
              (total, rw total (omega arith)),
              length-map _ _ ∙ same,
              (λ room. absurd (omega arith)),
              (λ e. refl),
            )
        | inr f ↦
            let room : h.samples + 1 ≤ decay_after = ltb→ge _ _ f in
            rw f (
              (omega arith, room),
              same,
              (λ r. (refl, omega arith)),
              (λ full. absurd (omega arith)),
            )
      ]

-- The counts and the number of readings of a pool: nothing recorded, or a steady histogram.
abbrev pub IsRecorded : Option (List ℕ) → ℕ → Type 0
IsRecorded none samples = samples ≡ 0
IsRecorded (some hist) samples =
    IsSteady (record { counts = hist; samples = samples }) × (length hist ≡ rss_buckets)

zeros-length : (n : ℕ) → length (zeros n) ≡ n
zeros-length zero = refl
zeros-length (suc n) = ap suc (zeros-length n)

zeros-sum : (n : ℕ) → sum (zeros n) ≡ 0
zeros-sum zero = refl
zeros-sum (suc n) = let ih : sum (zeros n) ≡ 0 = zeros-sum n in omega arith

counts_of-IsSteady :
    (hist : Option (List ℕ)) (samples : ℕ)
    → IsRecorded hist samples
    → IsSteady (record { counts = counts_of hist; samples = samples })
      × (length (counts_of hist) ≡ rss_buckets)
counts_of-IsSteady none samples e =
    ((e ∙ sym (zeros-sum rss_buckets), omega arith), zeros-length rss_buckets)
counts_of-IsSteady (some hist) samples r = r

module _ (fl : Float) (h : IsIeee fl) (log2 exp2 : fl.Num → fl.Num) where
  bucket_of-lt : (bytes : ℕ) → bucket_of fl log2 exp2 bytes < rss_buckets
  unfolding bucket_of slt sub64
  bucket_of-lt bytes =
      let w =
        h.trunc_word (fl.mul (fl.sub (log2 (fl.of_int bytes)) (fl.of_int 20)) (fl.of_int 4)) in
      ground arith

  -- observeRSS ignores a size that is not positive. Any other it counts in a bucket of the scale,
  -- whatever the logarithm returns, and the histogram stays steady: its total is the number of
  -- readings, one more than before, or, where there were decay_after of them, every count is halved.
  pub observe_rss-Recorded :
      (hist : Option (List ℕ)) (samples bytes : ℕ)
      → IsRecorded hist samples
      → ((slt 0 bytes ≡ false) × (observe_rss fl log2 exp2 hist samples bytes ≡ (hist, samples)))
        ⊎ ((slt 0 bytes ≡ true)
            × (r : Histogram) × (bucket : ℕ) × (observe_rss fl log2 exp2 hist samples bytes
                ≡ (some r.counts, r.samples))
            × (bucket < rss_buckets)
            × IsRecorded (some r.counts) r.samples
            × Added (record { counts = counts_of hist; samples = samples }) bucket r)
  unfolding observe_rss
  observe_rss-Recorded hist samples bytes v =
      let c = counts_of-IsSteady hist samples v in
      let b : bucket_of fl log2 exp2 bytes < rss_buckets = bucket_of-lt bytes in
      let before : Histogram = record { counts = counts_of hist; samples = samples } in
      let bucket = bucket_of fl log2 exp2 bytes in
      let a = histogram_add-Added before bucket c.0 (subst (λ n. bucket < n) (sym c.1) b) in
      elim (Bool-cases (slt 0 bytes)) [
        | inl t ↦ inr (t, histogram_add before bucket, bucket, rw t, b, (a.0, a.1 ∙ c.1), a)
        | inr f ↦ inl (f, rw f)
      ]
