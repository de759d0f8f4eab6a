-- ===== src/Metadata/Percentile.antt =====
-- The 95th percentile of the request summary.
use regstair.Base.{
  ℕ, zero, suc, ◌+◌, ◌*◌, ◌/◌, ◌-◌, ◌≤◌, ◌<◌, ◌≡◌, refl, ap, ◌⊎◌, inl, inr, false, some, List, [],
  ◌∷◌, arith, ltb, leb, length, filter, In, All-In,
}
use regstair.Sorting.{
  sort, insert, Sorted, IsStrictWeak, sort-Sorted, sort-In, length-sort, length-filter-sort,
}
use regstair.Metadata.Events.{get_elem?, p95_rank, sum, summarize_durations}

pub ltb-IsStrictWeak : IsStrictWeak ltb
ltb-IsStrictWeak = record { asym = λ x y h. ground arith; ties = λ x y z h. ground arith }

nth_in_range :
    {A : Type 0} (xs : List A) (k : ℕ) → k < length xs → (v : A) × (get_elem? xs k ≡ some v)
nth_in_range [] k h = absurd (omega (arith, h))
nth_in_range (x ∷ xs) zero h = (x, refl)
nth_in_range (x ∷ xs) (suc k) h = nth_in_range xs k (omega (arith, h))

nth-In : (xs : List ℕ) (k v : ℕ) → get_elem? xs k ≡ some v → In v xs
nth-In [] k v h = absurd (ground arith)
nth-In (x ∷ xs) zero v h = inl (ground (arith, h))
nth-In (x ∷ xs) (suc k) v h = inr (nth-In xs k v h)

-- In a sorted list, what stands before a number is not larger.
count_up_to_nth :
    (xs : List ℕ) (k v : ℕ)
    → Sorted ltb xs
    → get_elem? xs k ≡ some v
    → k + 1 ≤ length (filter (λ x. leb x v) xs)
unfolding filter
count_up_to_nth [] k v h e = absurd (ground arith)
count_up_to_nth (x ∷ xs) zero v h e = ground (arith, e)
count_up_to_nth (x ∷ xs) (suc k) v (behind, h) e =
    let not_less = All-In (λ y. ltb y x ≡ false) v xs behind (nth-In xs k v e) in
    ground (arith, not_less, count_up_to_nth xs k v h e)

summarize_durations_at :
    (d : ℕ) (ds : List ℕ) (v : ℕ)
    → get_elem? (sort ltb (d ∷ ds)) (p95_rank (length (d ∷ ds)) - 1) ≡ some v
    → summarize_durations (d ∷ ds) ≡ some (sum (sort ltb (d ∷ ds)) / length (d ∷ ds), v)
unfolding summarize_durations
summarize_durations_at d ds v e = rw (e, summarize_durations) refl

sum-insert : (x : ℕ) (xs : List ℕ) → sum (insert ltb x xs) ≡ x + sum xs
unfolding sum insert
sum-insert x [] = refl
sum-insert x (y ∷ ys) = ground (arith, sum-insert x ys)

sum-sort : (xs : List ℕ) → sum (sort ltb xs) ≡ sum xs
unfolding sum sort
sum-sort [] = refl
sum-sort (x ∷ xs) = omega (arith, sum-insert x (sort ltb xs), sum-sort xs)

-- SummarizeRequestEvents never indexes out of range. Without durations the average and the 95th
-- percentile are 0; else the average is the sum by the count, and the percentile is one of the
-- durations, which at least 95 of 100 do not exceed.
pub summarize_durations_p95 :
    (ds : List ℕ)
    → (average p95 : ℕ) × (summarize_durations ds ≡ some (average, p95))
      × (((ds ≡ []) × (average ≡ 0) × (p95 ≡ 0))
          ⊎ ((average ≡ sum ds / length ds)
              × In p95 ds
              × (95 * length ds ≤ 100 * length (filter (λ d. leb d p95) ds))))
unfolding summarize_durations
summarize_durations_p95 [] = (0, 0, refl, inl (refl, refl, refl))
summarize_durations_p95 (d ∷ ds) =
    let sorted = sort ltb (d ∷ ds) in
    let k = p95_rank (length (d ∷ ds)) - 1 in
    let (v, e) = nth_in_range sorted k (omega (arith, length-sort ltb (d ∷ ds))) in
    let enough = count_up_to_nth sorted k v (sort-Sorted ltb ltb-IsStrictWeak (d ∷ ds)) e in
    let counted = length-filter-sort ltb (λ x. leb x v) (d ∷ ds) in
    (
      sum sorted / length (d ∷ ds),
      v,
      summarize_durations_at d ds v e,
      inr (
        ap (λ n. n / length (d ∷ ds)) (sum-sort (d ∷ ds)),
        sort-In ltb v (d ∷ ds) (nth-In sorted k v e),
        omega (arith, enough, counted),
      ),
    )
