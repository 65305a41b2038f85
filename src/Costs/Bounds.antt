-- ===== src/Costs/Bounds.antt =====
-- The totals, the averages and the bounds of a report.
use native.Mathlib.Nat.{mul-suc}
use solana.Prelude.{
  ℕ, suc, ◌+◌, ◌*◌, ◌≤◌, ◌<◌, ◌≡◌, refl, sym, ap, List, [], ◌∷◌, ◌++◌, map, arith, Bytes, length,
  length-append, bytes_eq, Bool-cases, inl, inr, All,
}
use solana.Costs.{
  CostData, Groups, OperationStats, add_cost, group_from, sum, minimum, maximum, lamports_of,
  compute_units_of, stats_of, generate_report,
}

-- A lower bound of all numbers, times their count, is at most their sum; likewise above.
sum-above : (b : ℕ) (ns : List ℕ) → All (λ n. b ≤ n) ns → b * length ns ≤ sum ns
sum-above b [] h = omega arith
sum-above b (n ∷ ns) (h, hs) = omega (arith, mul-suc b (length ns), sum-above b ns hs)

sum-below : (b : ℕ) (ns : List ℕ) → All (λ n. n ≤ b) ns → sum ns ≤ b * length ns
sum-below b [] h = omega arith
sum-below b (n ∷ ns) (h, hs) = omega (arith, mul-suc b (length ns), sum-below b ns hs)

All-weaken : {P Q : ℕ → Type 0} (ns : List ℕ) → ((n : ℕ) → P n → Q n) → All P ns → All Q ns
All-weaken [] f h = tt
All-weaken (n ∷ ns) f (h, hs) = (f n h, All-weaken ns f hs)

minimum-le : (ns : List ℕ) → All (λ n. minimum ns ≤ n) ns
minimum-le [] = tt
minimum-le (n ∷ []) = (omega arith, tt)
minimum-le (n ∷ m ∷ ns) = (
  omega arith,
  All-weaken (m ∷ ns) (λ k (h : minimum (m ∷ ns) ≤ k). omega arith) (minimum-le (m ∷ ns)),
)

maximum-ge : (ns : List ℕ) → All (λ n. n ≤ maximum ns) ns
maximum-ge [] = tt
maximum-ge (n ∷ ns) =
    (ground arith, All-weaken ns (λ k (h : k ≤ maximum ns). ground arith) (maximum-ge ns))

-- The bounds of one operation's statistics.
abbrev pub IsBounded : OperationStats → Type 0
IsBounded st =
    (0 < st.count)
    × (st.min_lamports * st.count ≤ st.avg_lamports.numerator)
    × (st.avg_lamports.numerator ≤ st.max_lamports * st.count)
    × (st.min_compute_units * st.count ≤ st.avg_compute_units.numerator)
    × (st.avg_compute_units.numerator ≤ st.max_compute_units * st.count)

length-map : (f : CostData → ℕ) (costs : List CostData) → length (map f costs) ≡ length costs
length-map f [] = refl
length-map f (c ∷ costs) = ap suc (length-map f costs)

stats_of-IsBounded : (g : Bytes × List CostData) → 0 < length g.1 → IsBounded (stats_of g)
unfolding stats_of
stats_of-IsBounded (op, costs) h =
    let n = length-map (λ (c : CostData). c.lamports) costs in
    let m = length-map (λ (c : CostData). c.compute_units) costs in
    (
      h,
      rw (sym n) (sum-above _ (lamports_of costs) (minimum-le (lamports_of costs))),
      rw (sym n) (sum-below _ (lamports_of costs) (maximum-ge (lamports_of costs))),
      rw (sym m) (sum-above _ (compute_units_of costs) (minimum-le (compute_units_of costs))),
      rw (sym m) (sum-below _ (compute_units_of costs) (maximum-ge (compute_units_of costs))),
    )

-- No group is empty.
abbrev AllFilled : Groups → Type 0
AllFilled groups = All (λ (g : Bytes × List CostData). 0 < length g.1) groups

add_cost-AllFilled :
    (c : CostData) (groups : Groups) → AllFilled groups → AllFilled (add_cost c groups)
unfolding add_cost
add_cost-AllFilled c [] h = (omega arith, tt)
add_cost-AllFilled c ((op, costs) ∷ groups) (h, hs) = elim (Bool-cases (bytes_eq op c.operation)) [
  | inl same ↦ rw same (omega (arith, length-append costs (c ∷ [])), hs)
  | inr other ↦ rw other (h, add_cost-AllFilled c groups hs)
]

group_from-AllFilled :
    (groups : Groups) (costs : List CostData)
    → AllFilled groups
    → AllFilled (group_from groups costs)
unfolding group_from
group_from-AllFilled groups [] h = h
group_from-AllFilled groups (c ∷ costs) h =
    group_from-AllFilled (add_cost c groups) costs (add_cost-AllFilled c groups h)

map-IsBounded : (groups : Groups) → AllFilled groups → All IsBounded (map stats_of groups)
map-IsBounded [] h = tt
map-IsBounded (g ∷ groups) (h, hs) = (stats_of-IsBounded g h, map-IsBounded groups hs)

-- A measure that adds up over the operations of a report.
abbrev pub total : (OperationStats → ℕ) → List OperationStats → ℕ
total f [] = 0
total f (st ∷ sts) = f st + total f sts

abbrev pub count_of : OperationStats → ℕ
count_of st = st.count

abbrev pub lamports_sum : OperationStats → ℕ
lamports_sum st = st.avg_lamports.numerator

sum-append :
    (c : CostData) (costs : List CostData)
    → sum (lamports_of (costs ++ (c ∷ []))) ≡ sum (lamports_of costs) + c.lamports
sum-append c [] = omega arith
sum-append c (d ∷ costs) = omega (arith, sum-append c costs)

add_cost-total :
    (c : CostData) (groups : Groups)
    → (total count_of (map stats_of (add_cost c groups)) ≡ total count_of (map stats_of groups) + 1)
      × (total lamports_sum (map stats_of (add_cost c groups))
          ≡ total lamports_sum (map stats_of groups) + c.lamports)
unfolding add_cost stats_of
add_cost-total c [] = (refl, omega arith)
add_cost-total c ((op, costs) ∷ groups) = elim (Bool-cases (bytes_eq op c.operation)) [
  | inl same ↦
      rw same (omega (arith, length-append costs (c ∷ [])), omega (arith, sum-append c costs))
  | inr other ↦
      let rest = add_cost-total c groups in rw other (omega (arith, rest.0), omega (arith, rest.1))
]

group_from-total :
    (groups : Groups) (costs : List CostData)
    → (total count_of (map stats_of (group_from groups costs))
        ≡ total count_of (map stats_of groups) + length costs)
      × (total lamports_sum (map stats_of (group_from groups costs))
          ≡ total lamports_sum (map stats_of groups) + sum (lamports_of costs))
unfolding group_from
group_from-total groups [] = (omega arith, omega arith)
group_from-total groups (c ∷ costs) =
    let step = add_cost-total c groups in
    let rest = group_from-total (add_cost c groups) costs in
    (omega (arith, step.0, rest.0), omega (arith, step.1, rest.1))

-- In a report the counts of the operations add up to the number of measured operations, and their
-- lamports to the total; each operation has a cost, and its average lamports and compute units lie
-- between the minimum and the maximum.
pub generate_report-totals :
    (cluster timestamp : Bytes) (costs : List CostData)
    → (let report = generate_report cluster timestamp costs in
        (total count_of report.operations ≡ report.total_operations)
        × (total lamports_sum report.operations ≡ report.total_lamports)
        × All IsBounded report.operations)
unfolding generate_report
generate_report-totals cluster timestamp costs =
    let sums = group_from-total [] costs in
    (
      omega (arith, sums.0),
      omega (arith, sums.1),
      map-IsBounded (group_from [] costs) (group_from-AllFilled [] costs tt),
    )
