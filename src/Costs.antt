-- ===== src/Costs.antt =====
-- scripts/measure-devnet-costs.ts: the costs that are measured and the report made of them. A number
-- of SOL is a fraction, lamports over LAMPORTS_PER_SOL, and an average is a sum over a count.
pub mod Groups
pub mod Bounds
pub mod Single
use solana.Prelude.{
  ℕ, ◌+◌, ◌*◌, ascii, ◌^◌, ◌≡◌, Bool, true, false, Option, none, some, List, [], ◌∷◌, ◌++◌, map,
  Bytes, length, bytes_eq, ltb, min, if◌then◌else◌,
}
use solana.Script.{TransactionMeta}

-- A quotient of two numbers as it is written.
pub record Fraction : Type 0 where
  pub numerator : ℕ
  pub denominator : ℕ

abbrev pub lamports_per_sol : ℕ
lamports_per_sol = 10 ^ 9

pub record CostData : Type 0 where
  pub operation : Bytes
  pub lamports : ℕ
  pub sol : Fraction
  pub compute_units : ℕ
  pub accounts : ℕ
  pub data_size : Option ℕ
  pub timestamp : ℕ

abbrev pub or_zero : Option ℕ → ℕ
or_zero none = 0
or_zero (some n) = n

-- `measureCost`, once the transaction is fetched: a cost is pushed where it has its metadata.
unfoldable pub measure_cost :
    Bytes → Option (Option TransactionMeta) → ℕ → Option ℕ → ℕ → List CostData → List CostData
measure_cost operation (some (some meta)) accounts data_size now costs =
    costs
    ++ (record {
      operation = operation;
      lamports = meta.fee;
      sol = record { numerator = meta.fee; denominator = lamports_per_sol };
      compute_units = or_zero meta.compute_units_consumed;
      accounts = accounts;
      data_size = data_size;
      timestamp = now;
    }
        ∷ [])
measure_cost operation tx accounts data_size now costs = costs

-- The costs of each operation, the operations in the order of their first cost.
abbrev pub Groups : Type 0
Groups = List (Bytes × List CostData)

-- One step of the `reduce`.
unfoldable pub add_cost : CostData → Groups → Groups
add_cost c [] = (c.operation, c ∷ []) ∷ []
add_cost c ((operation, costs) ∷ groups) =
    let rest = add_cost c groups in
    if bytes_eq operation c.operation
    then (operation, costs ++ (c ∷ [])) ∷ groups
    else (operation, costs) ∷ rest

unfoldable pub group_from : Groups → List CostData → Groups
group_from groups [] = groups
group_from groups (c ∷ costs) = group_from (add_cost c groups) costs

abbrev pub sum : List ℕ → ℕ
sum [] = 0
sum (n ∷ ns) = n + sum ns

-- `Math.min(...ns)` and `Math.max(...ns)`; the source calls them on at least one number.
abbrev pub minimum : List ℕ → ℕ
minimum [] = 0
minimum (n ∷ []) = n
minimum (n ∷ m ∷ ns) = min n (minimum (m ∷ ns))

abbrev pub maximum : List ℕ → ℕ
maximum [] = 0
maximum (n ∷ ns) = let m = maximum ns in if ltb n m then m else n

abbrev pub lamports_of : List CostData → List ℕ
lamports_of = map (λ (c : CostData). c.lamports)

abbrev pub compute_units_of : List CostData → List ℕ
compute_units_of = map (λ (c : CostData). c.compute_units)

pub record OperationStats : Type 0 where
  pub operation : Bytes
  pub count : ℕ
  pub avg_lamports : Fraction
  pub avg_sol : Fraction
  pub avg_compute_units : Fraction
  pub min_lamports : ℕ
  pub min_compute_units : ℕ
  pub max_lamports : ℕ
  pub max_compute_units : ℕ

-- The sum of SOL amounts has the denominator that they share.
unfoldable pub stats_of : Bytes × List CostData → OperationStats
stats_of (operation, costs) = record {
  operation = operation;
  count = length costs;
  avg_lamports = record { numerator = sum (lamports_of costs); denominator = length costs };
  avg_sol = record {
    numerator = sum (map (λ (c : CostData). c.sol.numerator) costs);
    denominator = lamports_per_sol * length costs;
  };
  avg_compute_units = record {
    numerator = sum (compute_units_of costs);
    denominator = length costs;
  };
  min_lamports = minimum (lamports_of costs);
  min_compute_units = minimum (compute_units_of costs);
  max_lamports = maximum (lamports_of costs);
  max_compute_units = maximum (compute_units_of costs);
}

pub record CostReport : Type 0 where
  pub environment : Bytes
  pub cluster : Bytes
  pub timestamp : Bytes
  pub total_operations : ℕ
  pub total_lamports : ℕ
  pub total_sol : Fraction
  pub operations : List OperationStats
  pub raw_data : List CostData

unfoldable pub generate_report : Bytes → Bytes → List CostData → CostReport
generate_report cluster timestamp costs = record {
  environment = ascii "devnet";
  cluster = cluster;
  timestamp = timestamp;
  total_operations = length costs;
  total_lamports = sum (lamports_of costs);
  total_sol = record { numerator = sum (lamports_of costs); denominator = lamports_per_sol };
  operations = map stats_of (group_from [] costs);
  raw_data = costs;
}
