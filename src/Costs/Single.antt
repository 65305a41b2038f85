-- ===== src/Costs/Single.antt =====
-- The cost of one transaction: `measureCost` of scripts/measure-exact-costs.ts and
-- `getTransactionCost` of scripts/measure-real-costs.ts. A balance that is zero is no value to `||`.
use solana.Prelude.{
  ℕ, ◌≡◌, Option, none, some, List, [], ◌∷◌, Bytes, arith, ◌==◌, if◌then◌else◌, Bool-cases, inl,
  inr, ==_iff,
}
use solana.Prelude.Int.{ℤ, pos, sub_ℕ}
use solana.Script.{TransactionMeta}
use mathlib.Core.Option as Option

-- `CostMeasurement`, without the signature.
pub record CostMeasurement : Type 0 where
  pub operation : Bytes
  pub pre_balance : ℕ
  pub post_balance : ℕ
  pub cost : ℤ
  pub fee : ℕ
  pub compute_units : Option ℕ

-- `TransactionCost` in lamports, without the signature.
pub record TransactionCost : Type 0 where
  pub operation : Bytes
  pub fee_lamports : ℕ
  pub pre_balance : ℕ
  pub post_balance : ℕ
  pub actual_cost_lamports : ℤ
  pub compute_units : Option ℕ

-- `balances[0] || otherwise`
abbrev pub first_or : List ℕ → ℕ → ℕ
first_or [] otherwise = otherwise
first_or (b ∷ balances) otherwise = if b == 0 then otherwise else b

-- `units || null`
abbrev units_or_null : Option ℕ → Option ℕ
units_or_null none = none
units_or_null (some n) = if n == 0 then none else some n

-- The measurement of a transaction that may not be found, or have no metadata.
unfoldable pub measure_exact : Bytes → ℕ → Option (Option TransactionMeta) → CostMeasurement
measure_exact operation pre (some (some m)) = record {
  operation = operation;
  pre_balance = pre;
  post_balance = first_or m.post_balances pre;
  cost = sub_ℕ pre (first_or m.post_balances pre);
  fee = m.fee;
  compute_units = units_or_null m.compute_units_consumed;
}
measure_exact operation pre tx = record {
  operation = operation;
  pre_balance = pre;
  post_balance = pre;
  cost = sub_ℕ pre pre;
  fee = 0;
  compute_units = none;
}

-- `none` is the error for a transaction that is not found.
unfoldable pub transaction_cost :
    Bytes → ℕ → Option (Option TransactionMeta) → Option TransactionCost
transaction_cost operation pre none = none
transaction_cost operation pre (some none) = some (record {
  operation = operation;
  fee_lamports = 0;
  pre_balance = pre;
  post_balance = 0;
  actual_cost_lamports = sub_ℕ pre 0;
  compute_units = none;
})
transaction_cost operation pre (some (some m)) = some (record {
  operation = operation;
  fee_lamports = m.fee;
  pre_balance = pre;
  post_balance = first_or m.post_balances 0;
  actual_cost_lamports = sub_ℕ pre (first_or m.post_balances 0);
  compute_units = units_or_null m.compute_units_consumed;
})

-- For a transaction with metadata and a payer's balance afterwards, the second script gives the
-- difference of the balances; the first gives it too unless the balance afterwards is zero, when it
-- gives a cost of zero and the balance from before.
single_cost :
    (operation : Bytes) (pre post fee : ℕ) (others : List ℕ) (units : Option ℕ)
    → (let tx : Option (Option TransactionMeta) = some (
          some (record {
            fee = fee;
            post_balances = post ∷ others;
            compute_units_consumed = units;
          })) in
        (Option.map
            (λ (c : TransactionCost). c.actual_cost_lamports)
            (transaction_cost operation pre tx)
          ≡ some (sub_ℕ pre post))
        × ((measure_exact operation pre tx).cost ≡ (if post == 0 then pos 0 else sub_ℕ pre post))
        × ((measure_exact operation pre tx).post_balance ≡ (if post == 0 then pre else post)))
unfolding measure_exact transaction_cost
single_cost operation pre post fee others units = elim (Bool-cases (post == 0)) [
  | inl zero_left ↦
      let e = (==_iff post 0).0 zero_left in
      (ground (arith, zero_left, e), ground (arith, zero_left), ground (arith, zero_left))
  | inr some_left ↦
      (ground (arith, some_left), ground (arith, some_left), ground (arith, some_left))
]
