-- ===== src/Measure/Exact/Reports.antt =====
-- That a run of scripts/measure-exact-costs.ts comes to its end, what it measures, and the cost that it
-- gives for the last transaction.
use solana.Prelude.{
  ℕ, zero, suc, ◌≡◌, ◌<◌, ◌++◌, refl, ap, ◌∙◌, List, [], ◌∷◌, some, Bytes, Pubkey, ascii, arith,
}
use solana.Prelude.Int.{sub_ℕ}
use solana.Script.{done, State, Request, TransactionMeta, ◌>>=◌, call, send, push}
use solana.Script.Measures.{Answered, Measures}
use solana.Costs.Single.{CostMeasurement, measure_exact, first_or}
use solana.Measure.{Setup}
use solana.Measure.Exact.{measure, measured, respond}
use solana.Measure.Exact.Requests

-- What a transaction leaves, as the first of the balances afterwards says: a balance that is missing or
-- zero stands for the one from before.
abbrev pub Leaves : List ℕ → ℕ → ℕ → Type 0
Leaves [] pre post = post ≡ pre
Leaves (zero ∷ others) pre post = post ≡ pre
Leaves (suc n ∷ others) pre post = post ≡ suc n

module _ (s : Setup) where
  open s use {network}

  -- A measurement of an operation and an account: the network has told the balance of the account, the
  -- signature of a request and the metadata of that transaction, and the amounts are theirs.
  pub record IsMeasured (label : Bytes × Pubkey) (c : CostMeasurement) : Type 0 where
    pub operation : c.operation ≡ label.0
    pub balance : Answered (network.get_balance label.1) c.pre_balance
    pub request : Request
    pub signature : Bytes
    pub is_sent : Answered (network.rpc request) signature
    pub meta : TransactionMeta
    pub found : Answered (network.get_transaction signature) (some (some meta))
    pub left : Leaves meta.post_balances c.pre_balance c.post_balance
    pub cost : c.cost ≡ sub_ℕ c.pre_balance c.post_balance
    pub fee : c.fee ≡ meta.fee

  -- The operations of a whole run, each with the account whose balance is read before it.
  abbrev pub main_labels : List (Bytes × Pubkey)
  main_labels =
      (ascii "Initialize Registry", s.wallet)
      ∷ (ascii "Register Agent", s.wallet)
      ∷ (ascii "Set Metadata", s.wallet)
      ∷ (ascii "Set Agent URI", s.wallet)
      ∷ (ascii "Give Feedback (first)", s.wallet)
      ∷ (ascii "Give Feedback (second)", s.wallet)
      ∷ (ascii "Initialize Validation Registry", s.wallet)
      ∷ (ascii "Request Validation", s.wallet)
      ∷ (ascii "Respond to Validation", s.validator)
      ∷ []

first_or_positive :
    (pre left : ℕ) (others : List ℕ) → 0 < left → first_or (left ∷ others) pre ≡ left
first_or_positive pre left others positive = ground arith

module _ (s : Setup) (agent_id : ℕ) (state : State s.network.Net CostMeasurement)
    (net1 net2 net3 net4 : s.network.Net) (signature : Bytes) (meta : TransactionMeta)
    (validator_has payer_left : ℕ) (others : List ℕ) where
  open s use {network}

  abbrev response : CostMeasurement
  response = measure_exact (ascii "Respond to Validation") validator_has (some (some meta))

  -- The response to a validation, where the validator has some lamports before it and the transaction
  -- leaves its fee payer some: the measurement that is added has the cost of the first less the
  -- second, two accounts' balances, and the fee of the transaction.
  pub respond-cost :
      network.get_balance s.validator state.net ≡ (some validator_has, net1)
      → network.rpc (Requests.respond_to_validation s agent_id) net1 ≡ (some signature, net2)
      → network.confirm_transaction signature net2 ≡ (some tt, net3)
      → network.get_transaction signature net3 ≡ (some (some (some meta)), net4)
      → meta.post_balances ≡ payer_left ∷ others
      → 0 < payer_left
      → (c : CostMeasurement) × (after : State network.Net CostMeasurement) × (respond s agent_id
            state
          ≡ done tt after)
        × (after.costs ≡ state.costs ++ (c ∷ []))
        × (c.cost ≡ sub_ℕ validator_has payer_left)
        × (c.fee ≡ meta.fee)
  unfolding respond measured measure call send push ◌>>=◌ measure_exact
  respond-cost has_balance is_sent confirmed found balances positive = (
    response,
    record {
      net = net4;
      sent = state.sent ++ (Requests.respond_to_validation s agent_id ∷ []);
      costs = state.costs ++ (response ∷ []);
    },
    rw (has_balance, is_sent, confirmed, found) refl,
    refl,
    ap (λ (b : ℕ). sub_ℕ validator_has b)
        (ap (λ (bs : List ℕ). first_or bs validator_has) balances
          ∙ first_or_positive validator_has payer_left others positive),
    refl,
  )
