-- ===== src/Measure/Exact.antt =====
-- scripts/measure-exact-costs.ts: nine transactions, each measured, and the report.
pub mod Requests
pub mod Sequence
pub mod Reports
use solana.Prelude.{ℕ, ◌^◌, ◌+◌, Option, List, [], ◌∷◌, Bytes, Pubkey, ascii}
use solana.Prelude.Int.{ℤ, pos, ◌+ℤ◌, sub_ℕ}
use solana.Script.{Script, State, Request, ◌>>=◌, ◌>>◌, done, call, send, push, return, exit_code}
use solana.Costs.Single.{CostMeasurement, measure_exact}
use solana.Measure.{Setup}
use solana.Measure.Exact.Requests

-- The report, its amounts in lamports; the file has them over 10 ^ 9.
pub record Report : Type 0 where
  pub timestamp : ℕ
  pub wallet : Pubkey
  pub measurements : List CostMeasurement
  pub total_cost : ℤ
  pub total_fee : ℕ
  pub total_rent : ℤ

-- The loop over the costs.
abbrev pub total_cost_of : List CostMeasurement → ℤ
total_cost_of [] = pos 0
total_cost_of (c ∷ costs) = c.cost +ℤ total_cost_of costs

abbrev pub total_fee_of : List CostMeasurement → ℕ
total_fee_of [] = 0
total_fee_of (c ∷ costs) = c.fee + total_fee_of costs

unfoldable pub make_report : ℕ → Pubkey → List CostMeasurement → Report
make_report now wallet costs = record {
  timestamp = now;
  wallet = wallet;
  measurements = costs;
  total_cost = total_cost_of costs;
  total_fee = total_fee_of costs;
  total_rent = total_cost_of costs +ℤ sub_ℕ 0 (total_fee_of costs);
}

module _ (s : Setup) where
  open s use {network}

  abbrev pub Step : Type 0 → Type 0
  Step A = Script (State network.Net CostMeasurement) A

  -- `measureCost`
  unfoldable pub measure : Bytes → ℕ → Bytes → Step (Unit {0})
  measure operation pre_balance signature = do
    call (network.confirm_transaction signature)
    tx ← call (network.get_transaction signature)
    push (measure_exact operation pre_balance tx)

  -- The balance of an account before a request, the request, and its measurement.
  unfoldable pub measured : Bytes → Pubkey → Request → Step (Unit {0})
  measured operation account request = do
    pre_balance ← call (network.get_balance account)
    sig ← send network.rpc request
    measure operation pre_balance sig

  unfoldable pub register_agent : Step ℕ
  register_agent = do
    measured (ascii "Initialize Registry") s.wallet (Requests.initialize s)
    measured (ascii "Register Agent") s.wallet (Requests.register s)
    call (network.fetch_agent_id (Requests.agent_account s))

  unfoldable pub use_agent : ℕ → Step (Unit {0})
  use_agent agent_id = do
    measured (ascii "Set Metadata") s.wallet (Requests.set_metadata s agent_id)
    measured (ascii "Set Agent URI") s.wallet (Requests.set_agent_uri s)
    measured (ascii "Give Feedback (first)") s.wallet
        (Requests.give_feedback s agent_id 85 (ascii "ipfs://QmFeedback1") 0)
    measured (ascii "Give Feedback (second)") s.wallet
        (Requests.give_feedback s agent_id 92 (ascii "ipfs://QmFeedback2") 1)

  -- It is the validator's balance that is read before the response.
  unfoldable pub respond : ℕ → Step (Unit {0})
  respond agent_id =
      measured (ascii "Respond to Validation") s.validator
        (Requests.respond_to_validation s agent_id)

  -- The validator is given SOL.
  unfoldable pub validate : ℕ → Step (Unit {0})
  validate agent_id = do
    measured (ascii "Initialize Validation Registry") s.wallet (Requests.initialize_validation s)
    measured (ascii "Request Validation") s.wallet (Requests.request_validation s agent_id)
    airdrop_sig ← call (network.request_airdrop s.validator (10 ^ 9))
    call (network.confirm_transaction airdrop_sig)
    respond agent_id

  unfoldable pub report_now : Step Report
  report_now state = done (make_report (s.date_now state.net) s.wallet state.costs) state

  unfoldable pub steps : (Report → network.Net → Option (Unit {0}) × network.Net) → Step Report
  steps write = do
    agent_id ← register_agent
    use_agent agent_id
    validate agent_id
    report ← report_now
    call (write report)
    return report

  -- `main` and the exit code of the process.
  unfoldable pub main :
      (Report → network.Net → Option (Unit {0}) × network.Net)
      → State network.Net CostMeasurement
      → ℕ × State network.Net CostMeasurement
  main write state = exit_code (steps write state)
