-- ===== src/Measure/Real.antt =====
-- scripts/measure-real-costs.ts: one agent is registered by an instruction made by hand, and its cost
-- is reported.
pub mod Register
pub mod Runs
use solana.Prelude.{
  ℕ, ◌+◌, List, [], ◌∷◌, Option, none, some, Bytes, Pubkey, ascii, take, drop, from_le_bytes, ltb,
  if◌then◌else◌,
}
use solana.Prelude.Int.{ℤ, pos, ◌+ℤ◌, sub_ℕ}
use solana.Script.{
  Script, State, TransactionMeta, ◌>>=◌, ◌>>◌, done, call, push, return, throw, attempt, exit_code,
}
use solana.Costs.Single.{TransactionCost, transaction_cost}
use solana.Measure.{Setup, address}
use solana.Measure.Real.Register.{Instruction, register_instruction, token_uri}

-- The report, its amounts in lamports; the file has them over 10 ^ 9.
pub record Report : Type 0 where
  pub timestamp : ℕ
  pub wallet : Pubkey
  pub costs : List TransactionCost
  pub total_transaction_fees : ℕ
  pub total_actual_cost : ℤ
  pub total_rent : ℤ

abbrev pub total_cost_of : List TransactionCost → ℤ
total_cost_of [] = pos 0
total_cost_of (c ∷ costs) = c.actual_cost_lamports +ℤ total_cost_of costs

abbrev pub total_fee_of : List TransactionCost → ℕ
total_fee_of [] = 0
total_fee_of (c ∷ costs) = c.fee_lamports + total_fee_of costs

unfoldable pub make_report : ℕ → Pubkey → List TransactionCost → Report
make_report now wallet costs = record {
  timestamp = now;
  wallet = wallet;
  costs = costs;
  total_transaction_fees = total_fee_of costs;
  total_actual_cost = total_cost_of costs;
  total_rent = total_cost_of costs +ℤ sub_ℕ 0 (total_fee_of costs);
}

-- `createMint`, `createAssociatedTokenAccount` and `mintTo` of the token library,
-- `sendAndConfirmTransaction`, and the file that is written.
pub record Tokens (Net : Type 0) : Type 0 where
  pub create_mint : Pubkey → Net → Option Pubkey × Net
  pub create_associated_token_account : Pubkey → Pubkey → Net → Option Pubkey × Net
  pub mint_to : Pubkey → Pubkey → ℕ → Net → Option Bytes × Net
  pub send_and_confirm_transaction : Instruction → Net → Option Bytes × Net
  pub write_report : Report → Net → Option (Unit {0}) × Net

-- The next id that the registry's account holds, if there is one.
abbrev pub next_agent_id : Option Bytes → ℕ
next_agent_id none = 0
next_agent_id (some account) = from_le_bytes (take 8 (drop 40 account))

module _ (s : Setup) (tokens : Tokens s.network.Net) where
  open s use {network, programs}

  abbrev pub Step : Type 0 → Type 0
  Step A = Script (State network.Net TransactionCost) A

  -- `getTransactionCost`; a transaction that is not found throws.
  unfoldable pub push_cost : Option TransactionCost → Step (Unit {0})
  push_cost none = throw
  push_cost (some cost) = push cost

  unfoldable pub get_transaction_cost : Bytes → Bytes → ℕ → Step (Unit {0})
  get_transaction_cost signature operation pre_balance = do
    call (network.confirm_transaction signature)
    tx ← call (network.get_transaction signature)
    push_cost (transaction_cost operation pre_balance tx)

  -- With less than 0.1 SOL an airdrop is requested; one that fails is only printed.
  unfoldable pub airdrop_if_low : ℕ → Step (Unit {0})
  airdrop_if_low balance =
      if ltb balance 100000000
      then attempt
          (do
            sig ← call (network.request_airdrop s.wallet 1000000000)
            call (network.confirm_transaction sig)
            call (network.get_balance s.wallet)
            return tt)
          (return tt)
      else return tt

  -- The id that is printed; an account that cannot be read counts as none.
  unfoldable pub read_agent_id : Step ℕ
  read_agent_id =
      attempt
        (do
          account ←
              call (
                network.get_account_info
                  (address s (ascii "registry_state" ∷ []) programs.identity))
          return (next_agent_id account))
        (return 0)

  -- The token and its account, with the balances that are read around them.
  unfoldable pub create_token : Step Pubkey
  create_token = do
    call (network.get_balance s.wallet)
    call (tokens.create_mint s.agent_mint)
    call (network.get_balance s.wallet)
    call (network.get_balance s.wallet)
    token_account ← call (tokens.create_associated_token_account s.agent_mint s.wallet)
    call (network.get_balance s.wallet)
    call (tokens.mint_to s.agent_mint token_account 1)
    return token_account

  unfoldable pub report_now : Step Report
  report_now state = done (make_report (s.date_now state.net) s.wallet state.costs) state

  -- `main`; its result is the id that is printed and the report.
  unfoldable pub steps : Step (ℕ × Report)
  steps = do
    balance ← call (network.get_balance s.wallet)
    airdrop_if_low balance
    agent_id ← read_agent_id
    token_account ← create_token
    pre_balance ← call (network.get_balance s.wallet)
    register_sig ←
        call (tokens.send_and_confirm_transaction (register_instruction s token_account token_uri))
    get_transaction_cost register_sig (ascii "Register Agent") pre_balance
    report ← report_now
    call (tokens.write_report report)
    return (agent_id, report)

  unfoldable pub main : State network.Net TransactionCost → ℕ × State network.Net TransactionCost
  main state = exit_code (steps state)
