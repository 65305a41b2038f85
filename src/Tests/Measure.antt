-- ===== src/Tests/Measure.antt =====
-- The scripts that measure costs on a small network.
use solana.Prelude.{ℕ, ◌≡◌, ◌++◌, refl, Option, some, none, [], ◌∷◌, map, ascii, arith}
use solana.Script.{State, done}
use solana.Prelude.Int.{sub_ℕ}
use solana.Costs.Single.{CostMeasurement}
use solana.Script.Rules.{IsRun}
use solana.Script.Completion.{IsAnswering}
use solana.Costs.{CostData}
use solana.Measure.Devnet
use solana.Measure.Devnet.Sequence.{run_labels, run-sends}
use solana.Measure.Devnet.Reports.{name, run_operations, run-completes}
use solana.Measure.Exact
use solana.Measure.Exact.Reports.{respond-cost}
use solana.Costs.Single.{CostMeasurement}
use solana.Measure.Real
use solana.Measure.Real.Register.{register_data, read_text}
use solana.Measure.Real.Runs.{
  sent_name, register_name, operation, main-completes, read_text-register_data,
}
use solana.Tests.Network.{network, setup, start, transaction}

answering : IsAnswering network
answering = record {
  rpc = λ r net. tt;
  confirm_transaction = λ signature net. tt;
  get_transaction = λ signature net. tt;
  get_balance = λ key net. tt;
  request_airdrop = λ key lamports net. tt;
  get_account_info = λ key net. tt;
  fetch_registry_config = λ key net. tt;
  fetch_agent_id = λ key net. tt;
}

abbrev first : State ℕ CostData
first = start

run-sends_example : IsRun [] (run_labels setup) (Devnet.run setup first)
run-sends_example = run-sends setup first

run-completes_example :
    (let out = Devnet.run setup start in
      (out.0 ≡ 0) × (map name out.1.costs ≡ [] ++ run_operations))
run-completes_example = run-completes setup answering ((λ report net. tt), (λ lines net. tt)) start

abbrev write_exact : Exact.Report → ℕ → Option (Unit {0}) × ℕ
write_exact report net = (some tt, net)

respond-cost_example :
    (c : CostMeasurement) × (after : State ℕ CostMeasurement) × (Exact.respond setup 3 start
      ≡ done tt after)
    × (after.costs ≡ [] ++ (c ∷ []))
    × (c.cost ≡ sub_ℕ 13 50)
    × (c.fee ≡ 5000)
respond-cost_example =
    respond-cost setup 3 start 1 2 3 4 (1 ∷ []) transaction 13 50 [] refl refl refl refl refl
      (omega arith)

abbrev tokens : Real.Tokens ℕ
tokens = record {
  create_mint = λ key net. (some key, net);
  create_associated_token_account = λ mint owner net. (some 77, net);
  mint_to = λ mint account amount net. (some [], net);
  send_and_confirm_transaction = λ instruction net. (some [], net);
  write_report = λ report net. (some tt, net);
}

main-completes_example :
    (let out = Real.main setup tokens start in
      (out.0 ≡ 0) × (map operation out.1.costs ≡ [] ++ (ascii "Register Agent" ∷ [])))
main-completes_example =
    main-completes setup tokens
      (record {
        balance = λ key net. tt;
        mint = λ key net. tt;
        token_account = λ mint owner net. tt;
        minted = λ mint account net. tt;
        sent = λ instruction net. tt;
        confirmed = λ signature net. tt;
        found = λ signature net. tt;
        written = λ report net. tt;
      })
      start

read_text-register_data_example :
    (read_text sent_name (register_data (ascii "ipfs://a")) ≡ some (ascii "ipfs://a"))
    × (read_text register_name (register_data (ascii "ipfs://a")) ≡ none)
read_text-register_data_example =
    read_text-register_data (λ text. register_name) (ascii "ipfs://a") refl (omega arith)
