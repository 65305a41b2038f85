-- ===== src/Measure/Devnet.antt =====
-- scripts/measure-devnet-costs.ts: `run`, from the airdrops to the two files of the report.
pub mod Identity
pub mod Feedback
pub mod Validation
pub mod Sequence
pub mod Reports
use solana.Prelude.{
  ℕ, List, [], ◌∷◌, ◌++◌, map, Option, none, some, Bytes, ascii, ◌==◌, if◌then◌else◌,
}
use solana.Script.{State, ◌>>=◌, ◌>>◌, done, call, return, exit_code}
use solana.Costs.{CostData, CostReport, generate_report}
use solana.Measure.{Setup}
use solana.Measure.Devnet.Identity.{
  Step, setup, initialize_registries, register_agent, set_metadata,
}
use solana.Measure.Devnet.Feedback.{decimal, give_feedback}
use solana.Measure.Devnet.Validation.{request_validation, respond_to_validation}

-- `dataSize || ""`
abbrev size_or_empty : Option ℕ → Bytes
size_or_empty none = []
size_or_empty (some n) = if n == 0 then [] else decimal n

-- `url || "https://api.devnet.solana.com"`
abbrev pub cluster_of : Option Bytes → Bytes
cluster_of none = ascii "https://api.devnet.solana.com"
cluster_of (some []) = ascii "https://api.devnet.solana.com"
cluster_of (some (c ∷ url)) = c ∷ url

module _ (s : Setup) where
  open s use {network}

  unfoldable pub csv_line : CostData → Bytes
  csv_line d =
      ascii "\""
      ++ (d.operation
          ++ (ascii "\","
              ++ (decimal d.lamports
                  ++ (ascii ","
                      ++ (s.to_string d.sol
                          ++ (ascii ","
                              ++ (decimal d.compute_units
                                  ++ (ascii ","
                                      ++ (decimal d.accounts
                                          ++ (ascii ","
                                              ++ (size_or_empty d.data_size
                                                  ++ (ascii "," ++ decimal d.timestamp))))))))))))

  unfoldable pub csv_lines : CostReport → List Bytes
  csv_lines report =
      ascii "Operation,Lamports,SOL,Compute Units,Accounts,Data Size,Timestamp"
      ∷ map csv_line report.raw_data

  -- `this.generateReport()`, of the costs so far and the time.
  unfoldable pub report_now : Step s CostReport
  report_now state =
      done
        (generate_report (cluster_of s.provider_url) (s.iso_string (s.date_now state.net))
          state.costs)
        state

  -- The body of `run`; its result is the report that the files hold.
  unfoldable pub steps : Step s CostReport
  steps = do
    setup s
    initialize_registries s
    agent ← register_agent s
    set_metadata s agent
    give_feedback s agent
    request_validation s agent
    respond_to_validation s agent
    report ← report_now
    call (s.write_json report)
    call (s.write_csv (csv_lines report))
    return report

  -- The exit code of the process, and the state; what is thrown ends it with 1.
  unfoldable pub run : State network.Net CostData → ℕ × State network.Net CostData
  run state = exit_code (steps state)
