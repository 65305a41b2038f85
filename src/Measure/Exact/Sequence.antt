-- ===== src/Measure/Exact/Sequence.antt =====
-- Which requests scripts/measure-exact-costs.ts sends, and in which order.
use solana.Prelude.{sym, List, [], ◌∷◌, Option, Bytes, Pubkey, ascii}
use solana.Script.{State, Request}
use solana.Script.Rules.{
  Label, label, labels, Emits, Emits->>=, Emits-call, Emits-send, Emits-push, Emits-return, IsRun,
  IsRun-exit_code, append_nil,
}
use solana.Costs.Single.{CostMeasurement}
use solana.Measure.{Setup}
use solana.Measure.Exact.{
  Report, measure, measured, register_agent, use_agent, respond, validate, report_now, steps, main,
}
use solana.Measure.Exact.Requests

module _ (s : Setup) where
  open s use {network, programs}

  -- The requests of a whole run.
  abbrev pub main_labels : List Label
  main_labels =
      (programs.identity, ascii "initialize")
      ∷ (programs.identity, ascii "register")
      ∷ (programs.identity, ascii "setMetadata")
      ∷ (programs.identity, ascii "setAgentUri")
      ∷ (programs.reputation, ascii "giveFeedback")
      ∷ (programs.reputation, ascii "giveFeedback")
      ∷ (programs.validation, ascii "initialize")
      ∷ (programs.validation, ascii "requestValidation")
      ∷ (programs.validation, ascii "respondToValidation")
      ∷ []

  Emits-measured :
      (operation : Bytes) (account : Pubkey) (request : Request)
      → Emits (label request ∷ []) (measured s operation account request)
  unfolding measured measure
  Emits-measured operation account request = Emits->>= (Emits-call _) (λ pre.
      Emits->>= (Emits-send _ request)
        (λ sig. Emits->>= (Emits-call _) (λ _. Emits->>= (Emits-call _) (λ tx. Emits-push _))))

  Emits-steps :
      (write : Report → network.Net → Option (Unit {0}) × network.Net)
      → Emits main_labels (steps s write)
  unfolding steps register_agent use_agent validate respond report_now Requests.initialize
      Requests.register Requests.set_metadata Requests.set_agent_uri Requests.give_feedback
      Requests.initialize_validation Requests.request_validation Requests.respond_to_validation
  Emits-steps write =
      Emits->>=
        (Emits->>= (Emits-measured _ _ _)
          (λ _. Emits->>= (Emits-measured _ _ _) (λ _. Emits-call _)))
        (λ id.
          Emits->>=
            (Emits->>= (Emits-measured _ _ _) (λ _.
              Emits->>= (Emits-measured _ _ _)
                (λ _. Emits->>= (Emits-measured _ _ _) (λ _. Emits-measured _ _ _))))
            (λ _.
              Emits->>=
                (Emits->>= (Emits-measured _ _ _) (λ _. Emits->>= (Emits-measured _ _ _) (λ _.
                  Emits->>= (Emits-call _)
                    (λ _. Emits->>= (Emits-call _) (λ _. Emits-measured _ _ _)))))
                (λ _.
                  Emits->>= {ls = []}
                    (record { after = λ state. sym (append_nil (labels state.sent)) })
                    (λ report. Emits->>= (Emits-call _) (λ _. Emits-return report)))))

  -- Whatever the network answers, the requests that the script sends are the nine that it measures, in
  -- this order and from the first on; with exit code 0 all nine are sent.
  main-sends :
      (write : Report → network.Net → Option (Unit {0}) × network.Net)
      (state : State network.Net CostMeasurement)
      → IsRun (labels state.sent) main_labels (main s write state)
  unfolding main
  main-sends write state =
      IsRun-exit_code (labels state.sent) main_labels (steps s write state)
        ((Emits-steps write).after state)
