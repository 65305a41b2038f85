-- ===== src/Measure/Devnet/Sequence.antt =====
-- Which requests `run` of scripts/measure-devnet-costs.ts sends, and in which order.
use solana.Prelude.{ℕ, sym, List, [], ◌∷◌, Option, Bytes, Pubkey, ascii}
use solana.Script.{State, TransactionMeta}
use solana.Script.Rules.{
  Label, labels, Emits, Emits->>=, Emits-call, Emits-send, Emits-return, Emits-attempt,
  Always-quiet, Always-send, append_nil, IsRun, IsRun-exit_code,
}
use solana.Costs.{CostData}
use solana.Measure.{Setup}
use solana.Measure.Devnet.{run, steps, report_now}
use solana.Measure.Devnet.Identity.{
  Agent, push_cost, measure, request_airdrop, setup, initialize_identity, initialize_validation,
  initialize_registries, register, register_agent, metadata_request, set_metadata,
}
use solana.Measure.Devnet.Feedback.{feedback_request, give_feedback}
use solana.Measure.Devnet.Validation.{
  validation_request, request_validation, validation_response, respond_to_validation,
}

module _ (s : Setup) where
  open s use {network, programs}

  Emits-push_cost :
      (operation : Bytes) (tx : Option (Option TransactionMeta)) (accounts : ℕ)
      (data_size : Option ℕ)
      → Emits [] (push_cost s operation tx accounts data_size)
  unfolding push_cost
  Emits-push_cost operation tx accounts data_size = record {
    after = λ state. sym (append_nil (labels state.sent));
  }

  Emits-measure :
      (operation tx_sig : Bytes) (accounts : ℕ) (data_size : Option ℕ)
      → Emits [] (measure s operation tx_sig accounts data_size)
  unfolding measure
  Emits-measure operation tx_sig accounts data_size =
      Emits->>= (Emits-call _) (λ tx. Emits-push_cost operation tx accounts data_size)

  Emits-request_airdrop : (key : Pubkey) (amount : ℕ) → Emits [] (request_airdrop s key amount)
  unfolding request_airdrop
  Emits-request_airdrop key amount =
      Emits-attempt (Always-quiet (Emits->>= (Emits-call _) (λ sig. Emits-call _)))
        (Emits-return tt)

  Emits-setup : Emits [] (setup s)
  unfolding setup
  Emits-setup = Emits->>= (Emits-request_airdrop _ _) (λ _.
      Emits->>= (Emits-request_airdrop _ _)
        (λ _. Emits->>= (Emits-request_airdrop _ _) (λ _. Emits-request_airdrop _ _)))

  Emits-initialize_registries :
      Emits
        ((programs.identity, ascii "initialize") ∷ (programs.validation, ascii "initialize") ∷ [])
        (initialize_registries s)
  unfolding initialize_registries initialize_identity initialize_validation
  Emits-initialize_registries =
      Emits->>= (Emits-attempt (Always-send _ _ (λ sig. Emits-measure _ sig _ _)) (Emits-return tt))
        (λ _. Emits-attempt (Always-send _ _ (λ sig. Emits-measure _ sig _ _)) (Emits-return tt))

  Emits-register_agent : Emits ((programs.identity, ascii "register") ∷ []) (register_agent s)
  unfolding register_agent register
  Emits-register_agent = Emits->>= (Emits-call _) (λ config. Emits->>= (Emits-send _ _) (λ sig.
      Emits->>= (Emits-measure _ sig _ _) (λ _. Emits->>= (Emits-call _) (λ id. Emits-return _))))

  Emits-set_metadata :
      (agent : Agent) → Emits ((programs.identity, ascii "setMetadata") ∷ []) (set_metadata s agent)
  unfolding set_metadata metadata_request
  Emits-set_metadata agent = Emits->>= (Emits-send _ _) (λ sig. Emits-measure _ sig _ _)

  Emits-give_feedback :
      (agent : Agent)
      → Emits ((programs.reputation, ascii "giveFeedback") ∷ []) (give_feedback s agent)
  unfolding give_feedback feedback_request
  Emits-give_feedback agent =
      Emits->>= (Emits-call _) (λ now. Emits->>= (Emits-send _ _) (λ sig. Emits-measure _ sig _ _))

  Emits-request_validation :
      (agent : Agent)
      → Emits ((programs.validation, ascii "requestValidation") ∷ []) (request_validation s agent)
  unfolding request_validation validation_request
  Emits-request_validation agent = Emits->>= (Emits-send _ _) (λ sig. Emits-measure _ sig _ _)

  Emits-respond_to_validation :
      (agent : Agent)
      → Emits
          ((programs.validation, ascii "respondToValidation") ∷ [])
          (respond_to_validation s agent)
  unfolding respond_to_validation validation_response
  Emits-respond_to_validation agent = Emits->>= (Emits-send _ _) (λ sig. Emits-measure _ sig _ _)

  Emits-report_now : Emits [] (report_now s)
  unfolding report_now
  Emits-report_now = record { after = λ state. sym (append_nil (labels state.sent)) }

  -- The requests of a whole run.
  abbrev pub run_labels : List Label
  run_labels =
      (programs.identity, ascii "initialize")
      ∷ (programs.validation, ascii "initialize")
      ∷ (programs.identity, ascii "register")
      ∷ (programs.identity, ascii "setMetadata")
      ∷ (programs.reputation, ascii "giveFeedback")
      ∷ (programs.validation, ascii "requestValidation")
      ∷ (programs.validation, ascii "respondToValidation")
      ∷ []

  Emits-steps : Emits run_labels (steps s)
  unfolding steps
  Emits-steps = Emits->>= Emits-setup (λ _. Emits->>= Emits-initialize_registries (λ _.
      Emits->>= Emits-register_agent (λ agent. Emits->>= (Emits-set_metadata agent) (λ _.
        Emits->>= (Emits-give_feedback agent) (λ _. Emits->>= (Emits-request_validation agent) (λ _.
          Emits->>= (Emits-respond_to_validation agent) (λ _. Emits->>= Emits-report_now (λ report.
            Emits->>= (Emits-call _) (λ _. Emits->>= (Emits-call _) (λ _. Emits-return _))))))))))

  -- Whatever the network answers, the requests that a run sends are the two initialisations, the
  -- registration, the metadata, the feedback, the validation request and its response, in this order
  -- and from the first on; with exit code 0 all seven are sent.
  pub run-sends :
      (state : State network.Net CostData) → IsRun (labels state.sent) run_labels (run s state)
  unfolding run
  run-sends state =
      IsRun-exit_code (labels state.sent) run_labels (steps s state) (Emits-steps.after state)
