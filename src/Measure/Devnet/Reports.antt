-- ===== src/Measure/Devnet/Reports.antt =====
-- That `run` of scripts/measure-devnet-costs.ts comes to its end, and with which costs.
use solana.Prelude.{ℕ, ◌≡◌, sym, List, [], ◌∷◌, ◌++◌, map, Option, none, some, Bytes, Pubkey, ascii}
use solana.Script.{State, TransactionMeta, ◌>>=◌, send}
use solana.Script.Completion.{
  Any, Given, HasMeta, IsAnswering, Ended-exit_code, Completes, Completes->>=, Completes-call,
  Completes-send, Completes-return, Completes-attempt, map-append, append_nil,
}
use solana.Costs.{CostData, CostReport, measure_cost}
use solana.Measure.{Setup}
use solana.Measure.Devnet.{run, steps, report_now, csv_lines}
use solana.Measure.Devnet.Identity.{
  Agent, push_cost, measure, request_airdrop, setup, initialize_registries, register_agent,
  set_metadata,
}
use solana.Measure.Devnet.Feedback.{give_feedback}
use solana.Measure.Devnet.Validation.{request_validation, respond_to_validation}

abbrev pub name : CostData → Bytes
name cost = cost.operation

-- The files can be written.
abbrev pub IsWriting : Setup → Type 0
IsWriting s =
    ((report : CostReport) (net : s.network.Net) → Given Any (s.write_json report net))
    × ((lines : List Bytes) (net : s.network.Net) → Given Any (s.write_csv lines net))

-- The costs of a whole run.
abbrev pub run_operations : List Bytes
run_operations =
    ascii "Identity Registry Initialize"
    ∷ ascii "Validation Registry Initialize"
    ∷ ascii "Register Agent"
    ∷ ascii "Set Metadata"
    ∷ ascii "Give Feedback (with FeedbackAuth)"
    ∷ ascii "Request Validation"
    ∷ ascii "Respond to Validation"
    ∷ []

module _ (s : Setup) (answers : IsAnswering s.network) where
  open s use {network}

  pushed :
      (operation : Bytes) (tx : Option (Option TransactionMeta)) (accounts : ℕ)
      (data_size : Option ℕ) (now : ℕ) (costs : List CostData)
      → HasMeta tx
      → map name (measure_cost operation tx accounts data_size now costs)
        ≡ map name costs ++ (operation ∷ [])
  unfolding measure_cost
  pushed operation none accounts data_size now costs h = elim h [ ]
  pushed operation (some none) accounts data_size now costs h = elim h [ ]
  pushed operation (some (some meta)) accounts data_size now costs h = map-append name costs _

  Completes-measure :
      (operation tx_sig : Bytes) (accounts : ℕ) (data_size : Option ℕ)
      → Completes name (operation ∷ []) Any (measure s operation tx_sig accounts data_size)
  unfolding measure push_cost
  Completes-measure operation tx_sig accounts data_size =
      Completes->>= name (Completes-call name _ (answers.get_transaction tx_sig)) (λ tx h. record {
        after = λ state.
            (pushed operation tx accounts data_size (s.date_now state.net) state.costs h, tt);
      })

  Completes-request_airdrop :
      (key : Pubkey) (amount : ℕ) → Completes name [] Any (request_airdrop s key amount)
  unfolding request_airdrop
  Completes-request_airdrop key amount = Completes-attempt name _ (
      Completes->>= name (Completes-call name _ (answers.request_airdrop key _))
        (λ sig _. Completes-call name _ (answers.confirm_transaction sig)))

  Completes-setup : Completes name [] Any (setup s)
  unfolding setup
  Completes-setup = Completes->>= name (Completes-request_airdrop _ _) (λ _ _.
      Completes->>= name (Completes-request_airdrop _ _) (λ _ _.
        Completes->>= name (Completes-request_airdrop _ _) (λ _ _. Completes-request_airdrop _ _)))

  -- A request and its measurement.
  sent_measured :
      (operation : Bytes) (request : _) (accounts : ℕ) (data_size : Option ℕ)
      → Completes name
          (operation ∷ [])
          Any
          (send network.rpc request >>= λ sig. measure s operation sig accounts data_size)
  sent_measured operation request accounts data_size =
      Completes->>= name (Completes-send name _ _ answers.rpc)
        (λ sig _. Completes-measure operation sig accounts data_size)

  Completes-initialize_registries :
      Completes name
        (ascii "Identity Registry Initialize" ∷ ascii "Validation Registry Initialize" ∷ [])
        Any
        (initialize_registries s)
  unfolding initialize_registries
  Completes-initialize_registries =
      Completes->>= name (Completes-attempt name _ (sent_measured _ _ _ _))
        (λ _ _. Completes-attempt name _ (sent_measured _ _ _ _))

  Completes-register_agent : Completes name (ascii "Register Agent" ∷ []) Any (register_agent s)
  unfolding register_agent
  Completes-register_agent =
      Completes->>= name (Completes-call name _ (answers.fetch_registry_config _)) (λ config _.
        Completes->>= name (Completes-send name _ _ answers.rpc) (λ sig _.
          Completes->>= name (Completes-measure _ sig _ _) (λ _ _.
            Completes->>= name (Completes-call name _ (answers.fetch_agent_id _))
              (λ id _. Completes-return name _))))

  Completes-set_metadata :
      (agent : Agent) → Completes name (ascii "Set Metadata" ∷ []) Any (set_metadata s agent)
  unfolding set_metadata
  Completes-set_metadata agent = sent_measured _ _ _ _

  Completes-give_feedback :
      (agent : Agent)
      → Completes name (ascii "Give Feedback (with FeedbackAuth)" ∷ []) Any (give_feedback s agent)
  unfolding give_feedback
  Completes-give_feedback agent =
      Completes->>= name (Completes-call name {P = Any} _ (λ net. tt))
        (λ now _. sent_measured _ _ _ _)

  Completes-request_validation :
      (agent : Agent)
      → Completes name (ascii "Request Validation" ∷ []) Any (request_validation s agent)
  unfolding request_validation
  Completes-request_validation agent = sent_measured _ _ _ _

  Completes-respond_to_validation :
      (agent : Agent)
      → Completes name (ascii "Respond to Validation" ∷ []) Any (respond_to_validation s agent)
  unfolding respond_to_validation
  Completes-respond_to_validation agent = sent_measured _ _ _ _

  Completes-steps : IsWriting s → Completes name run_operations Any (steps s)
  unfolding steps report_now
  Completes-steps (json, csv) = Completes->>= name Completes-setup (λ _ _.
      Completes->>= name Completes-initialize_registries (λ _ _.
        Completes->>= name Completes-register_agent (λ agent _.
          Completes->>= name (Completes-set_metadata agent) (λ _ _.
            Completes->>= name (Completes-give_feedback agent) (λ _ _.
              Completes->>= name (Completes-request_validation agent) (λ _ _.
                Completes->>= name (Completes-respond_to_validation agent) (λ _ _.
                  Completes->>= name {ops = []} {P = Any}
                    (record { after = λ state. (sym (append_nil (map name state.costs)), tt) })
                    (λ report _. Completes->>= name (Completes-call name _ (json report)) (λ _ _.
                      Completes->>= name (Completes-call name _ (csv (csv_lines s report)))
                        (λ _ _. Completes-return name report))))))))))

  -- Where no call of the network throws, every transaction is found with its metadata, and the files
  -- can be written, a run ends with exit code 0, and has added the costs of the seven operations to
  -- those that were there, one each and in this order.
  pub run-completes :
      IsWriting s
      → (state : State network.Net CostData)
      → (let out = run s state in
          (out.0 ≡ 0) × (map name out.1.costs ≡ map name state.costs ++ run_operations))
  unfolding run
  run-completes writes state =
      Ended-exit_code name _ (map name state.costs) run_operations (steps s state)
        ((Completes-steps writes).after state)
