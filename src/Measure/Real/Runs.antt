-- ===== src/Measure/Real/Runs.antt =====
-- What scripts/measure-real-costs.ts sends can be read back, and the script comes to its end.
use solana.Prelude.{
  ℕ, ◌<◌, ◌^◌, ◌%◌, ◌≡◌, refl, sym, ◌∙◌, ◌++◌, [], ◌∷◌, map, Option, none, some, Bytes, Pubkey,
  ascii, arith, length, take, le_bytes, from_le_bytes, from_le_bytes-le_bytes, length-le_bytes,
  ==_iff, ltb, Bool-cases, inl, inr,
}
use solana.Script.{State, TransactionMeta}
use solana.Script.Completion.{
  Any, Given, Completes, Completes->>=, Completes-call, Completes-push, Completes-return, Keeps->>=,
  Keeps-call, Keeps-return, Completes-recover, Ended-exit_code, append_nil,
}
use solana.Costs.Single.{TransactionCost, transaction_cost}
use solana.Measure.{Setup}
use solana.Measure.Real.{
  Tokens, Report, push_cost, get_transaction_cost, airdrop_if_low, read_agent_id, create_token,
  report_now, steps, main,
}
use solana.Measure.Real.Register.{Instruction, discriminator, register_data, read_text}

-- The eight bytes that the script puts first.
abbrev pub sent_name : Bytes
sent_name = 109 ∷ 39 ∷ 148 ∷ 105 ∷ 143 ∷ 139 ∷ 46 ∷ 212 ∷ []

-- The first eight bytes of SHA-256 of `global:register`.
abbrev pub register_name : Bytes
register_name = 211 ∷ 124 ∷ 67 ∷ 15 ∷ 211 ∷ 194 ∷ 178 ∷ 240 ∷ []

read_length :
    (prefix uri : Bytes)
    → length prefix ≡ 4
    → from_le_bytes prefix ≡ length uri
    → (read_text sent_name (discriminator ++ (prefix ++ uri)) ≡ some uri)
      × (read_text register_name (discriminator ++ (prefix ++ uri)) ≡ none)
read_length (a ∷ b ∷ c ∷ d ∷ []) uri four same =
    (rw ((==_iff (from_le_bytes (a ∷ b ∷ c ∷ d ∷ [])) (length uri)).1 same) refl, refl)
read_length [] uri four same = absurd (omega arith)
read_length (a ∷ []) uri four same = absurd (omega arith)
read_length (a ∷ b ∷ []) uri four same = absurd (omega arith)
read_length (a ∷ b ∷ c ∷ []) uri four same = absurd (omega arith)
read_length (a ∷ b ∷ c ∷ d ∷ e ∷ rest) uri four same = absurd (omega arith)

-- The data that the script makes of a text of less than 2 ^ 32 bytes is laid out as a program expects
-- it, and is read as that text under the eight bytes 6d 27 94 69 8f 8b 2e d4; but under the first eight
-- bytes of SHA-256 of `global:register`, d3 7c 43 0f d3 c2 b2 f0, by which Anchor knows the instruction
-- `register`, nothing is read.
pub read_text-register_data :
    (sha256 : Bytes → Bytes) (uri : Bytes)
    → take 8 (sha256 (ascii "global:register")) ≡ register_name
    → length uri < 2 ^ 32
    → (read_text sent_name (register_data uri) ≡ some uri)
      × (read_text (take 8 (sha256 (ascii "global:register"))) (register_data uri) ≡ none)
unfolding register_data
read_text-register_data sha256 uri named h =
    let fits : length uri % 2 ^ 32 ≡ length uri = omega arith in
    rw named (
      read_length (le_bytes 4 (length uri % 2 ^ 32)) uri (length-le_bytes 4 (length uri % 2 ^ 32))
        (from_le_bytes-le_bytes 4 (length uri % 2 ^ 32) (omega arith) ∙ fits))

abbrev pub operation : TransactionCost → Bytes
operation c = c.operation

abbrev pub Found : Option (Option TransactionMeta) → Type 0
Found none = ⊥
Found (some meta) = Unit {0}

module _ (s : Setup) (tokens : Tokens s.network.Net) where
  open s use {network}

  -- The calls that the script cannot do without: all but the airdrop and the account of the registry.
  pub record IsServing : Type 0 where
    pub balance : (key : Pubkey) (net : network.Net) → Given Any (network.get_balance key net)
    pub mint : (key : Pubkey) (net : network.Net) → Given Any (tokens.create_mint key net)
    pub token_account :
        (mint owner : Pubkey) (net : network.Net)
        → Given Any (tokens.create_associated_token_account mint owner net)
    pub minted :
        (mint token_account : Pubkey) (net : network.Net)
        → Given Any (tokens.mint_to mint token_account 1 net)
    pub sent :
        (instruction : Instruction) (net : network.Net)
        → Given Any (tokens.send_and_confirm_transaction instruction net)
    pub confirmed :
        (signature : Bytes) (net : network.Net)
        → Given Any (network.confirm_transaction signature net)
    pub found :
        (signature : Bytes) (net : network.Net)
        → Given Found (network.get_transaction signature net)
    pub written : (report : Report) (net : network.Net) → Given Any (tokens.write_report report net)

  module _ (serving : IsServing) where
    Completes-push_cost :
        (op : Bytes) (pre : ℕ) (tx : Option (Option TransactionMeta))
        → Found tx
        → Completes operation (op ∷ []) Any (push_cost s tokens (transaction_cost op pre tx))
    unfolding push_cost transaction_cost
    Completes-push_cost op pre none h = elim h [ ]
    Completes-push_cost op pre (some none) h = Completes-push operation _
    Completes-push_cost op pre (some (some meta)) h = Completes-push operation _

    Completes-get_transaction_cost :
        (signature op : Bytes) (pre : ℕ)
        → Completes operation (op ∷ []) Any (get_transaction_cost s tokens signature op pre)
    unfolding get_transaction_cost
    Completes-get_transaction_cost signature op pre =
        Completes->>= operation (Completes-call operation _ (serving.confirmed signature)) (λ _ _.
          Completes->>= operation (Completes-call operation _ (serving.found signature))
            (λ tx h. Completes-push_cost op pre tx h))

    Completes-airdrop_if_low :
        (balance : ℕ) → Completes operation [] Any (airdrop_if_low s tokens balance)
    unfolding airdrop_if_low
    Completes-airdrop_if_low balance = elim (Bool-cases (ltb balance 100000000)) [
      | inl low ↦ rw low (
          Completes-recover operation tt (
            Keeps->>= operation (Keeps-call operation _) (λ sig.
              Keeps->>= operation (Keeps-call operation _) (λ _.
                Keeps->>= operation (Keeps-call operation _) (λ _. Keeps-return operation tt)))))
      | inr enough ↦ rw enough (Completes-return operation tt)
    ]

    Completes-read_agent_id : Completes operation [] Any (read_agent_id s tokens)
    unfolding read_agent_id
    Completes-read_agent_id =
        Completes-recover operation 0
          (Keeps->>= operation (Keeps-call operation _) (λ account. Keeps-return operation _))

    Completes-create_token : Completes operation [] Any (create_token s tokens)
    unfolding create_token
    Completes-create_token =
        let balance = Completes-call operation _ (serving.balance s.wallet) in
        Completes->>= operation balance (λ _ _.
          Completes->>= operation (Completes-call operation _ (serving.mint _)) (λ _ _.
            Completes->>= operation balance (λ _ _. Completes->>= operation balance (λ _ _.
              Completes->>= operation (Completes-call operation _ (serving.token_account _ _))
                (λ account _. Completes->>= operation balance (λ _ _.
                  Completes->>= operation (Completes-call operation _ (serving.minted _ account))
                    (λ _ _. Completes-return operation account)))))))

    Completes-steps : Completes operation (ascii "Register Agent" ∷ []) Any (steps s tokens)
    unfolding steps report_now
    Completes-steps =
        Completes->>= operation (Completes-call operation _ (serving.balance _)) (λ balance _.
          Completes->>= operation (Completes-airdrop_if_low balance) (λ _ _.
            Completes->>= operation Completes-read_agent_id (λ id _.
              Completes->>= operation Completes-create_token (λ account _.
                Completes->>= operation (Completes-call operation _ (serving.balance _)) (λ pre _.
                  Completes->>= operation (Completes-call operation _ (serving.sent _)) (λ sig _.
                    Completes->>= operation (Completes-get_transaction_cost sig _ pre) (λ _ _.
                      Completes->>= operation {ops = []} {P = Any}
                        (record {
                          after = λ state. (sym (append_nil (map operation state.costs)), tt);
                        })
                        (λ report _.
                          Completes->>= operation
                            (Completes-call operation _ (serving.written report))
                            (λ _ _. Completes-return operation (id, report))))))))))

    -- The script ends with exit code 0 and one more cost, of the registration, where the balances, the
    -- token, the instruction, its confirmation, the transaction and the file are answered for; whether
    -- the airdrop fails, the account of the registry cannot be read, or the transaction has no
    -- metadata does not matter.
    pub main-completes :
        (state : State network.Net TransactionCost)
        → (let out = main s tokens state in
            (out.0 ≡ 0)
            × (map operation out.1.costs
                ≡ map operation state.costs ++ (ascii "Register Agent" ∷ [])))
    unfolding main
    main-completes state =
        Ended-exit_code operation _ (map operation state.costs) (ascii "Register Agent" ∷ [])
          (steps s tokens state) (Completes-steps.after state)
