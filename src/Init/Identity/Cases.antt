-- ===== src/Init/Identity/Cases.antt =====
-- What scripts/initialize-devnet.ts does where it finds an account of the expected length.
use solana.Prelude.{
  ℕ, ◌≤◌, ◌≡◌, refl, ap, ◌∙◌, true, false, Option, none, some, [], ◌∷◌, ◌++◌, Bytes, ascii, arith,
  length, ltb, ◌==◌,
}
use solana.Script.{
  Outcome, done, threw, State, RegistryConfig, ◌>>=◌, call, return, attempt, exit_code,
}
use solana.Script.Rules.{
  Label, labels, Emits->>=, Emits-call, Emits-return, Always, Always-send, state_of,
}
use solana.Measure.{Setup}
use solana.Init.Identity.{
  min_balance, config_pda, initialize_request, check_account, already_initialized, initialize,
  check_balance, steps, main,
}

module _ (s : Setup) where
  open s use {network, programs}

  abbrev pub initialize_label : Label
  initialize_label = (programs.identity, ascii "initialize")

  Always-initialize : Always (initialize_label ∷ []) (initialize s)
  unfolding initialize initialize_request
  Always-initialize =
      Always-send _ _
        (λ tx. Emits->>= (Emits-call _) (λ _. Emits->>= (Emits-call _) (λ _. Emits-return tt)))

  exit_code-state :
      {A : Type 0} (o : Outcome (State network.Net (Unit {0})) A) → (exit_code o).1 ≡ state_of o
  exit_code-state (done a state) = refl
  exit_code-state (threw state) = refl

  module _ (state : State network.Net (Unit {0})) (balance : ℕ) (account : Bytes)
      (net1 net2 net3 : network.Net) where
    -- What the script does with the answer to its request for the configuration: it ends with exit
    -- code 0, or it sends `initialize`.
    abbrev pub Existing : Option RegistryConfig → Type 0
    Existing (some config) = main s true state ≡ (0, record state { net = net3 })
    Existing none = labels (main s true state).1.sent ≡ labels state.sent ++ (initialize_label ∷ [])

    -- The wallet has enough, and the account of the configuration has 97 bytes. Where the configuration
    -- can be fetched, the script ends with exit code 0 and has sent nothing; where that call throws, it
    -- sends `initialize` for the registry that is there.
    pub main-Existing :
        (fetched : Option RegistryConfig)
        → min_balance ≤ balance
        → network.get_balance s.wallet state.net ≡ (some balance, net1)
        → network.get_account_info (config_pda s) net1 ≡ (some (some account), net2)
        → length account ≡ 97
        → network.fetch_registry_config (config_pda s) net2 ≡ (fetched, net3)
        → Existing fetched
    unfolding main steps check_balance already_initialized check_account ◌>>=◌ call return attempt
    main-Existing (some config) rich has_balance has_account size has_config =
        let enough : ltb balance min_balance ≡ false = ground arith in
        let same : (length account == 97) ≡ true = ground arith in
        rw (has_balance, enough, has_account, same, has_config) refl
    main-Existing none rich has_balance has_account size has_config =
        let enough : ltb balance min_balance ≡ false = ground arith in
        let same : (length account == 97) ≡ true = ground arith in
        let before : State network.Net (Unit {0}) = record state { net = net3 } in
        rw (has_balance, enough, has_account, same, has_config)
          (ap (λ (t : State network.Net (Unit {0})). labels t.sent)
              (exit_code-state (initialize s before))
            ∙ Always-initialize.after before)
