-- ===== src/Deploy/Steps.antt =====
-- scripts/deploy.ts: the steps of a deployment, its check, and `main`.
pub mod Laws
pub mod Check
use solana.Prelude.{
  ℕ, ◌≡◌, Bool, true, false, ◌&&◌, ◌||◌, Option, none, some, List, [], ◌∷◌, Bytes, Pubkey, ascii,
  bytes_eq, if◌then◌else◌,
}
use solana.Helpers.{Web3}
use solana.Deploy.{
  AtomConfig, RootConfig, Cluster, get_root_config_pda, get_registry_config_pda,
  get_validation_config_pda, get_atom_config_pda, get_program_data_pda,
}
use solana.Script.{Outcome, done, threw, and_then}
use solana.Deploy.Args.{DeployConfig, get_cluster_url}

-- What the script is run with: web3, the cluster, the two programs, the upgradeable loader, the
-- wallet's key and the key of the collection that `Keypair.generate` makes.
pub record Setup : Type 1 where
  pub web3 : Web3
  pub cluster : Cluster
  pub program_id : Pubkey
  pub atom_engine_id : Pubkey
  pub loader : Pubkey
  pub wallet : Pubkey
  pub collection : Pubkey

-- A transaction that fails throws, and the network is as it was.
abbrev pub sent : {Net A : Type 0} → Net → A → Option Net → Outcome Net A
sent net a none = threw net
sent net a (some net') = done a net'

-- A value that is read; nothing to read throws.
abbrev pub read : {Net V A : Type 0} → Net → Option V → (V → Outcome Net A) → Outcome Net A
read net none k = threw net
read net (some v) k = k v

-- A value that is read in a `try` block of `verifyDeployment`.
abbrev pub reads : {V : Type 0} → Option V → (V → Bool) → Bool
reads none k = false
reads (some v) k = k v

module _ (s : Setup) where
  unfoldable pub initialize_atom_engine : s.cluster.Net → Outcome s.cluster.Net (Unit {0})
  initialize_atom_engine net =
      let config = (get_atom_config_pda s.web3 s.atom_engine_id).0 in
      if s.cluster.exists_account net config
      then read net (s.cluster.fetch_atom_config net config) (λ _. done tt net)
      else sent net tt (
          s.cluster.send_initialize_config
            (record {
              registry_program = s.program_id;
              config = config;
              authority = s.wallet;
              program_data = (get_program_data_pda s.web3 s.loader s.atom_engine_id).0;
            })
            net)

  unfoldable pub initialize_registry : s.cluster.Net → Outcome s.cluster.Net Pubkey
  initialize_registry net =
      let root_config = (get_root_config_pda s.web3 s.program_id).0 in
      if s.cluster.exists_account net root_config
      then read net (s.cluster.fetch_root_config net root_config) (λ root.
        read net root.base_registry (λ base_registry.
          read net (s.cluster.fetch_registry_config net base_registry)
            (λ collection. done collection net)))
      else and_then
          (sent net tt (
            s.cluster.send_initialize
              (record {
                root_config = root_config;
                registry_config = (get_registry_config_pda s.web3 s.collection s.program_id).0;
                collection = s.collection;
                authority = s.wallet;
                program_data = (get_program_data_pda s.web3 s.loader s.program_id).0;
              })
              net))
          (λ _ net'. sent net' s.collection (s.cluster.save_collection s.collection net'))

  unfoldable pub initialize_validation_config : s.cluster.Net → Outcome s.cluster.Net (Unit {0})
  initialize_validation_config net =
      let config = (get_validation_config_pda s.web3 s.program_id).0 in
      if s.cluster.exists_account net config
      then read net (s.cluster.fetch_validation_config net config) (λ _. done tt net)
      else sent net tt (
          s.cluster.send_initialize_validation_config
            (record {
              config = config;
              authority = s.wallet;
              program_data = (get_program_data_pda s.web3 s.loader s.program_id).0;
            })
            net)

  -- Every check is made; what is missing makes the result false.
  unfoldable pub verify_deployment : s.cluster.Net → Bool
  verify_deployment net =
      reads (s.cluster.fetch_atom_config net (get_atom_config_pda s.web3 s.atom_engine_id).0)
        (λ _. true)
      && (reads (s.cluster.fetch_root_config net (get_root_config_pda s.web3 s.program_id).0)
            (λ root. reads root.base_registry (λ base_registry.
              reads (s.cluster.fetch_registry_config net base_registry) (λ _. true)))
          && reads
              (s.cluster.fetch_validation_config net
                (get_validation_config_pda s.web3 s.program_id).0)
              (λ _. true))

  -- A step runs where it is asked for, alone or with all.
  abbrev pub when :
      {A : Type 0}
      → Bool
      → s.cluster.Net
      → (s.cluster.Net → Outcome s.cluster.Net A)
      → Outcome s.cluster.Net (Unit {0})
  when true net step = and_then (step net) (λ _ net'. done tt net')
  when false net step = done tt net

  abbrev pub asks : Bytes → Bytes → Bool
  asks step name = bytes_eq step (ascii "full") || bytes_eq step name

  -- The three steps that write.
  unfoldable pub write_steps : Bytes → s.cluster.Net → Outcome s.cluster.Net (Unit {0})
  write_steps step net =
      and_then (when (asks step (ascii "init-atom")) net initialize_atom_engine) (λ _ net1.
        and_then (when (asks step (ascii "init-registry")) net1 initialize_registry)
          (λ _ net2. when (asks step (ascii "init-validation")) net2 initialize_validation_config))

  -- The exit code of the `try` block and its handler.
  abbrev pub exit_code : Bytes → Outcome s.cluster.Net (Unit {0}) → ℕ × s.cluster.Net
  exit_code step (threw net) = (1, net)
  exit_code step (done _ net) =
      (if asks step (ascii "verify") then (if verify_deployment net then 0 else 1) else 0, net)

  unfoldable pub run_steps : Bytes → s.cluster.Net → ℕ × s.cluster.Net
  run_steps step net = exit_code step (write_steps step net)

  -- `main` with its configuration, and whether the wallet's file is there and can be read; the
  -- request for the wallet's balance is taken to be answered. What it
  -- throws before the steps is only printed, and the process ends with 0.
  unfoldable pub main : (Bytes → Bytes) → DeployConfig → Bool → s.cluster.Net → ℕ × s.cluster.Net
  main api config wallet_loads net =
      if wallet_loads
      then elim (get_cluster_url api config.cluster) [
        | none ↦ (0, net)
        | some url ↦ run_steps config.step net
      ]
      else (0, net)
