-- ===== src/Init/Registry.antt =====
-- scripts/init-devnet.ts: the registry is initialised with a new collection, and the two accounts are
-- read back.
use solana.Prelude.{ℕ, Option, none, some, Bytes, Pubkey}
use solana.Script.{Script, Outcome, done, threw, ◌>>=◌, ◌>>◌, return, exit_code}
use solana.Registry.State.{RootConfig, RegistryConfig}
use solana.Registry.Identity.{Initialize}
use solana.Helpers.{Web3}
use solana.Deploy.{get_root_config_pda, get_registry_config_pda, get_program_data_pda}

-- The network: `rpc` of `initialize` with the wallet and the collection as signers, and the accounts
-- that are fetched; `none` is a call that throws.
pub record Connection : Type 1 where
  pub Net : Type 0
  pub initialize : Initialize → Net → Option Bytes × Net
  pub fetch_root_config : Pubkey → Net → Option RootConfig × Net
  pub fetch_registry_config : Pubkey → Net → Option RegistryConfig × Net

pub record Setup : Type 1 where
  pub web3 : Web3
  pub connection : Connection
  pub program_id : Pubkey
  pub loader : Pubkey
  pub wallet : Pubkey
  -- the key that `Keypair.generate` makes
  pub collection : Pubkey

abbrev pub answer : {Net A : Type 0} → Option A × Net → Outcome Net A
answer (none, net) = threw net
answer (some a, net) = done a net

unfoldable pub ask : {Net A : Type 0} → (Net → Option A × Net) → Script Net A
ask c net = answer (c net)

module _ (s : Setup) where
  open s use {web3, connection}

  unfoldable pub accounts : Initialize
  accounts = record {
    root_config = (get_root_config_pda web3 s.program_id).0;
    registry_config = (get_registry_config_pda web3 s.collection s.program_id).0;
    collection = s.collection;
    authority = s.wallet;
    program_data = (get_program_data_pda web3 s.loader s.program_id).0;
  }

  -- The two accounts are printed.
  unfoldable pub steps : Script connection.Net (RootConfig × RegistryConfig)
  steps = do
    ask (connection.initialize accounts)
    root_config ← ask (connection.fetch_root_config (accounts.root_config))
    registry_config ← ask (connection.fetch_registry_config (accounts.registry_config))
    return (root_config, registry_config)

  -- `main` and the exit code of the process.
  unfoldable pub main : connection.Net → ℕ × connection.Net
  main net = exit_code (steps net)
