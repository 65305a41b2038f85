-- ===== src/Deploy.antt =====
-- scripts/deploy.ts: the deployment as a sequence of steps on a network. A step that throws gives the
-- network as it is then, and the exit code is what the process ends with.
pub mod Args
pub mod Steps
use solana.Prelude.{
  ℕ, ◌≡◌, Bool, true, false, ◌&&◌, ◌||◌, Option, none, some, List, [], ◌∷◌, Bytes, Pubkey,
  key_bytes, ascii,
}
use solana.Helpers.{Web3}

-- `AtomConfig` as far as it is read.
pub record AtomConfig : Type 0 where
  pub authority : Pubkey
  pub agent_registry_program : Pubkey

-- `RootConfig` as it is read; the field `baseRegistry` may be missing.
pub record RootConfig : Type 0 where
  pub authority : Pubkey
  pub base_registry : Option Pubkey

-- The accounts that `initializeConfig` is sent.
pub record InitializeConfig : Type 0 where
  pub registry_program : Pubkey
  pub config : Pubkey
  pub authority : Pubkey
  pub program_data : Pubkey

-- The accounts that `initialize` is sent.
pub record Initialize : Type 0 where
  pub root_config : Pubkey
  pub registry_config : Pubkey
  pub collection : Pubkey
  pub authority : Pubkey
  pub program_data : Pubkey

-- The accounts that `initializeValidationConfig` is sent.
pub record InitializeValidationConfig : Type 0 where
  pub config : Pubkey
  pub authority : Pubkey
  pub program_data : Pubkey

-- The network and the file system: `none` is what throws.
pub record Cluster : Type 1 where
  pub Net : Type 0
  pub exists_account : Net → Pubkey → Bool
  pub fetch_atom_config : Net → Pubkey → Option AtomConfig
  pub fetch_root_config : Net → Pubkey → Option RootConfig
  -- of the registry configuration, its collection
  pub fetch_registry_config : Net → Pubkey → Option Pubkey
  pub fetch_validation_config : Net → Pubkey → Option Pubkey
  pub send_initialize_config : InitializeConfig → Net → Option Net
  pub send_initialize : Initialize → Net → Option Net
  pub send_initialize_validation_config : InitializeValidationConfig → Net → Option Net
  pub save_collection : Pubkey → Net → Option Net

module _ (web3 : Web3) where
  unfoldable pub get_root_config_pda : Pubkey → Pubkey × ℕ
  get_root_config_pda program_id = web3.find_program_address (ascii "root_config" ∷ []) program_id

  unfoldable pub get_registry_config_pda : Pubkey → Pubkey → Pubkey × ℕ
  get_registry_config_pda collection program_id =
      web3.find_program_address (ascii "registry_config" ∷ key_bytes collection ∷ []) program_id

  unfoldable pub get_validation_config_pda : Pubkey → Pubkey × ℕ
  get_validation_config_pda program_id =
      web3.find_program_address (ascii "validation_config" ∷ []) program_id

  unfoldable pub get_atom_config_pda : Pubkey → Pubkey × ℕ
  get_atom_config_pda program_id = web3.find_program_address (ascii "atom_config" ∷ []) program_id

  -- `loader` is the upgradeable loader's program id.
  unfoldable pub get_program_data_pda : Pubkey → Pubkey → Pubkey × ℕ
  get_program_data_pda loader program_id =
      web3.find_program_address (key_bytes program_id ∷ []) loader
