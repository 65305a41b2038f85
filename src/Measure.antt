-- ===== src/Measure.antt =====
-- What the scripts that measure costs share: the programs, the key pairs and what is computed for them.
-- The programs are those of an earlier layout; the scripts are the only code about them.
pub mod Devnet
pub mod Exact
pub mod Real
use solana.Prelude.{ℕ, List, [], ◌∷◌, Option, none, some, Bytes, Pubkey, key_bytes, ascii}
use solana.Helpers.{Web3}
use solana.Script.{Network}
use solana.Costs.{Fraction, CostReport}

-- The program ids and sysvars that the scripts name.
pub record Programs : Type 0 where
  pub identity : Pubkey
  pub reputation : Pubkey
  pub validation : Pubkey
  pub system_program : Pubkey
  pub token_program : Pubkey
  pub associated_token_program : Pubkey
  pub token_metadata_program : Pubkey
  pub rent : Pubkey
  pub sysvar_instructions : Pubkey

-- What a script is run with. The keys are those that `Keypair.generate` makes, and the wallet's.
pub record Setup : Type 1 where
  pub web3 : Web3
  pub network : Network
  pub programs : Programs
  pub wallet : Pubkey
  pub authority : Pubkey
  pub agent_owner : Pubkey
  pub client : Pubkey
  pub validator : Pubkey
  pub collection_mint : Pubkey
  pub agent_mint : Pubkey
  -- the associated token account of a mint and an owner
  pub associated_address : Pubkey → Pubkey → Pubkey
  -- `BN.toArray("le", length)` of a number
  pub to_array : ℕ → ℕ → Bytes
  pub to_base58 : Pubkey → Bytes
  -- `nacl.sign.detached`: the signature of a message by the key pair of a public key
  pub sign_detached : Bytes → Pubkey → Bytes
  -- `Date.now()`, and `toISOString()` of it
  pub date_now : network.Net → ℕ
  pub iso_string : ℕ → Bytes
  -- a number as text
  pub to_string : Fraction → Bytes
  -- `process.env.ANCHOR_PROVIDER_URL`
  pub provider_url : Option Bytes
  -- the files that are written
  pub write_json : CostReport → network.Net → Option (Unit {0}) × network.Net
  pub write_csv : List Bytes → network.Net → Option (Unit {0}) × network.Net

module _ (s : Setup) where
  open s use {web3, programs}

  unfoldable pub get_metadata_pda : Pubkey → Pubkey
  get_metadata_pda mint =
      (web3.find_program_address
        (ascii "metadata" ∷ key_bytes programs.token_metadata_program ∷ key_bytes mint ∷ [])
        programs.token_metadata_program).0

  unfoldable pub get_master_edition_pda : Pubkey → Pubkey
  get_master_edition_pda mint =
      (web3.find_program_address
        (ascii "metadata"
          ∷ key_bytes programs.token_metadata_program
          ∷ key_bytes mint
          ∷ ascii "edition"
          ∷ [])
        programs.token_metadata_program).0

  -- `PublicKey.findProgramAddressSync(seeds, program)[0]`
  abbrev pub address : List Bytes → Pubkey → Pubkey
  address seeds program = (web3.find_program_address seeds program).0
