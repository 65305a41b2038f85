-- ===== src/Init/Identity.antt =====
-- scripts/initialize-devnet.ts: the identity registry of an earlier layout, unless it is there.
pub mod Cases
use solana.Prelude.{
  ℕ, Bool, true, false, Option, none, some, List, [], ◌∷◌, Bytes, Pubkey, ascii, key_bytes, length,
  ltb, ◌==◌, if◌then◌else◌,
}
use solana.Script.{
  Network, Request, RegistryConfig, Script, State, ◌>>=◌, ◌>>◌, call, send, return, throw, attempt,
  exit_code,
}
use solana.Measure.{Setup, get_metadata_pda, get_master_edition_pda, address}

-- `0.1 * LAMPORTS_PER_SOL`
abbrev pub min_balance : ℕ
min_balance = 100000000

module _ (s : Setup) where
  open s use {network, programs}

  -- No costs are kept.
  abbrev pub Step : Type 0 → Type 0
  Step A = Script (State network.Net (Unit {0})) A

  abbrev pub config_pda : Pubkey
  config_pda = address s (ascii "config" ∷ []) programs.identity

  abbrev pub collection_token_account : Pubkey
  collection_token_account =
      address s
        (key_bytes s.wallet ∷ key_bytes programs.token_program ∷ key_bytes s.collection_mint ∷ [])
        programs.associated_token_program

  unfoldable pub initialize_request : Request
  initialize_request = record {
    program = programs.identity;
    method = ascii "initialize";
    arguments = [];
    accounts =
        (ascii "authority", s.wallet)
        ∷ (ascii "config", config_pda)
        ∷ (ascii "collectionMint", s.collection_mint)
        ∷ (ascii "collectionMetadata", get_metadata_pda s s.collection_mint)
        ∷ (ascii "collectionMasterEdition", get_master_edition_pda s s.collection_mint)
        ∷ (ascii "collectionTokenAccount", collection_token_account)
        ∷ (ascii "tokenMetadataProgram", programs.token_metadata_program)
        ∷ (ascii "tokenProgram", programs.token_program)
        ∷ (ascii "associatedTokenProgram", programs.associated_token_program)
        ∷ (ascii "systemProgram", programs.system_program)
        ∷ (ascii "rent", programs.rent)
        ∷ [];
    pre_instructions = [];
    signers = s.collection_mint ∷ [];
  }

  -- An account of another length is only printed.
  unfoldable pub check_account : Option Bytes → Step Bool
  check_account none = return false
  check_account (some account) =
      if length account == 97
      then (do call (network.fetch_registry_config config_pda); return true)
      else return false

  -- Whether the registry is there; what throws is taken for no.
  unfoldable pub already_initialized : Step Bool
  already_initialized =
      attempt (do account ← call (network.get_account_info config_pda); check_account account)
        (return false)

  -- What throws is printed and thrown again.
  unfoldable pub initialize : Step (Unit {0})
  initialize = do
    tx ← send network.rpc initialize_request
    call (network.confirm_transaction tx)
    call (network.fetch_registry_config config_pda)
    return tt

  abbrev pub unless : Bool → Step (Unit {0}) → Step (Unit {0})
  unless true step = return tt
  unless false step = step

  unfoldable pub check_balance : ℕ → Step (Unit {0})
  check_balance balance = if ltb balance min_balance then throw else return tt

  -- `main`, once the files with the wallet and the interface are read.
  unfoldable pub steps : Step (Unit {0})
  steps = do
    balance ← call (network.get_balance s.wallet)
    check_balance balance
    initialized ← already_initialized
    unless initialized initialize

  -- The exit code of the process; a file that cannot be read ends it with 1.
  unfoldable pub main : Bool → State network.Net (Unit {0}) → ℕ × State network.Net (Unit {0})
  main files_load state = exit_code ((if files_load then steps else throw) state)
