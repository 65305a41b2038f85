-- ===== src/Helpers.antt =====
-- tests/utils/helpers.ts: the client's side of the program, its addresses and its messages.
pub mod Generate
pub mod Expect
pub mod Funds
pub mod Funding
pub mod Wallets
pub mod Addresses
pub mod Message
use solana.Prelude.{
  ℕ, ◌^◌, ◌<◌, ◌≡◌, List, [], ◌∷◌, ◌++◌, Bytes, ascii, Pubkey, key_bytes, le_bytes, take,
}

-- `PublicKey.findProgramAddressSync`, `BN.toArrayLike(Buffer, "le", 8)` and SHA-256.
pub record Web3 : Type 0 where
  pub find_program_address : List Bytes → Pubkey → Pubkey × ℕ
  pub to_array_like : ℕ → Bytes
  pub sha256 : Bytes → Bytes

-- What bn.js documents: eight bytes, little-endian, of a number that fits.
abbrev pub IsBn : Web3 → Type 0
IsBn web3 = (n : ℕ) → n < 2 ^ 64 → web3.to_array_like n ≡ le_bytes 8 n

module _ (web3 : Web3) where
  unfoldable pub get_root_config_pda : Pubkey → Pubkey × ℕ
  get_root_config_pda program_id = web3.find_program_address (ascii "root_config" ∷ []) program_id

  unfoldable pub get_registry_config_pda : Pubkey → Pubkey → Pubkey × ℕ
  get_registry_config_pda collection program_id =
      web3.find_program_address (ascii "registry_config" ∷ key_bytes collection ∷ []) program_id

  -- Deprecated in the source.
  unfoldable pub get_config_pda : Pubkey → Pubkey × ℕ
  get_config_pda program_id = web3.find_program_address (ascii "config" ∷ []) program_id

  unfoldable pub get_agent_pda : Pubkey → Pubkey → Pubkey × ℕ
  get_agent_pda asset program_id =
      web3.find_program_address (ascii "agent" ∷ key_bytes asset ∷ []) program_id

  unfoldable pub get_agent_reputation_pda : Pubkey → Pubkey → Pubkey × ℕ
  get_agent_reputation_pda asset program_id =
      web3.find_program_address (ascii "agent_reputation" ∷ key_bytes asset ∷ []) program_id

  unfoldable pub get_feedback_pda : Pubkey → ℕ → Pubkey → Pubkey × ℕ
  get_feedback_pda asset feedback_index program_id =
      web3.find_program_address
        (ascii "feedback" ∷ key_bytes asset ∷ web3.to_array_like feedback_index ∷ []) program_id

  unfoldable pub get_feedback_tags_pda : Pubkey → ℕ → Pubkey → Pubkey × ℕ
  get_feedback_tags_pda asset feedback_index program_id =
      web3.find_program_address
        (ascii "feedback_tags" ∷ key_bytes asset ∷ web3.to_array_like feedback_index ∷ [])
        program_id

  unfoldable pub get_response_index_pda : Pubkey → ℕ → Pubkey → Pubkey × ℕ
  get_response_index_pda asset feedback_index program_id =
      web3.find_program_address
        (ascii "response_index" ∷ key_bytes asset ∷ web3.to_array_like feedback_index ∷ [])
        program_id

  unfoldable pub get_response_pda : Pubkey → ℕ → ℕ → Pubkey → Pubkey × ℕ
  get_response_pda asset feedback_index response_index program_id =
      web3.find_program_address
        (ascii "response"
          ∷ key_bytes asset
          ∷ web3.to_array_like feedback_index
          ∷ web3.to_array_like response_index
          ∷ [])
        program_id

  unfoldable pub get_metadata_entry_pda : Pubkey → Bytes → Pubkey → Pubkey × ℕ
  get_metadata_entry_pda asset key_hash program_id =
      web3.find_program_address (ascii "agent_meta" ∷ key_bytes asset ∷ take 16 key_hash ∷ [])
        program_id

  unfoldable pub get_atom_config_pda : Pubkey → Pubkey × ℕ
  get_atom_config_pda program_id = web3.find_program_address (ascii "atom_config" ∷ []) program_id

  unfoldable pub get_atom_stats_pda : Pubkey → Pubkey → Pubkey × ℕ
  get_atom_stats_pda asset program_id =
      web3.find_program_address (ascii "atom_stats" ∷ key_bytes asset ∷ []) program_id

  unfoldable pub get_registry_authority_pda : Pubkey → Pubkey × ℕ
  get_registry_authority_pda registry_program_id =
      web3.find_program_address (ascii "atom_cpi_authority" ∷ []) registry_program_id

  unfoldable pub wallet_set_message : Pubkey → Pubkey → Pubkey → ℕ → Bytes
  wallet_set_message asset new_wallet owner deadline =
      ascii "8004_WALLET_SET:"
      ++ (key_bytes asset
          ++ (key_bytes new_wallet ++ (key_bytes owner ++ web3.to_array_like deadline)))

  unfoldable pub compute_key_hash : Bytes → Bytes
  compute_key_hash key = take 16 (web3.sha256 key)
