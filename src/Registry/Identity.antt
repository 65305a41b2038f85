-- ===== src/Registry/Identity.antt =====
-- programs/agent-registry-8004/src/identity: the life of an agent, its metadata, its wallet and its
-- links. The accounts of each handler are records of addresses, the handlers stand in the children.
pub mod Signature
pub mod Handlers
pub mod Ownership
pub mod Links
pub mod Metadata
use solana.Prelude.{
  ℕ, ◌+◌, ◌^◌, ◌*◌, Bool, true, false, ◌&&◌, ◌||◌, not, Option, none, some, List, [], ◌∷◌, ◌++◌,
  Bytes, ascii, Pubkey, key_bytes, le_bytes, length, leb, ltb, drop, bytes_eq, ◌==◌, if◌then◌else◌,
}
use solana.Prelude.Int.{ℤ, pos, twos}
use solana.Registry.Error.{
  Result, ok, require, ◌>>=◌, ◌>>◌, RegistryError, invalid_collection_pointer,
}
use solana.Registry.State.{Event, max_col_length}

-- The accounts of `SyncOwner`, `OwnerOf` and, with an owner who signs, of the handlers that an
-- agent's owner calls: `SetAgentWallet`, `SetCollectionPointer` and `EnableAtom`.
pub record AgentAccounts : Type 0 where
  pub agent_account : Pubkey
  pub asset : Pubkey
  pub owner : Pubkey

-- The accounts of `SetMetadataPda` and `DeleteMetadataPda`.
pub record MetadataAccounts : Type 0 where
  pub metadata_entry : Pubkey
  pub agent_account : Pubkey
  pub asset : Pubkey
  pub owner : Pubkey

-- The accounts of `SetAgentUri`.
pub record SetAgentUri : Type 0 where
  pub registry_config : Pubkey
  pub agent_account : Pubkey
  pub asset : Pubkey
  pub collection : Pubkey
  pub owner : Pubkey

-- The accounts of `TransferAgent`.
pub record TransferAgent : Type 0 where
  pub agent_account : Pubkey
  pub asset : Pubkey
  pub collection : Pubkey
  pub owner : Pubkey
  pub new_owner : Pubkey

-- The accounts of `SetParentAsset`.
pub record SetParentAsset : Type 0 where
  pub agent_account : Pubkey
  pub asset : Pubkey
  pub parent_agent_account : Pubkey
  pub parent_asset_account : Pubkey
  pub owner : Pubkey

-- The accounts of `Initialize`.
pub record Initialize : Type 0 where
  pub root_config : Pubkey
  pub registry_config : Pubkey
  pub collection : Pubkey
  pub authority : Pubkey
  pub program_data : Pubkey

-- The accounts of `Register`.
pub record Register : Type 0 where
  pub root_config : Pubkey
  pub registry_config : Pubkey
  pub agent_account : Pubkey
  pub asset : Pubkey
  pub collection : Pubkey
  pub owner : Pubkey

abbrev pub max_deadline_window : ℤ
max_deadline_window = pos 300

abbrev pub wallet_set_message_prefix : Bytes
wallet_set_message_prefix = ascii "8004_WALLET_SET:"

abbrev pub collection_pointer_prefix : Bytes
collection_pointer_prefix = ascii "c1:"

-- `build_wallet_set_message`
unfoldable pub build_wallet_set_message : Pubkey → Pubkey → Pubkey → ℤ → Bytes
build_wallet_set_message asset new_wallet owner deadline =
    wallet_set_message_prefix
    ++ (key_bytes asset
        ++ (key_bytes new_wallet ++ (key_bytes owner ++ le_bytes 8 (twos (2 ^ 64) deadline))))

-- `starts_with`
unfoldable pub starts_with : Bytes → Bytes → Bool
starts_with [] s = true
starts_with (p ∷ ps) [] = false
starts_with (p ∷ ps) (b ∷ bs) = p == b && starts_with ps bs

-- `c.is_ascii_lowercase() || c.is_ascii_digit()`; no byte of a character past ASCII passes.
unfoldable pub is_cid_char : ℕ → Bool
is_cid_char c = (leb b'a' c && leb c b'z') || (leb b'0' c && leb c b'9')

-- `cid.chars().all(…)`
unfoldable pub all_cid_chars : Bytes → Bool
all_cid_chars [] = true
all_cid_chars (c ∷ cs) = is_cid_char c && all_cid_chars cs

unfoldable pub is_empty : Bytes → Bool
is_empty [] = true
is_empty (c ∷ cs) = false

-- `validate_collection_pointer`
unfoldable pub validate_collection_pointer : Bytes → Result (Unit {0})
validate_collection_pointer col = do
  require (leb (length col) max_col_length) invalid_collection_pointer
  require (starts_with collection_pointer_prefix col) invalid_collection_pointer
  let cid = drop (length collection_pointer_prefix) col
  require (not (is_empty cid)) invalid_collection_pointer
  require (all_cid_chars cid) invalid_collection_pointer

-- `if b { emit!(e) }` in front of the events so far, the latest first
abbrev pub emit_if : Bool → Event → List Event → List Event
emit_if true e log = e ∷ log
emit_if false e log = log
