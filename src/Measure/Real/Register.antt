-- ===== src/Measure/Real/Register.antt =====
-- The instruction that scripts/measure-real-costs.ts makes by hand.
use solana.Prelude.{
  ◌%◌, ◌^◌, Bool, true, false, ◌&&◌, List, [], ◌∷◌, ◌++◌, Option, none, some, Bytes, Pubkey,
  key_bytes, ascii, length, take, drop, le_bytes, from_le_bytes, bytes_eq, ◌==◌, if◌then◌else◌,
}
use solana.Measure.{Setup, get_metadata_pda, get_master_edition_pda, address}

pub record AccountMeta : Type 0 where
  pub pubkey : Pubkey
  pub is_signer : Bool
  pub is_writable : Bool

pub record Instruction : Type 0 where
  pub keys : List AccountMeta
  pub program_id : Pubkey
  pub instruction_data : Bytes

abbrev pub token_uri : Bytes
token_uri = ascii "ipfs://QmTest123456789"

abbrev pub discriminator : Bytes
discriminator = 0x6d ∷ 0x27 ∷ 0x94 ∷ 0x69 ∷ 0x8f ∷ 0x8b ∷ 0x2e ∷ 0xd4 ∷ []

-- The discriminator, the length in the bytes of a `Uint32Array` of a little-endian machine, the text.
unfoldable pub register_data : Bytes → Bytes
register_data uri = discriminator ++ (le_bytes 4 (length uri % 2 ^ 32) ++ uri)

abbrev account : Pubkey → Bool → Bool → AccountMeta
account pubkey is_signer is_writable = record {
  pubkey = pubkey;
  is_signer = is_signer;
  is_writable = is_writable;
}

module _ (s : Setup) where
  open s use {programs}

  abbrev pub collection_mint : Pubkey
  collection_mint = address s (ascii "collection_mint" ∷ []) programs.identity

  unfoldable pub register_keys : Pubkey → List AccountMeta
  register_keys token_account =
      account (address s (ascii "registry_state" ∷ []) programs.identity) false true
      ∷ account (address s (ascii "agent" ∷ key_bytes s.agent_mint ∷ []) programs.identity) false
          true
      ∷ account s.agent_mint false true
      ∷ account (get_metadata_pda s s.agent_mint) false true
      ∷ account token_account false false
      ∷ account collection_mint false false
      ∷ account (get_metadata_pda s collection_mint) false true
      ∷ account (get_master_edition_pda s collection_mint) false false
      ∷ account s.wallet true true
      ∷ account programs.token_program false false
      ∷ account programs.token_metadata_program false false
      ∷ account programs.system_program false false
      ∷ account programs.rent false false
      ∷ account programs.sysvar_instructions false false
      ∷ []

  unfoldable pub register_instruction : Pubkey → Bytes → Instruction
  register_instruction token_account uri = record {
    keys = register_keys token_account;
    program_id = programs.identity;
    instruction_data = register_data uri;
  }

-- What a program reads of the data of an instruction with one text, as Anchor and Borsh document it: the
-- discriminator of the instruction, the length of the text in four bytes, little-endian, and the text;
-- nothing where the first eight bytes are others, or where the text is not what is left.
abbrev pub read_text : Bytes → Bytes → Option Bytes
read_text name bytes =
    if bytes_eq (take 8 bytes) name
      && (from_le_bytes (take 4 (drop 8 bytes)) == length (drop 12 bytes))
    then some (drop 12 bytes)
    else none
