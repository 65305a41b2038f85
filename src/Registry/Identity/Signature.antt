-- ===== src/Registry/Identity/Signature.antt =====
-- `verify_ed25519_signature` of programs/agent-registry-8004/src/identity/instructions.rs: the
-- instruction before the current one must be an Ed25519 check of the expected message. The Ed25519
-- program itself rejects the whole transaction where the signature is wrong.
use solana.Prelude.{
  ℕ, ◌+◌, ◌-◌, ◌*◌, zero, suc, ◌&&◌, [], ◌∷◌, Bytes, Pubkey, key_bytes, length, take, drop,
  get_elem?, leb, ◌==◌, bytes_eq,
}
use solana.Registry.Error.{
  Result, require, ok_or, ◌>>=◌, ◌>>◌, registry, missing_signature_verification, invalid_signature,
}
use solana.Registry.Runtime.{Runtime, Tx}

-- `ix.data[i]`, read only within the length that was checked
abbrev pub byte_at : Bytes → ℕ → ℕ
byte_at [] i = 0
byte_at (b ∷ bs) zero = b
byte_at (b ∷ bs) (suc i) = byte_at bs i

-- `u16::from_le_bytes([ix.data[i], ix.data[i + 1]])`
abbrev pub u16_at : Bytes → ℕ → ℕ
u16_at d i = byte_at d i + 256 * byte_at d (i + 1)

-- `ix.data[from..from + n]`
abbrev pub slice : Bytes → ℕ → ℕ → Bytes
slice d from n = take n (drop from d)

-- The checks on the data of the Ed25519 instruction.
unfoldable pub check_ed25519_data : Bytes → Pubkey → Bytes → Result (Unit {0})
check_ed25519_data d expected_signer expected_message = do
  require (leb 16 (length d)) invalid_signature
  require (byte_at d 0 == 1) invalid_signature
  require (u16_at d 4 == 65535 && (u16_at d 8 == 65535 && u16_at d 14 == 65535)) invalid_signature
  require
      (leb (u16_at d 6 + 32) (length d)
        && (leb (u16_at d 10 + u16_at d 12) (length d) && leb (u16_at d 2 + 64) (length d)))
      invalid_signature
  require (bytes_eq (slice d (u16_at d 6) 32) (key_bytes expected_signer)) invalid_signature
  require (bytes_eq (slice d (u16_at d 10) (u16_at d 12)) expected_message) invalid_signature

unfoldable pub verify_ed25519_signature : Runtime → Tx → Pubkey → Bytes → Result (Unit {0})
verify_ed25519_signature rt tx expected_signer expected_message = do
  current_idx ← ok_or tx.current_index (registry missing_signature_verification)
  require (leb 1 current_idx) missing_signature_verification
  ix ← ok_or (get_elem? tx.instructions (current_idx - 1)) (registry missing_signature_verification)
  require (ix.program_id == rt.ed25519_program_id) missing_signature_verification
  check_ed25519_data ix.data_bytes expected_signer expected_message
