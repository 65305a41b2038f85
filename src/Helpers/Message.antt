-- ===== src/Helpers/Message.antt =====
-- The message that a new wallet signs: `buildWalletSetMessage` of tests/utils/helpers.ts and
-- `build_wallet_set_message` of programs/agent-registry-8004/src/identity/instructions.rs.
use solana.Prelude.{
  ℕ, ◌<◌, ◌^◌, ◌≡◌, refl, sym, ap, ◌∙◌, ◌++◌, arith, Bytes, Pubkey, key_bytes, IsKey, le_bytes,
  length, append_cancel, ascii, le_bytes_inj, length-le_bytes,
}
use solana.Prelude.Int.{ℤ, pos, twos, Fits, twos-lt, twos_inj}
use solana.Registry.Identity.{build_wallet_set_message, wallet_set_message_prefix}
use solana.Helpers.{Web3, IsBn, wallet_set_message}

same_width : (w m n : ℕ) → length (le_bytes w m) ≡ length (le_bytes w n)
same_width w m n = length-le_bytes w m ∙ sym (length-le_bytes w n)

-- For a deadline of at most 63 bits, the client's message is the program's.
pub client_message :
    (web3 : Web3) (bn : IsBn web3) (asset new_wallet owner : Pubkey) (deadline : ℕ)
    → deadline < 2 ^ 63
    → wallet_set_message web3 asset new_wallet owner deadline
      ≡ build_wallet_set_message asset new_wallet owner (pos deadline)
unfolding wallet_set_message build_wallet_set_message
client_message web3 bn asset new_wallet owner deadline h =
    ap
      (λ (d : Bytes).
        ascii "8004_WALLET_SET:"
        ++ (key_bytes asset ++ (key_bytes new_wallet ++ (key_bytes owner ++ d))))
      (bn deadline (omega arith))

-- Two wallet messages that are the same are about the same asset, wallet, owner and deadline, where
-- the keys have 32 bytes and the deadlines 64 bits: a signature for one is for no other.
pub build_wallet_set_message_inj :
    (a b : Pubkey) (wallet wallet' : Pubkey) (owner owner' : Pubkey) (deadline deadline' : ℤ)
    → IsKey a
    → IsKey b
    → IsKey wallet
    → IsKey wallet'
    → IsKey owner
    → IsKey owner'
    → Fits (2 ^ 63) deadline
    → Fits (2 ^ 63) deadline'
    → build_wallet_set_message a wallet owner deadline
      ≡ build_wallet_set_message b wallet' owner' deadline'
    → (a ≡ b) × (wallet ≡ wallet') × (owner ≡ owner') × (deadline ≡ deadline')
unfolding build_wallet_set_message
build_wallet_set_message_inj a b wallet wallet' owner owner' deadline deadline' ha hb hw hw' ho ho'
      hd hd' e =
    let p = append_cancel wallet_set_message_prefix _ wallet_set_message_prefix _ refl e in
    let q = append_cancel (key_bytes a) _ (key_bytes b) _ (same_width 32 a b) p.1 in
    let r =
      append_cancel (key_bytes wallet) _ (key_bytes wallet') _ (same_width 32 wallet wallet') q.1 in
    let s =
      append_cancel (key_bytes owner) _ (key_bytes owner') _ (same_width 32 owner owner') r.1 in
    (
      le_bytes_inj 32 a b ha hb q.0,
      le_bytes_inj 32 wallet wallet' hw hw' r.0,
      le_bytes_inj 32 owner owner' ho ho' s.0,
      twos_inj (2 ^ 63) deadline deadline' hd hd' (
          le_bytes_inj 8 (twos (2 ^ 64) deadline) (twos (2 ^ 64) deadline')
            (twos-lt (2 ^ 63) deadline hd) (twos-lt (2 ^ 63) deadline' hd') s.1),
    )
