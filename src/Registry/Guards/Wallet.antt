-- ===== src/Registry/Guards/Wallet.antt =====
-- The guards of `set_agent_wallet` in identity/instructions.rs.
use solana.Prelude.{
  ℕ, ◌+◌, ◌-◌, ◌≤◌, ◌≡◌, ap, ◌∙◌, true, ◌&&◌, some, arith, Bytes, Pubkey, key_bytes, get_elem?, leb,
  leb→le, ◌==◌, ==_iff, bytes_eq, bytes_eq→eq, length,
}
use solana.Prelude.Int.{ℤ, ◌≤ℤ◌, leb_ℤ}
use solana.Registry.Error.{
  ok, registry, >>=-elim, >>-elim, require-ok, ok_or-ok, ok-injective, constraint-ok,
  account_not_initialized, account_not_signer, deadline_expired, deadline_too_far,
  missing_signature_verification, invalid_signature,
}
use solana.Registry.State.{AgentAccount}
use solana.Registry.Accounts.{lookup, lookup-insert_self}
use solana.Registry.Runtime.{Runtime, Tx, Instruction, add_i64}
use solana.Registry.World.{World, get_core_owner}
use solana.Registry.Loads.{verify_core_owner-ok, check_agent-asset}
use solana.Registry.Identity.{AgentAccounts, build_wallet_set_message, max_deadline_window}
use solana.Registry.Identity.Signature.{
  check_ed25519_data, verify_ed25519_signature, slice, u16_at, byte_at,
}
use solana.Registry.Identity.Ownership.{set_agent_wallet}

-- The data of an Ed25519 instruction checks one signature of `message` by `signer`, with the three
-- parts inside its own data.
pub record Verifies (d : Bytes) (signer : Pubkey) (message : Bytes) : Type 0 where
  pub one : byte_at d 0 ≡ 1
  pub key : slice d (u16_at d 6) 32 ≡ key_bytes signer
  pub text : slice d (u16_at d 10) (u16_at d 12) ≡ message
  pub key_inside : u16_at d 6 + 32 ≤ length d
  pub text_inside : u16_at d 10 + u16_at d 12 ≤ length d
  pub signature_inside : u16_at d 2 + 64 ≤ length d
  pub own_data : (u16_at d 4 ≡ 65535) × (u16_at d 8 ≡ 65535) × (u16_at d 14 ≡ 65535)

check_ed25519_data-Verifies :
    (d : Bytes) (signer : Pubkey) (message : Bytes) {x : Unit {0}}
    → check_ed25519_data d signer message ≡ ok x
    → Verifies d signer message
unfolding check_ed25519_data
check_ed25519_data-Verifies d signer message h = >>-elim _ _ h λ long h1. >>-elim _ _ h1 λ one h2.
    >>-elim _ _ h2 λ own h3. >>-elim _ _ h3 λ inside h4. >>-elim _ _ h4 λ key text.
      let own_b =
        require-ok (u16_at d 4 == 65535 && (u16_at d 8 == 65535 && u16_at d 14 == 65535))
          invalid_signature own in
      let inside_b =
        require-ok
          (leb (u16_at d 6 + 32) (length d)
            && (leb (u16_at d 10 + u16_at d 12) (length d) && leb (u16_at d 2 + 64) (length d)))
          invalid_signature inside in
      record {
        one = (==_iff _ _).0 (require-ok (byte_at d 0 == 1) invalid_signature one);
        key = bytes_eq→eq _ _ (
            require-ok (bytes_eq (slice d (u16_at d 6) 32) (key_bytes signer)) invalid_signature
              key);
        text = bytes_eq→eq _ _ (
            require-ok (bytes_eq (slice d (u16_at d 10) (u16_at d 12)) message) invalid_signature
              text);
        key_inside = ground (arith, inside_b);
        text_inside = ground (arith, inside_b);
        signature_inside = ground (arith, inside_b);
        own_data = ground (arith, own_b);
      }

module _ (rt : Runtime) (tx : Tx) where
  -- The instruction before the current one is an Ed25519 check of the message.
  abbrev pub Precedes : Pubkey → Bytes → Type 0
  Precedes signer message =
      (current : ℕ) × (ix : Instruction) × (tx.current_index ≡ some current)
      × (1 ≤ current)
      × (get_elem? tx.instructions (current - 1) ≡ some ix)
      × (ix.program_id ≡ rt.ed25519_program_id)
      × Verifies ix.data_bytes signer message

  verify-Precedes :
      (signer : Pubkey) (message : Bytes) {x : Unit {0}}
      → verify_ed25519_signature rt tx signer message ≡ ok x
      → Precedes signer message
  unfolding verify_ed25519_signature
  verify-Precedes signer message h = >>=-elim _ _ h λ current found h1. >>-elim _ _ h1 λ after h2.
      >>=-elim _ _ h2 λ ix there h3. >>-elim _ _ h3 λ program parts. (
        current,
        ix,
        ok_or-ok tx.current_index (registry missing_signature_verification) found,
        leb→le _ _ (require-ok (leb 1 current) missing_signature_verification after),
        ok_or-ok (get_elem? tx.instructions (current - 1)) (registry missing_signature_verification)
            there,
        (==_iff _ _).0 (
            require-ok (ix.program_id == rt.ed25519_program_id) missing_signature_verification
              program),
        check_ed25519_data-Verifies ix.data_bytes signer message parts,
      )

  -- A wallet is set only on the agent of the asset, where the live owner of the asset has signed, the deadline
  -- has not passed and is at most 300 seconds (as 64-bit numbers add) ahead, and the instruction just
  -- before is an Ed25519 check, by the new wallet, of the message that names the asset, the wallet, the
  -- owner and the deadline; the agent then has this wallet and this owner, and the rest as it was.
  pub set_agent_wallet-guarded :
      (a : AgentAccounts) (wallet : Pubkey) (deadline : ℤ) (w w' : World rt.Ext)
      → set_agent_wallet rt tx a wallet deadline w ≡ ok w'
      → (agent : AgentAccount) × (lookup a.agent_account w.agents ≡ some agent)
        × (a.asset ≡ agent.asset)
        × (lookup a.agent_account w'.agents
            ≡ some (record agent { owner = a.owner; agent_wallet = some wallet }))
        × (tx.signers a.owner ≡ true)
        × (get_core_owner rt w.ext a.asset ≡ ok a.owner)
        × (tx.unix_timestamp ≤ℤ deadline)
        × (deadline ≤ℤ add_i64 tx.unix_timestamp max_deadline_window)
        × Precedes wallet (build_wallet_set_message a.asset wallet a.owner deadline)
  unfolding set_agent_wallet
  set_agent_wallet-guarded a wallet deadline w w' h = >>-elim _ _ h λ signed h1.
      >>=-elim _ _ h1 λ agent found h2. >>-elim _ _ h2 λ checked h3. >>-elim _ _ h3 λ owned h4.
        >>-elim _ _ h4 λ fresh h5. >>-elim _ _ h5 λ near h6. >>-elim _ _ h6 λ verified h7. (
          agent,
          ok_or-ok (lookup a.agent_account w.agents) account_not_initialized found,
          check_agent-asset rt tx a.agent_account a.asset agent checked,
          ap (λ (v : World rt.Ext). lookup a.agent_account v.agents) (ok-injective h7)
              ∙ lookup-insert_self a.agent_account _ w.agents,
          constraint-ok (tx.signers a.owner) account_not_signer signed,
          verify_core_owner-ok rt tx w.ext a.asset a.owner owned,
          leb→le _ _ (require-ok (leb_ℤ tx.unix_timestamp deadline) deadline_expired fresh),
          leb→le _ _ (
              require-ok (leb_ℤ deadline (add_i64 tx.unix_timestamp max_deadline_window))
                deadline_too_far near),
          verify-Precedes wallet _ verified,
        )
