-- ===== src/Registry/Guards/Answers.antt =====
-- When `revoke_feedback` and `append_response` of reputation/instructions.rs succeed, for an agent
-- without ATOM.
use solana.Prelude.{
  ℕ, ◌+◌, ◌<◌, ◌≤◌, ◌^◌, ◌≡◌, refl, true, false, none, some, [], ◌∷◌, ◌++◌, arith, Bytes, Pubkey,
  length, leb, ltb, ==_iff,
}
use solana.Registry.Error.{ok, ◌>>=◌, require, constraint, ok_or}
use solana.Registry.State.{AgentAccount, feedback_revoked, response_appended}
use solana.Registry.Accounts.{lookup}
use solana.Registry.Runtime.{Runtime, Tx}
use solana.Registry.World.{
  World, put_agent, check_agent, seeds_with_bump, agent_seeds, checked_suc_u64,
}
use solana.Registry.Reputation.{
  RevokeFeedback, AppendResponse, no_revoke, atom_initialized, revoke_atom, check_authority,
}
use solana.Registry.Reputation.Handlers.{
  load_revocation, revoke_feedback, with_revocation, revocation_event, load_response,
  append_response, with_response, response_event,
}

module _ (rt : Runtime) (tx : Tx) (w : World rt.Ext) (agent : AgentAccount) where
  -- An agent account at an address, of an asset.
  pub record IsAgent (key asset : Pubkey) : Type 0 where
    pub found : lookup key w.agents ≡ some agent
    pub address :
        rt.create_program_address (agent_seeds asset ++ (agent.bump ∷ []) ∷ []) rt.program_id
        ≡ some key
    pub same_asset : asset ≡ agent.asset

  revocation_loads :
      (a : RevokeFeedback)
      → IsAgent a.agent_account a.asset
      → tx.signers a.client ≡ true
      → a.registry_authority ≡ none
      → load_revocation rt tx a w ≡ ok agent
  unfolding load_revocation check_agent seeds_with_bump check_authority constraint require ok_or
      ◌>>=◌
  revocation_loads a h signed authority =
      rw
        (
          signed,
          h.found,
          h.address,
          (==_iff a.agent_account a.agent_account).1 refl,
          (==_iff a.asset agent.asset).1 h.same_asset,
          authority,
        )
        refl

  pub revoke_feedback-accepts :
      (a : RevokeFeedback) (index : ℕ) (seal : Bytes)
      → IsAgent a.agent_account a.asset
      → tx.signers a.client ≡ true
      → a.registry_authority ≡ none
      → agent.atom_enabled ≡ false
      → index < agent.feedback_count
      → agent.revoke_count + 1 < 2 ^ 64
      → revoke_feedback rt tx a index seal w
        ≡ ok (
            put_agent a.agent_account
              (with_revocation rt tx a index seal agent (agent.revoke_count + 1))
              (feedback_revoked (
                  revocation_event rt tx a index seal agent
                    (agent.revoke_count + 1)
                    false
                    no_revoke)
                ∷ [])
              w)
  unfolding revoke_feedback atom_initialized revoke_atom require ok_or checked_suc_u64 ◌>>=◌
  revoke_feedback-accepts a index seal h signed authority plain given room =
      let there : ltb index agent.feedback_count ≡ true = ground arith in
      let fits : ltb (agent.revoke_count + 1) (2 ^ 64) ≡ true = ground arith in
      rw (revocation_loads a h signed authority, there, plain, fits) refl

  response_loads :
      (a : AppendResponse)
      → IsAgent a.agent_account a.asset
      → tx.signers a.responder ≡ true
      → load_response rt tx a w ≡ ok agent
  unfolding load_response check_agent seeds_with_bump constraint require ok_or ◌>>=◌
  response_loads a h signed =
      rw
        (
          signed,
          h.found,
          h.address,
          (==_iff a.agent_account a.agent_account).1 refl,
          (==_iff a.asset agent.asset).1 h.same_asset,
        )
        refl

  pub append_response-accepts :
      (a : AppendResponse) (client : Pubkey) (index : ℕ) (uri hash seal : Bytes)
      → IsAgent a.agent_account a.asset
      → tx.signers a.responder ≡ true
      → index < agent.feedback_count
      → length uri ≤ 250
      → agent.response_count + 1 < 2 ^ 64
      → append_response rt tx a client index uri hash seal w
        ≡ ok (
            put_agent a.agent_account
              (with_response rt tx a client index hash seal agent (agent.response_count + 1))
              (response_appended (
                  response_event rt tx a client index uri hash seal agent
                    (agent.response_count + 1))
                ∷ [])
              w)
  unfolding append_response require ok_or checked_suc_u64 ◌>>=◌
  append_response-accepts a client index uri hash seal h signed given short room =
      let there : ltb index agent.feedback_count ≡ true = ground arith in
      let small : leb (length uri) 250 ≡ true = ground arith in
      let fits : ltb (agent.response_count + 1) (2 ^ 64) ≡ true = ground arith in
      rw (response_loads a h signed, there, small, fits) refl
