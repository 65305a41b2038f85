-- ===== src/Registry/Guards/Ownership.antt =====
-- The owner that an agent account remembers: `transfer_agent` and `sync_owner` of
-- identity/instructions.rs.
use solana.Prelude.{
  ◌≡◌, ◌≢◌, sym, ap, ◌∙◌, true, not, none, some, arith, Pubkey, ◌==◌, ==_iff, Bool-cases, inl, inr,
  if◌then◌else◌,
}
use solana.Registry.Error.{
  ok, >>=-elim, >>-elim, require-ok, ok_or-ok, ok-injective, account_not_initialized,
  transfer_to_self, cpi_failed,
}
use solana.Registry.State.{AgentAccount}
use solana.Registry.Accounts.{lookup, lookup-insert_self}
use solana.Registry.Runtime.{Runtime, Tx}
use solana.Registry.World.{World, get_core_owner}
use solana.Registry.Loads.{load_owned-Loaded, verify_core_owner-ok, check_agent-asset}
use solana.Registry.Identity.{AgentAccounts, TransferAgent}
use solana.Registry.Identity.Ownership.{sync_owner, transfer_agent}

module _ (rt : Runtime) (tx : Tx) where
  -- `sync_owner` succeeds only for the asset that is the agent's; the agent then remembers the live
  -- owner of that asset, and has no wallet where the owner has changed; nothing else of it has changed.
  pub sync_owner-synced :
      (a : AgentAccounts) (w w' : World rt.Ext)
      → sync_owner rt tx a w ≡ ok w'
      → (agent : AgentAccount) × (live : Pubkey) × (lookup a.agent_account w.agents ≡ some agent)
        × (a.asset ≡ agent.asset)
        × (get_core_owner rt w.ext a.asset ≡ ok live)
        × (lookup a.agent_account w'.agents
            ≡ some (record agent {
              owner = live;
              agent_wallet = if agent.owner == live then agent.agent_wallet else none;
            }))
  unfolding sync_owner
  sync_owner-synced a w w' h = >>=-elim _ _ h λ agent found h1. >>-elim _ _ h1 λ checked h2.
      >>=-elim _ _ h2 λ live live_ok h3.
        let there = ok_or-ok (lookup a.agent_account w.agents) account_not_initialized found in
        (
          agent,
          live,
          there,
          check_agent-asset rt tx a.agent_account a.asset agent checked,
          live_ok,
          elim (Bool-cases (agent.owner == live)) [
            | inl same ↦
                let e = (==_iff agent.owner live).0 same in ground (arith, same, e, there, h3)
            | inr other ↦ ground (
              arith,
              other,
              h3,
              lookup-insert_self a.agent_account
                  (record agent { owner = live; agent_wallet = none }) w.agents,
            )
          ],
        )

  -- An agent is transferred only for the asset that is its own, by the live owner of that asset, who
  -- has signed, and to another key; Metaplex Core has then accepted the transfer of the asset to the new
  -- owner, and its state is what that call leaves. The agent then remembers the new owner and has no
  -- wallet, and nothing else of it has changed.
  pub transfer_agent-transferred :
      (a : TransferAgent) (w w' : World rt.Ext)
      → transfer_agent rt tx a w ≡ ok w'
      → (agent : AgentAccount) × (lookup a.agent_account w.agents ≡ some agent)
        × (a.asset ≡ agent.asset)
        × (rt.transfer_asset
              (record {
                asset = a.asset;
                collection = a.collection;
                payer = a.owner;
                authority = a.owner;
                new_owner = a.new_owner;
              })
              w.ext
            ≡ some w'.ext)
        × (lookup a.agent_account w'.agents
            ≡ some (record agent { owner = a.new_owner; agent_wallet = none }))
        × (get_core_owner rt w.ext a.asset ≡ ok a.owner)
        × (tx.signers a.owner ≡ true)
        × (a.owner ≢ a.new_owner)
  unfolding transfer_agent
  transfer_agent-transferred a w w' h = >>=-elim _ _ h λ agent loaded h1. >>-elim _ _ h1 λ owned h2.
      >>-elim _ _ h2 λ no_self h3. >>=-elim _ _ h3 λ ext called h4.
        let there = load_owned-Loaded rt tx a.agent_account a.asset a.owner w loaded in
        (
          agent,
          there.found,
          there.same_asset,
          ok_or-ok (rt.transfer_asset _ w.ext) cpi_failed called
              ∙ sym (ap (λ (v : World rt.Ext). some v.ext) (ok-injective h4)),
          ap (λ (v : World rt.Ext). lookup a.agent_account v.agents) (ok-injective h4)
              ∙ lookup-insert_self a.agent_account _ w.agents,
          verify_core_owner-ok rt tx w.ext a.asset a.owner owned,
          there.signed,
          ground (arith, require-ok (not (a.owner == a.new_owner)) transfer_to_self no_self),
        )
