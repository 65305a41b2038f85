-- ===== src/Registry/Loads.antt =====
-- What the account checks of the handlers establish: the account that was found, its asset, and
-- the signature.
use solana.Prelude.{◌≡◌, true, some, arith, Pubkey, ◌==◌}
use solana.Registry.Error.{
  ok, account_not_signer, account_not_initialized, invalid_asset, invalid_collection, unauthorized,
  >>=-elim, >>-elim, require-ok, constraint-ok, ok_or-ok,
}
use solana.Registry.State.{AgentAccount}
use solana.Registry.Accounts.{lookup}
use solana.Registry.Runtime.{Runtime, Tx}
use solana.Registry.World.{World, check_agent, get_core_owner, verify_core_owner}
use solana.Registry.Reputation.{GiveFeedback, RevokeFeedback, AppendResponse}
use solana.Registry.Reputation.Handlers.{load_feedback, load_revocation, load_response}
use solana.Registry.Identity.Handlers.{load_owned}

module _ (rt : Runtime) (tx : Tx) where
  -- An agent account at an address, of an asset, in an instruction that `who` has signed.
  pub record Loaded (w : World rt.Ext) (key asset who : Pubkey) (agent : AgentAccount)
      : Type 0 where
    pub found : lookup key w.agents ≡ some agent
    pub same_asset : asset ≡ agent.asset
    pub signed : tx.signers who ≡ true

  pub check_agent-asset :
      (key asset : Pubkey) (agent : AgentAccount) {x : Unit {0}}
      → check_agent rt key asset agent ≡ ok x
      → asset ≡ agent.asset
  unfolding check_agent
  check_agent-asset key asset agent h =
      >>-elim _ _ h λ seeds h1. ground (arith, require-ok (asset == agent.asset) invalid_asset h1)

  pub load_owned-Loaded :
      (key asset owner : Pubkey) (w : World rt.Ext) {agent : AgentAccount}
      → load_owned rt tx key asset owner w ≡ ok agent
      → Loaded w key asset owner agent
  unfolding load_owned
  load_owned-Loaded key asset owner w h = >>=-elim _ _ h λ g found h1. >>-elim _ _ h1 λ signed h2.
      >>-elim _ _ h2 λ checked h3. record {
        found = cc (ok_or-ok (lookup key w.agents) account_not_initialized found, h3);
        same_asset = cc (check_agent-asset key asset g checked, h3);
        signed = constraint-ok (tx.signers owner) account_not_signer signed;
      }

  pub load_feedback-Loaded :
      (a : GiveFeedback) (w : World rt.Ext) {agent : AgentAccount}
      → load_feedback rt tx a w ≡ ok agent
      → Loaded w a.agent_account a.asset a.client agent × (a.collection ≡ agent.collection)
  unfolding load_feedback
  load_feedback-Loaded a w h = >>-elim _ _ h λ signed h1. >>=-elim _ _ h1 λ g found h2.
      >>-elim _ _ h2 λ checked h3. >>-elim _ _ h3 λ collection h4. >>-elim _ _ h4 λ authority h5. (
        record {
          found = cc (ok_or-ok (lookup a.agent_account w.agents) account_not_initialized found, h5);
          same_asset = cc (check_agent-asset a.agent_account a.asset g checked, h5);
          signed = constraint-ok (tx.signers a.client) account_not_signer signed;
        },
        ground (arith, require-ok (a.collection == g.collection) invalid_collection collection),
      )

  pub load_revocation-Loaded :
      (a : RevokeFeedback) (w : World rt.Ext) {agent : AgentAccount}
      → load_revocation rt tx a w ≡ ok agent
      → Loaded w a.agent_account a.asset a.client agent
  unfolding load_revocation
  load_revocation-Loaded a w h = >>-elim _ _ h λ signed h1. >>=-elim _ _ h1 λ g found h2.
      >>-elim _ _ h2 λ checked h3. >>-elim _ _ h3 λ authority h4. record {
        found = cc (ok_or-ok (lookup a.agent_account w.agents) account_not_initialized found, h4);
        same_asset = cc (check_agent-asset a.agent_account a.asset g checked, h4);
        signed = constraint-ok (tx.signers a.client) account_not_signer signed;
      }

  pub load_response-Loaded :
      (a : AppendResponse) (w : World rt.Ext) {agent : AgentAccount}
      → load_response rt tx a w ≡ ok agent
      → Loaded w a.agent_account a.asset a.responder agent
  unfolding load_response
  load_response-Loaded a w h = >>-elim _ _ h λ signed h1. >>=-elim _ _ h1 λ g found h2.
      >>-elim _ _ h2 λ checked h3. record {
        found = cc (ok_or-ok (lookup a.agent_account w.agents) account_not_initialized found, h3);
        same_asset = cc (check_agent-asset a.agent_account a.asset g checked, h3);
        signed = constraint-ok (tx.signers a.responder) account_not_signer signed;
      }

  -- A passed ownership check: the live owner is the expected one.
  pub verify_core_owner-ok :
      (ext : rt.Ext) (asset owner : Pubkey) {x : Unit {0}}
      → verify_core_owner rt ext asset owner ≡ ok x
      → get_core_owner rt ext asset ≡ ok owner
  unfolding verify_core_owner
  verify_core_owner-ok ext asset owner h =
      >>=-elim _ _ h λ actual found h1. ground (arith, require-ok (actual == owner) unauthorized h1)
