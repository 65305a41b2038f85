-- ===== src/Registry/Effect/Handled.antt =====
-- The handlers of feedback, revocation and response each change one agent, and append to one of
-- its chains the leaf of the event that they emit.
use solana.Prelude.{
  ℕ, ◌+◌, ◌^◌, ◌<◌, ◌≡◌, inr, refl, ap, Bool, some, List, [], ◌∷◌, arith, Bytes, Pubkey,
}
use solana.Seal.{Content}
use solana.Chain.{chain_digest}
use solana.Registry.Error.{ok}
use solana.Registry.State.{
  AgentAccount, Event, new_feedback, feedback_revoked, response_appended, UpdateResult,
  RevokeResult,
}
use solana.Registry.Accounts.{lookup}
use solana.Registry.Runtime.{Runtime, Tx}
use solana.Registry.World.{World, put_agent}
use solana.Registry.Loads.{load_feedback-Loaded, load_revocation-Loaded, load_response-Loaded}
use solana.Registry.Replay.{
  feedback, response, revoke, leaves, Chained, Kept, next_feedback, next_revocation, next_response,
}
use solana.Registry.Effect.{Touch}
use solana.Registry.Reputation.{GiveFeedback, RevokeFeedback, AppendResponse}
use solana.Registry.Reputation.Handlers.{
  with_feedback, feedback_event, feedback_leaf, give_feedback, revoke_feedback, append_response,
  with_revocation, with_response, revocation_event, response_event,
}
use solana.Registry.Reputation.Effects.{
  give_feedback-Accepted, revoke_feedback-Revoked, append_response-Responded,
}

module _ (rt : Runtime) (tx : Tx) where
  with_feedback-Chained :
      (a : GiveFeedback) (c : Content) (g : AgentAccount) (b : Bool) (u : UpdateResult)
      → a.asset ≡ g.asset
      → g.feedback_count + 1 < 2 ^ 64
      → Chained rt.keccak g
          (with_feedback rt tx a c g (g.feedback_count + 1))
          (new_feedback (feedback_event rt tx a c g (g.feedback_count + 1) b u) ∷ [])
  unfolding leaves chain_digest feedback_leaf
  with_feedback-Chained a c g b u same room = record {
    digest = elim [ feedback ↦ ground arith | response ↦ refl | revoke ↦ refl ];
    count = elim [ feedback ↦ ground arith | response ↦ omega arith | revoke ↦ omega arith ];
    foreign = elim [
      | feedback ↦ λ asset other. ground arith
      | response ↦ λ asset other. refl
      | revoke ↦ λ asset other. refl
    ];
    bounded = elim [
      | feedback ↦ λ small. room
      | response ↦ λ small. small
      | revoke ↦ λ small. small
    ];
    numbered = inr (next_feedback _ same refl);
  }

  with_revocation-Chained :
      (a : RevokeFeedback) (index : ℕ) (seal : Bytes) (g : AgentAccount) (b : Bool)
      (u : RevokeResult)
      → a.asset ≡ g.asset
      → index < g.feedback_count
      → g.revoke_count + 1 < 2 ^ 64
      → Chained rt.keccak g
          (with_revocation rt tx a index seal g (g.revoke_count + 1))
          (feedback_revoked (revocation_event rt tx a index seal g (g.revoke_count + 1) b u) ∷ [])
  unfolding leaves chain_digest
  with_revocation-Chained a index seal g b u same in_range room = record {
    digest = elim [ feedback ↦ refl | response ↦ refl | revoke ↦ ground arith ];
    count = elim [ feedback ↦ omega arith | response ↦ omega arith | revoke ↦ ground arith ];
    foreign = elim [
      | feedback ↦ λ asset other. refl
      | response ↦ λ asset other. refl
      | revoke ↦ λ asset other. ground arith
    ];
    bounded = elim [
      | feedback ↦ λ small. small
      | response ↦ λ small. small
      | revoke ↦ λ small. room
    ];
    numbered = inr (next_revocation _ same in_range);
  }

  with_response-Chained :
      (a : AppendResponse) (client : Pubkey) (index : ℕ) (uri hash seal : Bytes) (g : AgentAccount)
      → a.asset ≡ g.asset
      → index < g.feedback_count
      → g.response_count + 1 < 2 ^ 64
      → Chained rt.keccak g
          (with_response rt tx a client index hash seal g (g.response_count + 1))
          (response_appended
              (response_event rt tx a client index uri hash seal g (g.response_count + 1))
            ∷ [])
  unfolding leaves chain_digest
  with_response-Chained a client index uri hash seal g same in_range room = record {
    digest = elim [ feedback ↦ refl | response ↦ ground arith | revoke ↦ refl ];
    count = elim [ feedback ↦ omega arith | response ↦ ground arith | revoke ↦ omega arith ];
    foreign = elim [
      | feedback ↦ λ asset other. refl
      | response ↦ λ asset other. ground arith
      | revoke ↦ λ asset other. refl
    ];
    bounded = elim [
      | feedback ↦ λ small. small
      | response ↦ λ small. room
      | revoke ↦ λ small. small
    ];
    numbered = inr (next_response _ same in_range);
  }

  -- One agent account is written at the address where it was found.
  pub put_agent-Touch :
      (key : Pubkey) (old new : AgentAccount) (events : List Event) (w w' : World rt.Ext)
      (ext : rt.Ext)
      → w' ≡ put_agent key new events (record w { ext = ext })
      → lookup key w.agents ≡ some old
      → Kept old new
      → Chained rt.keccak old new events
      → Touch rt w w'
  put_agent-Touch key old new events w w' ext e found kept chained = record {
    key = key;
    old = old;
    new = new;
    events = events;
    found = found;
    stored = ap (λ (v : World rt.Ext). v.agents) e;
    logged = ap (λ (v : World rt.Ext). v.log) e;
    metadata = ap (λ (v : World rt.Ext). v.metadata) e;
    kept = kept;
    chained = chained;
  }

  pub give_feedback-Touch :
      (a : GiveFeedback) (c : Content) (w w' : World rt.Ext)
      → give_feedback rt tx a c w ≡ ok w'
      → Touch rt w w'
  give_feedback-Touch a c w w' h =
      let acc = give_feedback-Accepted rt tx a c w w' h in
      let there = (load_feedback-Loaded rt tx a w acc.loaded).0 in
      put_agent-Touch a.agent_account acc.agent _ _ w w' acc.ext acc.result there.found
        (ground arith)
        (with_feedback-Chained a c acc.agent acc.initialized acc.update there.same_asset acc.room)

  pub revoke_feedback-Touch :
      (a : RevokeFeedback) (index : ℕ) (seal : Bytes) (w w' : World rt.Ext)
      → revoke_feedback rt tx a index seal w ≡ ok w'
      → Touch rt w w'
  revoke_feedback-Touch a index seal w w' h =
      let acc = revoke_feedback-Revoked rt tx a index seal w w' h in
      let there = load_revocation-Loaded rt tx a w acc.loaded in
      put_agent-Touch a.agent_account acc.agent _ _ w w' acc.ext acc.result there.found
        (ground arith)
        (with_revocation-Chained a index seal acc.agent acc.initialized acc.revocation
          there.same_asset acc.in_range acc.room)

  pub append_response-Touch :
      (a : AppendResponse) (client : Pubkey) (index : ℕ) (uri hash seal : Bytes)
      (w w' : World rt.Ext)
      → append_response rt tx a client index uri hash seal w ≡ ok w'
      → Touch rt w w'
  append_response-Touch a client index uri hash seal w w' h =
      let acc = append_response-Responded rt tx a client index uri hash seal w w' h in
      let there = load_response-Loaded rt tx a w acc.loaded in
      put_agent-Touch a.agent_account acc.agent _ _ w w' w.ext acc.result there.found (ground arith)
        (with_response-Chained a client index uri hash seal acc.agent there.same_asset acc.in_range
          acc.room)
