-- ===== src/Registry/Guards/Feedback.antt =====
-- The guards of reputation/instructions.rs.
use solana.Prelude.{
  ℕ, ◌+◌, ◌<◌, ◌≤◌, ◌^◌, ◌≡◌, ◌≢◌, true, Option, none, some, Bytes, Pubkey, leb, leb→le, length,
}
use solana.Seal.{Content}
use solana.Registry.Error.{
  ok, >>-elim, require-ok, invalid_score, invalid_decimals, tag_too_long, uri_too_long,
  endpoint_too_long,
}
use solana.Registry.State.{
  AgentAccount, max_value_decimals, max_tag_length, max_uri_length, max_endpoint_length,
}
use solana.Registry.Accounts.{lookup}
use solana.Registry.Runtime.{Runtime, Tx}
use solana.Registry.World.{World, get_core_owner}
use solana.Registry.Loads.{load_feedback-Loaded, load_revocation-Loaded, load_response-Loaded}
use solana.Registry.Reputation.{
  GiveFeedback, RevokeFeedback, AppendResponse, check_content, check_score,
}
use solana.Registry.Reputation.Handlers.{give_feedback, revoke_feedback, append_response}
use solana.Registry.Reputation.Effects.{
  give_feedback-Accepted, revoke_feedback-Revoked, append_response-Responded,
}

abbrev pub ScoreFits : Option ℕ → Type 0
ScoreFits none = Unit {0}
ScoreFits (some s) = s ≤ 100

-- The limits on the arguments of a feedback.
pub record Limits (c : Content) : Type 0 where
  pub value_decimals : c.value_decimals ≤ 18
  pub score : ScoreFits c.score
  pub tag1 : length c.tag1 ≤ 32
  pub tag2 : length c.tag2 ≤ 32
  pub feedback_uri : length c.feedback_uri ≤ 250
  pub endpoint : length c.endpoint ≤ 250

check_score-ScoreFits :
    (score : Option ℕ) {x : Unit {0}} → check_score score ≡ ok x → ScoreFits score
unfolding check_score
check_score-ScoreFits none h = tt
check_score-ScoreFits (some s) h = leb→le _ _ (require-ok (leb s 100) invalid_score h)

check_content-Limits : (c : Content) → check_content c ≡ ok tt → Limits c
unfolding check_content
check_content-Limits c h = >>-elim _ _ h λ decimals h1. >>-elim _ _ h1 λ score h2.
    >>-elim _ _ h2 λ tag1 h3. >>-elim _ _ h3 λ tag2 h4. >>-elim _ _ h4 λ uri endpoint. record {
      value_decimals =
          leb→le _ _
            (require-ok (leb c.value_decimals max_value_decimals) invalid_decimals decimals);
      score = check_score-ScoreFits c.score score;
      tag1 = leb→le _ _ (require-ok (leb (length c.tag1) max_tag_length) tag_too_long tag1);
      tag2 = leb→le _ _ (require-ok (leb (length c.tag2) max_tag_length) tag_too_long tag2);
      feedback_uri =
          leb→le _ _ (require-ok (leb (length c.feedback_uri) max_uri_length) uri_too_long uri);
      endpoint =
          leb→le _ _
            (require-ok (leb (length c.endpoint) max_endpoint_length) endpoint_too_long endpoint);
    }

module _ (rt : Runtime) (tx : Tx) where
  -- A feedback is accepted only where the client has signed, the agent is registered for the asset
  -- and in the collection, the live owner of the asset is not the client, the arguments keep their
  -- limits and the count does not overflow 64 bits.
  pub give_feedback-guarded :
      (a : GiveFeedback) (c : Content) (w w' : World rt.Ext)
      → give_feedback rt tx a c w ≡ ok w'
      → (agent : AgentAccount) × (owner : Pubkey) × (lookup a.agent_account w.agents ≡ some agent)
        × (a.asset ≡ agent.asset)
        × (a.collection ≡ agent.collection)
        × (tx.signers a.client ≡ true)
        × (get_core_owner rt w.ext a.asset ≡ ok owner)
        × (owner ≢ a.client)
        × Limits c
        × (agent.feedback_count + 1 < 2 ^ 64)
  give_feedback-guarded a c w w' h =
      let acc = give_feedback-Accepted rt tx a c w w' h in
      let there = load_feedback-Loaded rt tx a w acc.loaded in
      (
        acc.agent,
        acc.core_owner,
        there.0.found,
        there.0.same_asset,
        there.1,
        there.0.signed,
        acc.owned,
        acc.no_self,
        check_content-Limits c acc.checked,
        acc.room,
      )

  -- A revocation is accepted only for a feedback index that the agent has given out, with the
  -- client's signature.
  revoke_feedback-guarded :
      (a : RevokeFeedback) (index : ℕ) (seal : Bytes) (w w' : World rt.Ext)
      → revoke_feedback rt tx a index seal w ≡ ok w'
      → (agent : AgentAccount) × (lookup a.agent_account w.agents ≡ some agent)
        × (index < agent.feedback_count)
        × (agent.revoke_count + 1 < 2 ^ 64)
        × (tx.signers a.client ≡ true)
  revoke_feedback-guarded a index seal w w' h =
      let acc = revoke_feedback-Revoked rt tx a index seal w w' h in
      let there = load_revocation-Loaded rt tx a w acc.loaded in
      (acc.agent, there.found, acc.in_range, acc.room, there.signed)

  -- A response is accepted only for a feedback index that the agent has given out, with the
  -- responder's signature and a URI of at most 250 bytes.
  append_response-guarded :
      (a : AppendResponse) (client : Pubkey) (index : ℕ) (uri hash seal : Bytes)
      (w w' : World rt.Ext)
      → append_response rt tx a client index uri hash seal w ≡ ok w'
      → (agent : AgentAccount) × (lookup a.agent_account w.agents ≡ some agent)
        × (index < agent.feedback_count)
        × (agent.response_count + 1 < 2 ^ 64)
        × (tx.signers a.responder ≡ true)
        × (length uri ≤ 250)
  append_response-guarded a client index uri hash seal w w' h =
      let acc = append_response-Responded rt tx a client index uri hash seal w w' h in
      let there = load_response-Loaded rt tx a w acc.loaded in
      (acc.agent, there.found, acc.in_range, acc.room, there.signed, acc.uri_fits)
