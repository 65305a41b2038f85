-- ===== src/Registry/Reputation/Handlers.antt =====
-- The three handlers of programs/agent-registry-8004/src/reputation/instructions.rs.
use solana.Prelude.{
  ℕ, Bool, false, not, Option, none, some, [], ◌∷◌, Bytes, length, Pubkey, ◌==◌, ltb, leb,
}
use solana.Seal.{Content, compute_seal_hash, compute_feedback_leaf_v1}
use solana.Chain.{
  domain_feedback, domain_response, domain_revoke, compute_response_leaf, compute_revoke_leaf,
  chain_hash,
}
use solana.Registry.Error.{
  Result, ok, require, ok_or, ◌>>=◌, ◌>>◌, registry, overflow, invalid_collection,
  response_uri_too_long, invalid_feedback_index, self_feedback_not_allowed,
}
use solana.Registry.State.{
  AgentAccount, NewFeedback, FeedbackRevoked, ResponseAppended, new_feedback, feedback_revoked,
  response_appended, UpdateResult, RevokeResult, max_uri_length,
}
use solana.Registry.Runtime.{Runtime, Tx}
use solana.Registry.World.{
  World, checked_suc_u64, put_agent, get_core_owner, signer, load, check_agent,
}
use solana.Registry.Reputation.{
  GiveFeedback, RevokeFeedback, AppendResponse, check_content, filter_score, check_authority,
  atom_initialized, update_atom, revoke_atom,
}

-- `is_atom_initialized && score.is_some()`
abbrev scored : Bool → Option ℕ → Bool
scored initialized none = false
scored initialized (some s) = initialized

module _ (rt : Runtime) (tx : Tx) where
  -- The leaf of a feedback, with the seal hash of its content.
  unfoldable pub feedback_leaf : Pubkey → Pubkey → ℕ → Content → Bytes
  feedback_leaf asset client index c =
      compute_feedback_leaf_v1 rt.keccak asset client index (compute_seal_hash rt.keccak c) tx.slot

  -- The agent account after a feedback.
  abbrev pub with_feedback : GiveFeedback → Content → AgentAccount → ℕ → AgentAccount
  with_feedback a c agent count = record agent {
    feedback_digest =
        chain_hash rt.keccak agent.feedback_digest domain_feedback
          (feedback_leaf a.asset a.client agent.feedback_count c);
    feedback_count = count;
  }

  -- The event of a feedback.
  abbrev pub feedback_event :
      GiveFeedback → Content → AgentAccount → ℕ → Bool → UpdateResult → NewFeedback
  feedback_event a c agent count initialized update = record {
    asset = a.asset;
    client_address = a.client;
    feedback_index = agent.feedback_count;
    slot = tx.slot;
    value = c.value;
    value_decimals = c.value_decimals;
    score = c.score;
    feedback_file_hash = c.feedback_file_hash;
    seal_hash = compute_seal_hash rt.keccak c;
    atom_enabled = scored initialized c.score;
    new_trust_tier = update.trust_tier;
    new_quality_score = update.quality_score;
    new_confidence = update.confidence;
    new_risk_score = update.risk_score;
    new_diversity_ratio = update.diversity_ratio;
    is_unique_client = update.hll_changed;
    new_feedback_digest = (with_feedback a c agent count).feedback_digest;
    new_feedback_count = count;
    tag1 = c.tag1;
    tag2 = c.tag2;
    endpoint = c.endpoint;
    feedback_uri = c.feedback_uri;
  }

  -- The checks that Anchor makes for `GiveFeedback`; the result is the agent account.
  unfoldable pub load_feedback : GiveFeedback → World rt.Ext → Result AgentAccount
  load_feedback a w = do
    signer tx a.client
    agent ← load a.agent_account w.agents
    check_agent rt a.agent_account a.asset agent
    require (a.collection == agent.collection) invalid_collection
    check_authority rt a.registry_authority
    ok agent

  unfoldable pub give_feedback : GiveFeedback → Content → World rt.Ext → Result (World rt.Ext)
  give_feedback a c w = do
    agent ← load_feedback a w
    core_owner ← get_core_owner rt w.ext a.asset
    require (not (core_owner == a.client)) self_feedback_not_allowed
    check_content c
    initialized ← atom_initialized rt w.ext agent.atom_enabled a.asset a.atom_stats
    (ext, update) ← update_atom rt w.ext a (filter_score initialized c.score)
    count ← ok_or (checked_suc_u64 agent.feedback_count) (registry overflow)
    ok (
        put_agent a.agent_account (with_feedback a c agent count)
          (new_feedback (feedback_event a c agent count initialized update) ∷ [])
          (record w { ext = ext }))

  -- The agent account after a revocation.
  abbrev pub with_revocation : RevokeFeedback → ℕ → Bytes → AgentAccount → ℕ → AgentAccount
  with_revocation a index seal_hash agent count = record agent {
    revoke_digest =
        chain_hash rt.keccak agent.revoke_digest domain_revoke
          (compute_revoke_leaf rt.keccak a.asset a.client index seal_hash tx.slot);
    revoke_count = count;
  }

  -- The event of a revocation.
  abbrev pub revocation_event :
      RevokeFeedback → ℕ → Bytes → AgentAccount → ℕ → Bool → RevokeResult → FeedbackRevoked
  revocation_event a index seal_hash agent count initialized result = record {
    asset = a.asset;
    client_address = a.client;
    feedback_index = index;
    seal_hash = seal_hash;
    slot = tx.slot;
    original_score = result.original_score;
    atom_enabled = initialized;
    had_impact = result.had_impact;
    new_trust_tier = result.new_trust_tier;
    new_quality_score = result.new_quality_score;
    new_confidence = result.new_confidence;
    new_revoke_digest = (with_revocation a index seal_hash agent count).revoke_digest;
    new_revoke_count = count;
  }

  -- The checks that Anchor makes for `RevokeFeedback`.
  unfoldable pub load_revocation : RevokeFeedback → World rt.Ext → Result AgentAccount
  load_revocation a w = do
    signer tx a.client
    agent ← load a.agent_account w.agents
    check_agent rt a.agent_account a.asset agent
    check_authority rt a.registry_authority
    ok agent

  unfoldable pub revoke_feedback : RevokeFeedback → ℕ → Bytes → World rt.Ext → Result (World rt.Ext)
  revoke_feedback a feedback_index seal_hash w = do
    agent ← load_revocation a w
    require (ltb feedback_index agent.feedback_count) invalid_feedback_index
    initialized ← atom_initialized rt w.ext agent.atom_enabled a.asset a.atom_stats
    (ext, result) ← revoke_atom rt w.ext a initialized
    count ← ok_or (checked_suc_u64 agent.revoke_count) (registry overflow)
    ok (
        put_agent a.agent_account (with_revocation a feedback_index seal_hash agent count)
          (feedback_revoked
              (revocation_event a feedback_index seal_hash agent count initialized result)
            ∷ [])
          (record w { ext = ext }))

  -- The agent account after a response.
  abbrev pub with_response :
      AppendResponse → Pubkey → ℕ → Bytes → Bytes → AgentAccount → ℕ → AgentAccount
  with_response a client index response_hash seal_hash agent count = record agent {
    response_digest = chain_hash rt.keccak agent.response_digest domain_response (
        compute_response_leaf rt.keccak a.asset client index a.responder response_hash seal_hash
          tx.slot);
    response_count = count;
  }

  -- The event of a response.
  abbrev pub response_event :
      AppendResponse → Pubkey → ℕ → Bytes → Bytes → Bytes → AgentAccount → ℕ → ResponseAppended
  response_event a client index uri response_hash seal_hash agent count = record {
    asset = a.asset;
    client = client;
    feedback_index = index;
    slot = tx.slot;
    responder = a.responder;
    response_hash = response_hash;
    seal_hash = seal_hash;
    new_response_digest =
        (with_response a client index response_hash seal_hash agent count).response_digest;
    new_response_count = count;
    response_uri = uri;
  }

  -- The checks that Anchor makes for `AppendResponse`.
  unfoldable pub load_response : AppendResponse → World rt.Ext → Result AgentAccount
  load_response a w = do
    signer tx a.responder
    agent ← load a.agent_account w.agents
    check_agent rt a.agent_account a.asset agent
    ok agent

  unfoldable pub append_response :
      AppendResponse → Pubkey → ℕ → Bytes → Bytes → Bytes → World rt.Ext → Result (World rt.Ext)
  append_response a client_address feedback_index response_uri response_hash seal_hash w = do
    agent ← load_response a w
    require (ltb feedback_index agent.feedback_count) invalid_feedback_index
    require (leb (length response_uri) max_uri_length) response_uri_too_long
    count ← ok_or (checked_suc_u64 agent.response_count) (registry overflow)
    ok (
        put_agent a.agent_account
          (with_response a client_address feedback_index response_hash seal_hash agent count)
          (response_appended (
              response_event a client_address feedback_index response_uri response_hash seal_hash
                agent count)
            ∷ [])
          w)
