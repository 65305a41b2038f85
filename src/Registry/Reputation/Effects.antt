-- ===== src/Registry/Reputation/Effects.antt =====
-- What a successful handler of the reputation module has checked, and what it has changed.
use solana.Prelude.{
  ℕ, ◌+◌, ◌<◌, ◌^◌, ◌≡◌, ◌≢◌, Bool, not, [], ◌∷◌, arith, Bytes, Pubkey, ltb, leb, ltb→lt, leb→le,
  ◌≤◌, length, ◌==◌,
}
use solana.Seal.{Content}
use solana.Registry.Error.{
  ok, registry, overflow, >>=-elim, >>-elim, invalid_feedback_index, response_uri_too_long,
  require-ok, ok_or-ok, self_feedback_not_allowed,
}
use solana.Registry.State.{
  AgentAccount, new_feedback, feedback_revoked, response_appended, UpdateResult, RevokeResult,
  max_uri_length,
}
use solana.Registry.Runtime.{Runtime, Tx}
use solana.Registry.World.{World, checked_suc_u64, put_agent, get_core_owner}
use solana.Registry.Reputation.{
  GiveFeedback, RevokeFeedback, AppendResponse, check_content, filter_score, atom_initialized,
  update_atom, revoke_atom,
}
use solana.Registry.Reputation.Handlers.{
  with_feedback, feedback_event, load_feedback, give_feedback, with_revocation, revocation_event,
  load_revocation, revoke_feedback, with_response, response_event, load_response, append_response,
}

module _ (rt : Runtime) (tx : Tx) where
  -- A feedback that was accepted.
  pub record Accepted (a : GiveFeedback) (c : Content) (w w' : World rt.Ext) : Type 0 where
    pub agent : AgentAccount
    pub core_owner : Pubkey
    pub initialized : Bool
    pub ext : rt.Ext
    pub update : UpdateResult
    pub loaded : load_feedback rt tx a w ≡ ok agent
    pub owned : get_core_owner rt w.ext a.asset ≡ ok core_owner
    pub no_self : core_owner ≢ a.client
    pub checked : check_content c ≡ ok tt
    pub scored : atom_initialized rt w.ext agent.atom_enabled a.asset a.atom_stats ≡ ok initialized
    pub updated : update_atom rt w.ext a (filter_score initialized c.score) ≡ ok (ext, update)
    pub room : agent.feedback_count + 1 < 2 ^ 64
    pub result :
        w'
        ≡ put_agent a.agent_account
            (with_feedback rt tx a c agent (agent.feedback_count + 1))
            (new_feedback
                (feedback_event rt tx a c agent (agent.feedback_count + 1) initialized update)
              ∷ [])
            (record w { ext = ext })

  pub give_feedback-Accepted :
      (a : GiveFeedback) (c : Content) (w w' : World rt.Ext)
      → give_feedback rt tx a c w ≡ ok w'
      → Accepted a c w w'
  unfolding give_feedback checked_suc_u64
  give_feedback-Accepted a c w w' h = >>=-elim _ _ h λ agent loaded h1.
      >>=-elim _ _ h1 λ core_owner owned h2. >>-elim _ _ h2 λ no_self h3.
        >>-elim _ _ h3 λ checked h4. >>=-elim _ _ h4 λ initialized scored h5.
          >>=-elim _ _ h5 λ (ext, update) updated h6. >>=-elim _ _ h6 λ count room h7. record {
            agent = agent;
            core_owner = core_owner;
            initialized = initialized;
            ext = ext;
            update = update;
            loaded = loaded;
            owned = owned;
            no_self = ground (
              arith,
              require-ok (not (core_owner == a.client)) self_feedback_not_allowed no_self,
            );
            checked = checked;
            scored = scored;
            updated = updated;
            room =
                ground
                  (arith, ok_or-ok (checked_suc_u64 agent.feedback_count) (registry overflow) room);
            result =
                ground
                  (arith, ok_or-ok (checked_suc_u64 agent.feedback_count) (registry overflow) room);
          }

  -- A revocation that was accepted.
  pub record Revoked (a : RevokeFeedback) (index : ℕ) (seal : Bytes) (w w' : World rt.Ext)
      : Type 0 where
    pub agent : AgentAccount
    pub initialized : Bool
    pub ext : rt.Ext
    pub revocation : RevokeResult
    pub loaded : load_revocation rt tx a w ≡ ok agent
    pub in_range : index < agent.feedback_count
    pub scored : atom_initialized rt w.ext agent.atom_enabled a.asset a.atom_stats ≡ ok initialized
    pub updated : revoke_atom rt w.ext a initialized ≡ ok (ext, revocation)
    pub room : agent.revoke_count + 1 < 2 ^ 64
    pub result :
        w'
        ≡ put_agent a.agent_account
            (with_revocation rt tx a index seal agent (agent.revoke_count + 1))
            (feedback_revoked (
                revocation_event rt tx a index seal agent
                  (agent.revoke_count + 1)
                  initialized
                  revocation)
              ∷ [])
            (record w { ext = ext })

  pub revoke_feedback-Revoked :
      (a : RevokeFeedback) (index : ℕ) (seal : Bytes) (w w' : World rt.Ext)
      → revoke_feedback rt tx a index seal w ≡ ok w'
      → Revoked a index seal w w'
  unfolding revoke_feedback checked_suc_u64
  revoke_feedback-Revoked a index seal w w' h = >>=-elim _ _ h λ agent loaded h1.
      >>-elim _ _ h1 λ in_range h2. >>=-elim _ _ h2 λ initialized scored h3.
        >>=-elim _ _ h3 λ (ext, revocation) updated h4. >>=-elim _ _ h4 λ count room h5. record {
          agent = agent;
          initialized = initialized;
          ext = ext;
          revocation = revocation;
          loaded = loaded;
          in_range =
              ltb→lt _ _
                (require-ok (ltb index agent.feedback_count) invalid_feedback_index in_range);
          scored = scored;
          updated = updated;
          room =
              ground
                (arith, ok_or-ok (checked_suc_u64 agent.revoke_count) (registry overflow) room);
          result =
              ground
                (arith, ok_or-ok (checked_suc_u64 agent.revoke_count) (registry overflow) room);
        }

  -- A response that was accepted.
  pub record Responded (a : AppendResponse) (client : Pubkey) (index : ℕ) (uri hash seal : Bytes)
      (w w' : World rt.Ext) : Type 0 where
    pub agent : AgentAccount
    pub loaded : load_response rt tx a w ≡ ok agent
    pub in_range : index < agent.feedback_count
    pub uri_fits : length uri ≤ max_uri_length
    pub room : agent.response_count + 1 < 2 ^ 64
    pub result :
        w'
        ≡ put_agent a.agent_account
            (with_response rt tx a client index hash seal agent (agent.response_count + 1))
            (response_appended
                (response_event rt tx a client index uri hash seal agent (agent.response_count + 1))
              ∷ [])
            w

  pub append_response-Responded :
      (a : AppendResponse) (client : Pubkey) (index : ℕ) (uri hash seal : Bytes)
      (w w' : World rt.Ext)
      → append_response rt tx a client index uri hash seal w ≡ ok w'
      → Responded a client index uri hash seal w w'
  unfolding append_response checked_suc_u64
  append_response-Responded a client index uri hash seal w w' h = >>=-elim _ _ h λ agent loaded h1.
      >>-elim _ _ h1 λ in_range h2. >>-elim _ _ h2 λ uri_fits h3. >>=-elim _ _ h3 λ count room h4.
        record {
          agent = agent;
          loaded = loaded;
          in_range =
              ltb→lt _ _
                (require-ok (ltb index agent.feedback_count) invalid_feedback_index in_range);
          uri_fits =
              leb→le _ _
                (require-ok (leb (length uri) max_uri_length) response_uri_too_long uri_fits);
          room =
              ground
                (arith, ok_or-ok (checked_suc_u64 agent.response_count) (registry overflow) room);
          result =
              ground
                (arith, ok_or-ok (checked_suc_u64 agent.response_count) (registry overflow) room);
        }
