-- ===== src/Registry/Guards/Access.antt =====
-- Who can give feedback: `give_feedback` of reputation/instructions.rs succeeds where its conditions
-- hold, and a new agent can be given feedback at once.
use solana.Prelude.{
  ℕ, ◌+◌, ◌<◌, ◌^◌, ◌≡◌, ◌≢◌, refl, sym, ap, ◌∙◌, true, false, Option, none, some, [], ◌∷◌, ◌++◌,
  arith, Bytes, Pubkey, length, leb, ltb, ◌==◌, ==_iff,
}
use solana.Seal.{Content}
use solana.Registry.Error.{ok, ◌>>=◌, require, constraint, ok_or, >>=-elim, >>-elim, ok-injective}
use solana.Registry.State.{AgentAccount, new_feedback}
use solana.Registry.Accounts.{lookup, lookup-insert_self}
use solana.Registry.Runtime.{Runtime, Tx}
use solana.Registry.World.{
  World, put_agent, check_agent, seeds_with_bump, agent_seeds, get_core_owner, checked_suc_u64,
}
use solana.Registry.Reputation.{
  GiveFeedback, check_content, check_score, no_update, atom_initialized, filter_score, update_atom,
  check_authority,
}
use solana.Registry.Reputation.Handlers.{
  load_feedback, give_feedback, with_feedback, feedback_event,
}
use solana.Registry.Identity.{Register}
use solana.Registry.Identity.Handlers.{new_agent, register_inner}
use solana.Registry.Effect.Identity.{load_register-free}
use solana.Registry.Guards.Feedback.{Limits, ScoreFits}

check_score-ok : (score : Option ℕ) → ScoreFits score → check_score score ≡ ok tt
unfolding check_score require
check_score-ok none h = refl
check_score-ok (some s) h = let small : leb s 100 ≡ true = ground arith in rw small refl

check_content-ok : (c : Content) → Limits c → check_content c ≡ ok tt
unfolding check_content require ◌>>=◌
check_content-ok c limits =
    let d : leb c.value_decimals 18 ≡ true = ground (arith, limits.value_decimals) in
    let t : leb (length c.tag1) 32 ≡ true = ground (arith, limits.tag1) in
    let u : leb (length c.tag2) 32 ≡ true = ground (arith, limits.tag2) in
    let f : leb (length c.feedback_uri) 250 ≡ true = ground (arith, limits.feedback_uri) in
    let e : leb (length c.endpoint) 250 ≡ true = ground (arith, limits.endpoint) in
    rw (d, check_score-ok c.score limits.score, t, u, f, e) refl

module _ (rt : Runtime) (tx : Tx) (a : GiveFeedback) (w : World rt.Ext) (agent : AgentAccount) where
  -- The accounts of a feedback to an agent without ATOM.
  pub record IsAddressed : Type 0 where
    pub signed : tx.signers a.client ≡ true
    pub found : lookup a.agent_account w.agents ≡ some agent
    pub address :
        rt.create_program_address (agent_seeds a.asset ++ (agent.bump ∷ []) ∷ []) rt.program_id
        ≡ some a.agent_account
    pub asset : a.asset ≡ agent.asset
    pub collection : a.collection ≡ agent.collection
    pub authority : a.registry_authority ≡ none
    pub plain : agent.atom_enabled ≡ false

  loads : IsAddressed → load_feedback rt tx a w ≡ ok agent
  unfolding load_feedback check_agent seeds_with_bump check_authority constraint require ok_or ◌>>=◌
  loads h =
      rw
        (
          h.signed,
          h.found,
          h.address,
          (==_iff a.agent_account a.agent_account).1 refl,
          (==_iff a.asset agent.asset).1 h.asset,
          (==_iff a.collection agent.collection).1 h.collection,
          h.authority,
        )
        refl

  -- Feedback to an agent without ATOM is accepted where the client has signed, the accounts are the
  -- agent's, the live owner of the asset is not the client, the arguments keep their limits and the
  -- count does not overflow 64 bits; it is stored with the next index and its event is the only one.
  pub give_feedback-accepts :
      (c : Content) (owner : Pubkey)
      → IsAddressed
      → get_core_owner rt w.ext a.asset ≡ ok owner
      → owner ≢ a.client
      → Limits c
      → agent.feedback_count + 1 < 2 ^ 64
      → give_feedback rt tx a c w
        ≡ ok (
            put_agent a.agent_account
              (with_feedback rt tx a c agent (agent.feedback_count + 1))
              (new_feedback
                  (feedback_event rt tx a c agent (agent.feedback_count + 1) false no_update)
                ∷ [])
              w)
  unfolding give_feedback atom_initialized update_atom filter_score require ok_or checked_suc_u64
      ◌>>=◌
  give_feedback-accepts c owner h owned other limits room =
      let stranger : (owner == a.client) ≡ false = ground arith in
      let fits : ltb (agent.feedback_count + 1) (2 ^ 64) ≡ true = ground arith in
      rw (loads h, owned, stranger, check_content-ok c limits, h.plain, fits) refl

-- What the runtime documents of program addresses: the seeds and the bump that was found make the
-- address that was found.
abbrev pub IsPda : Runtime → Type 0
IsPda rt =
    (asset : Pubkey)
    → rt.create_program_address
        (agent_seeds asset
          ++ ((rt.find_program_address (agent_seeds asset) rt.program_id).1 ∷ []) ∷ [])
        rt.program_id
      ≡ some (rt.find_program_address (agent_seeds asset) rt.program_id).0

module _ (rt : Runtime) (tx tx' : Tx) where
  -- The accounts of a feedback for a new agent without ATOM.
  abbrev pub plain_accounts : Register → Pubkey → GiveFeedback
  plain_accounts a client = record {
    client = client;
    agent_account = a.agent_account;
    asset = a.asset;
    collection = a.collection;
    atom_config = none;
    atom_stats = none;
    atom_engine_program = none;
    registry_authority = none;
  }

  registered :
      (a : Register) (uri : Bytes) (w w' : World rt.Ext)
      → IsPda rt
      → register_inner rt tx a uri false w ≡ ok w'
      → (bump : ℕ) × (lookup a.agent_account w'.agents ≡ some (new_agent rt tx a uri false bump))
        × (rt.create_program_address (agent_seeds a.asset ++ (bump ∷ []) ∷ []) rt.program_id
            ≡ some a.agent_account)
  unfolding register_inner
  registered a uri w w' pda h = >>=-elim _ _ h λ bump loaded h1. >>-elim _ _ h1 λ fits h2.
      >>=-elim _ _ h2 λ ext called h3.
        let free = load_register-free rt tx a w loaded in
        (
          bump,
          ap (λ (v : World rt.Ext). lookup a.agent_account v.agents) (ok-injective h3)
              ∙ lookup-insert_self a.agent_account _ w.agents,
          rw (free.1, sym free.2) at (pda a.asset),
        )

  -- An agent registered without ATOM can be given feedback at once, by any client who signs and is not
  -- the live owner of its asset, with arguments in their limits: its first feedback is counted.
  pub register_inner-opens :
      (a : Register) (uri : Bytes) (client owner : Pubkey) (c : Content) (w w' : World rt.Ext)
      → IsPda rt
      → register_inner rt tx a uri false w ≡ ok w'
      → tx'.signers client ≡ true
      → get_core_owner rt w'.ext a.asset ≡ ok owner
      → owner ≢ client
      → Limits c
      → (v : World rt.Ext) × (agent : AgentAccount) × (give_feedback rt tx'
            (plain_accounts a client)
            c
            w'
          ≡ ok v)
        × (lookup a.agent_account v.agents ≡ some agent)
        × (agent.asset ≡ a.asset)
        × (agent.feedback_count ≡ 1)
  register_inner-opens a uri client owner c w w' pda h signed owned other limits =
      let r = registered a uri w w' pda h in
      let g = new_agent rt tx a uri false r.0 in
      let b = plain_accounts a client in
      let there : IsAddressed rt tx' b w' g = record {
        signed = signed;
        found = r.1;
        address = r.2;
        asset = refl;
        collection = refl;
        authority = refl;
        plain = refl;
      } in
      (
        _,
        with_feedback rt tx' b c g 1,
        give_feedback-accepts rt tx' b w' g c owner there owned other limits (omega arith),
        lookup-insert_self a.agent_account _ w'.agents,
        refl,
        refl,
      )
