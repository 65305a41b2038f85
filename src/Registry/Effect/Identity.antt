-- ===== src/Registry/Effect/Identity.antt =====
-- The handlers of the identity module change one agent and none of its chains, open a new agent, or
-- leave the agents alone.
use solana.Prelude.{
  ℕ, ◌≡◌, ◌≢◌, refl, sym, ap, ◌∙◌, Bool, true, not, ◌||◌, none, some, List, [], ◌∷◌, ◌++◌, arith,
  Bytes, Pubkey, default_key, if◌then◌else◌, ◌==◌, ==_iff, Option-cases, Bool-cases, inl, inr,
}
use solana.Prelude.Int.{ℤ}
use solana.Registry.Error.{
  ok, >>=-elim, >>-elim, ok_or-ok, require-ok, ok-injective, constraint-ok, account_not_initialized,
  collection_pointer_already_set, parent_already_set, metadata_immutable,
}
use solana.Registry.State.{
  AgentAccount, Event, uri_updated, collection_pointer_set, parent_asset_set, metadata_set,
  metadata_deleted, MetadataEntryPda, registry_initialized, agent_registered,
}
use solana.Registry.Accounts.{Accounts, lookup, lookup-insert_ne, lookup-erase_ne}
use solana.Registry.Runtime.{Runtime, Tx}
use solana.Registry.World.{World, put_agent, seeds_canonical, agent_seeds}
use solana.Registry.Loads.{load_owned-Loaded}
use solana.Registry.Replay.{
  feedback, response, revoke, all_quiet, leaves_quiet, Chained-quiet, Kept, SameChains,
}
use solana.Registry.Effect.{
  agent_pda, agent_bump, KeepsImmutable, Touch, Open, Aside, Outcome, touched, aside,
}
use solana.Registry.Effect.Handled.{put_agent-Touch}
use solana.Registry.Identity.{
  AgentAccounts, SetAgentUri, TransferAgent, SetParentAsset, Register, Initialize, MetadataAccounts,
}
use solana.Registry.Identity.Handlers.{new_agent, absent, load_register, register_inner, initialize}
use solana.Registry.Identity.Ownership.{
  sync_events, transfer_events, set_agent_uri, sync_owner, transfer_agent, set_agent_wallet,
  enable_atom,
}
use solana.Registry.Identity.Links.{
  set_collection_pointer_inner, load_parent, set_parent_asset_inner,
}
use solana.Registry.Identity.Metadata.{
  entry_or_empty, check_existing, set_metadata_pda, delete_metadata_pda,
}

module _ (rt : Runtime) (tx : Tx) where
  -- An agent account is written whose chains are as they were.
  quiet-Touch :
      (key : Pubkey) (old new : AgentAccount) (events : List Event) (w w' : World rt.Ext)
      (ext : rt.Ext)
      → w' ≡ put_agent key new events (record w { ext = ext })
      → lookup key w.agents ≡ some old
      → Kept old new
      → SameChains old new
      → all_quiet events ≡ true
      → Touch rt w w'
  quiet-Touch key old new events w w' ext e found kept same q =
      put_agent-Touch rt tx key old new events w w' ext e found kept
        (Chained-quiet rt.keccak old new events same q)

  load_parent-found :
      (a : SetParentAsset) (parent_asset : Pubkey) (w : World rt.Ext)
      {r : AgentAccount × AgentAccount}
      → load_parent rt tx a parent_asset w ≡ ok r
      → lookup a.agent_account w.agents ≡ some r.0
  unfolding load_parent
  load_parent-found a parent_asset w h = >>=-elim _ _ h λ agent found h1.
      >>=-elim _ _ h1 λ parent parent_found h2. >>-elim _ _ h2 λ signed h3.
        >>-elim _ _ h3 λ checked h4. >>-elim _ _ h4 λ seeds h5. >>-elim _ _ h5 λ same h6.
          ok_or-ok (lookup a.agent_account w.agents) account_not_initialized found
          ∙ ap (λ (g : AgentAccount × AgentAccount). some g.0) (sym (ok-injective h6))

  pub set_agent_uri-Touch :
      (a : SetAgentUri) (uri : Bytes) (w w' : World rt.Ext)
      → set_agent_uri rt tx a uri w ≡ ok w'
      → Touch rt w w'
  unfolding set_agent_uri
  set_agent_uri-Touch a uri w w' h = >>=-elim _ _ h λ config config_found h1.
      >>=-elim _ _ h1 λ agent found h2. >>-elim _ _ h2 λ signed h3. >>-elim _ _ h3 λ seeds h4.
        >>-elim _ _ h4 λ checked h5. >>-elim _ _ h5 λ collection h6. >>-elim _ _ h6 λ owned h7.
          >>-elim _ _ h7 λ fits h8. >>=-elim _ _ h8 λ ext called h9.
            quiet-Touch a.agent_account agent (record agent { agent_uri = uri })
              (uri_updated a.asset a.owner uri ∷ []) w w' ext (ok-injective h9)
              (ok_or-ok (lookup a.agent_account w.agents) account_not_initialized found)
              (ground arith) (ground arith) refl

  pub sync_owner-Outcome :
      (a : AgentAccounts) (w w' : World rt.Ext) → sync_owner rt tx a w ≡ ok w' → Outcome rt w w'
  unfolding sync_owner
  sync_owner-Outcome a w w' h = >>=-elim _ _ h λ agent found h1. >>-elim _ _ h1 λ checked h2.
      >>=-elim _ _ h2 λ new_owner live h3. elim (Bool-cases (agent.owner == new_owner)) [
        | inl same ↦ aside (record {
          events = [];
          stored = ground arith;
          logged = ground arith;
          quiet = λ k asset. leaves_quiet rt.keccak k asset [] refl;
          immutable = λ key entry there i r. ground (arith, there);
        })
        | inr other ↦ touched (
            quiet-Touch a.agent_account agent
              (record agent { owner = new_owner; agent_wallet = none })
              (sync_events agent new_owner) w w' w.ext (ground arith)
              (ok_or-ok (lookup a.agent_account w.agents) account_not_initialized found)
              (ground arith) (ground arith) (ground arith))
      ]

  pub transfer_agent-Touch :
      (a : TransferAgent) (w w' : World rt.Ext) → transfer_agent rt tx a w ≡ ok w' → Touch rt w w'
  unfolding transfer_agent
  transfer_agent-Touch a w w' h = >>=-elim _ _ h λ agent loaded h1. >>-elim _ _ h1 λ owned h2.
      >>-elim _ _ h2 λ no_self h3. >>=-elim _ _ h3 λ ext called h4.
        quiet-Touch a.agent_account agent
          (record agent { owner = a.new_owner; agent_wallet = none })
          (transfer_events agent a.owner a.new_owner) w w' ext (ok-injective h4)
          (load_owned-Loaded rt tx a.agent_account a.asset a.owner w loaded).found (ground arith)
          (ground arith) (ground arith)

  pub set_agent_wallet-Touch :
      (a : AgentAccounts) (wallet : Pubkey) (deadline : ℤ) (w w' : World rt.Ext)
      → set_agent_wallet rt tx a wallet deadline w ≡ ok w'
      → Touch rt w w'
  unfolding set_agent_wallet
  set_agent_wallet-Touch a wallet deadline w w' h = >>-elim _ _ h λ signed h1.
      >>=-elim _ _ h1 λ agent found h2. >>-elim _ _ h2 λ checked h3. >>-elim _ _ h3 λ owned h4.
        >>-elim _ _ h4 λ fresh h5. >>-elim _ _ h5 λ near h6. >>-elim _ _ h6 λ verified h7.
          quiet-Touch a.agent_account agent
            (record agent { owner = a.owner; agent_wallet = some wallet }) _ w w' w.ext
            (ok-injective h7)
            (ok_or-ok (lookup a.agent_account w.agents) account_not_initialized found)
            (ground arith) (ground arith) (ground arith)

  pub enable_atom-Touch :
      (a : AgentAccounts) (w w' : World rt.Ext) → enable_atom rt tx a w ≡ ok w' → Touch rt w w'
  unfolding enable_atom
  enable_atom-Touch a w w' h = >>=-elim _ _ h λ agent loaded h1. >>-elim _ _ h1 λ owned h2.
      >>-elim _ _ h2 λ off h3.
        quiet-Touch a.agent_account agent (record agent { atom_enabled = true })
          (Event.atom_enabled agent.asset a.owner ∷ []) w w' w.ext (ok-injective h3)
          (load_owned-Loaded rt tx a.agent_account a.asset a.owner w loaded).found (ground arith)
          (ground arith) refl

  pub set_collection_pointer_inner-Touch :
      (a : AgentAccounts) (col : Bytes) (lock : Bool) (w w' : World rt.Ext)
      → set_collection_pointer_inner rt tx a col lock w ≡ ok w'
      → Touch rt w w'
  unfolding set_collection_pointer_inner
  set_collection_pointer_inner-Touch a col lock w w' h = >>=-elim _ _ h λ agent loaded h1.
      >>=-elim _ _ h1 λ live live_ok h2. >>-elim _ _ h2 λ valid h3. >>-elim _ _ h3 λ creator h4.
        >>-elim _ _ h4 λ open_ h5.
          let not_locked = require-ok (not agent.col_locked) collection_pointer_already_set open_ in
          quiet-Touch a.agent_account agent
            (record agent { col = col; col_locked = lock || agent.col_locked })
            (collection_pointer_set agent.asset a.owner col ∷ []) w w' w.ext (ok-injective h5)
            (load_owned-Loaded rt tx a.agent_account a.asset a.owner w loaded).found
            (ground (arith, not_locked)) (ground arith) refl

  pub set_parent_asset_inner-Touch :
      (a : SetParentAsset) (parent_asset : Pubkey) (lock : Bool) (w w' : World rt.Ext)
      → set_parent_asset_inner rt tx a parent_asset lock w ≡ ok w'
      → Touch rt w w'
  unfolding set_parent_asset_inner
  set_parent_asset_inner-Touch a parent_asset lock w w' h =
      >>=-elim _ _ h λ (agent, parent) loaded h1. >>-elim _ _ h1 λ owned h2.
        >>=-elim _ _ h2 λ live live_ok h3. >>-elim _ _ h3 λ open_ h4. >>-elim _ _ h4 λ no_self h5.
          >>-elim _ _ h5 λ creator h6.
            let not_locked = require-ok (not agent.parent_locked) parent_already_set open_ in
            quiet-Touch a.agent_account agent
              (record agent {
                parent_asset = some parent_asset;
                parent_locked = lock || agent.parent_locked;
              })
              (parent_asset_set agent.asset parent_asset parent.creator a.owner ∷ []) w w' w.ext
              (ok-injective h6) (load_parent-found a parent_asset w loaded)
              (ground (arith, not_locked)) (ground arith) refl

  absent-vacant {ℓ} :
      {V : Type ℓ} (key : Pubkey) (m : Accounts V) → absent key m ≡ ok tt → lookup key m ≡ none
  absent-vacant key m h = elim (Option-cases (lookup key m)) [
    | inl none_there ↦ none_there
    | inr (v, there) ↦ ground (arith, h, there)
  ]

  canonical-address :
      (asset key : Pubkey) {bump : ℕ}
      → seeds_canonical rt (agent_seeds asset) key ≡ ok bump
      → (agent_pda rt asset ≡ key) × (bump ≡ agent_bump rt asset)
  unfolding seeds_canonical
  canonical-address asset key h =
      >>-elim _ _ h λ same h1. ((==_iff _ _).0 (constraint-ok _ _ same), ok-injective h1)

  pub load_register-free :
      (a : Register) (w : World rt.Ext) {bump : ℕ}
      → load_register rt tx a w ≡ ok bump
      → (lookup a.agent_account w.agents ≡ none)
        × (agent_pda rt a.asset ≡ a.agent_account)
        × (bump ≡ agent_bump rt a.asset)
  unfolding load_register
  load_register-free a w h = >>=-elim _ _ h λ root root_found h1.
      >>=-elim _ _ h1 λ config config_found h2. >>-elim _ _ h2 λ asset_signed h3.
        >>-elim _ _ h3 λ signed h4. >>=-elim _ _ h4 λ found canonical h5. >>-elim _ _ h5 λ free h6.
          >>-elim _ _ h6 λ root_seeds h7. >>-elim _ _ h7 λ base h8. >>-elim _ _ h8 λ seeds h9.
            let at = canonical-address a.asset a.agent_account canonical in
            (absent-vacant a.agent_account w.agents free, at.0, ok-injective h9 ∙ at.1)

  pub register_inner-Open :
      (a : Register) (uri : Bytes) (atom : Bool) (w w' : World rt.Ext)
      → register_inner rt tx a uri atom w ≡ ok w'
      → Open rt w w'
  unfolding register_inner
  register_inner-Open a uri atom w w' h = >>=-elim _ _ h λ bump loaded h1. >>-elim _ _ h1 λ fits h2.
      >>=-elim _ _ h2 λ ext called h3.
        let free = load_register-free a w loaded in
        let e = ok-injective h3 in
        record {
          key = a.agent_account;
          new = new_agent rt tx a uri atom bump;
          events = agent_registered a.asset a.collection a.owner atom uri ∷ [];
          vacant = free.0;
          at_pda = sym free.1;
          at_bump = free.2;
          stored = ap (λ (v : World rt.Ext). v.agents) e;
          logged = ap (λ (v : World rt.Ext). v.log) e;
          metadata = ap (λ (v : World rt.Ext). v.metadata) e;
          digest = elim [ feedback ↦ refl | response ↦ refl | revoke ↦ refl ];
          count = elim [ feedback ↦ refl | response ↦ refl | revoke ↦ refl ];
          quiet = λ k asset. leaves_quiet rt.keccak k asset _ refl;
        }

  quiet-Aside :
      (events : List Event) (w w' : World rt.Ext)
      → w'.agents ≡ w.agents
      → w'.log ≡ events ++ w.log
      → all_quiet events ≡ true
      → KeepsImmutable rt w w'
      → Aside rt w w'
  quiet-Aside events w w' stored logged q immutable = record {
    events = events;
    stored = stored;
    logged = logged;
    quiet = λ k asset. leaves_quiet rt.keccak k asset events q;
    immutable = immutable;
  }

  pub initialize-Aside :
      (a : Initialize) (w w' : World rt.Ext) → initialize rt tx a w ≡ ok w' → Aside rt w w'
  unfolding initialize
  initialize-Aside a w w' h = >>=-elim _ _ h λ (root_bump, registry_bump) loaded h1.
      >>=-elim _ _ h1 λ ext called h2.
        let e = ok-injective h2 in
        quiet-Aside (registry_initialized a.collection a.authority ∷ []) w w'
          (ap (λ (v : World rt.Ext). v.agents) e) (ap (λ (v : World rt.Ext). v.log) e) refl
          (λ j entry there i r. ap (λ (v : World rt.Ext). lookup j v.metadata) e ∙ there)

  entry_or_empty-some : (entry : MetadataEntryPda) → entry_or_empty (some entry) ≡ entry
  unfolding entry_or_empty
  entry_or_empty-some entry = refl

  -- The checks of an entry that is there refuse one that is immutable.
  overwritten :
      (key : Bytes) (found entry : MetadataEntryPda)
      → found ≡ entry
      → entry.immutable ≡ true
      → entry.asset ≢ default_key
      → (if found.asset == default_key then ok tt else check_existing found key) ≡ ok tt
      → ⊥
  unfolding check_existing
  overwritten key found entry same i r h = elim (Bool-cases (found.asset == default_key)) [
    | inl zeros ↦ r (
        ap (λ (m : MetadataEntryPda). m.asset) (sym same)
        ∙ (==_iff found.asset default_key).0 zeros)
    | inr other ↦
        let h1 : check_existing found key ≡ ok tt = ground (arith, other, h) in
        >>-elim _ _ h1 λ same_key h2. ground (
          arith,
          i,
          ap (λ (m : MetadataEntryPda). m.immutable) same,
          require-ok (not found.immutable) metadata_immutable h2,
        )
  ]

  pub set_metadata_pda-Aside :
      (a : MetadataAccounts) (key_hash key value : Bytes) (immutable : Bool) (w w' : World rt.Ext)
      → set_metadata_pda rt tx a key_hash key value immutable w ≡ ok w'
      → Aside rt w w'
  unfolding set_metadata_pda
  set_metadata_pda-Aside a key_hash key value immutable w w' h = >>=-elim _ _ h λ bump loaded h1.
      >>-elim _ _ h1 λ free h2. >>-elim _ _ h2 λ hashed h3. >>-elim _ _ h3 λ owned h4.
        >>-elim _ _ h4 λ short_key h5. >>-elim _ _ h5 λ short_value h6. >>-elim _ _ h6 λ checked h7.
          let e = ok-injective h7 in
          quiet-Aside (metadata_set a.asset immutable key value ∷ []) w w'
            (ap (λ (v : World rt.Ext). v.agents) e) (ap (λ (v : World rt.Ext). v.log) e) refl
            (λ j entry there i r.
              ap (λ (v : World rt.Ext). lookup j v.metadata) e
              ∙ lookup-insert_ne a.metadata_entry j _ w.metadata (λ same.
                overwritten key _ entry
                  (ap entry_or_empty (ap (λ q. lookup q w.metadata) same ∙ there)
                    ∙ entry_or_empty-some entry)
                  i r checked)
              ∙ there)

  pub delete_metadata_pda-Aside :
      (a : MetadataAccounts) (key_hash : Bytes) (w w' : World rt.Ext)
      → delete_metadata_pda rt tx a key_hash w ≡ ok w'
      → Aside rt w w'
  unfolding delete_metadata_pda
  delete_metadata_pda-Aside a key_hash w w' h = >>=-elim _ _ h λ entry found h1.
      >>=-elim _ _ h1 λ agent loaded h2. >>-elim _ _ h2 λ signed h3. >>-elim _ _ h3 λ seeds h4.
        >>-elim _ _ h4 λ checked h5. >>-elim _ _ h5 λ owned h6. >>-elim _ _ h6 λ mutable_ h7.
          let e = ok-injective h7 in
          quiet-Aside (metadata_deleted a.asset entry.metadata_key ∷ []) w w'
            (ap (λ (v : World rt.Ext). v.agents) e) (ap (λ (v : World rt.Ext). v.log) e) refl
            (λ j other there i r.
              ap (λ (v : World rt.Ext). lookup j v.metadata) e
              ∙ lookup-erase_ne a.metadata_entry j w.metadata (λ same. ground (
                arith,
                ok_or-ok (lookup a.metadata_entry w.metadata) account_not_initialized found,
                ap (λ q. lookup q w.metadata) same,
                there,
                i,
                require-ok (not entry.immutable) metadata_immutable mutable_,
              ))
              ∙ there)
