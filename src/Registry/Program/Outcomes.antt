-- ===== src/Registry/Program/Outcomes.antt =====
-- Every instruction has one of the three outcomes, and so has what other programs do.
use solana.Prelude.{◌≡◌, refl, ap, ◌∙◌, true, []}
use solana.Registry.Error.{Result, ok, err, >>=-elim, ok-injective}
use solana.Registry.Accounts.{lookup}
use solana.Registry.Runtime.{Runtime, Tx}
use solana.Registry.World.{World}
use solana.Registry.Replay.{leaves_quiet}
use solana.Registry.Identity.Handlers
use solana.Registry.Identity.Links
use solana.Registry.Effect.{Outcome, touched, opened, aside}
use solana.Registry.Effect.Handled as H
use solana.Registry.Effect.Identity as I
use solana.Registry.Program.{Call, execute, settle, process}

module _ (rt : Runtime) where
  -- The agents and the log are as they were.
  pub still :
      (w w' : World rt.Ext)
      → w'.agents ≡ w.agents
      → w'.log ≡ w.log
      → w'.metadata ≡ w.metadata
      → Outcome rt w w'
  still w w' agents log metadata = aside (record {
    events = [];
    stored = agents;
    logged = log;
    quiet = λ k asset. leaves_quiet rt.keccak k asset [] refl;
    immutable = λ key entry there i r. ap (lookup key) metadata ∙ there;
  })

  same_world : (w w' : World rt.Ext) → w' ≡ w → Outcome rt w w'
  same_world w w' e =
      still w w' (ap (λ (v : World rt.Ext). v.agents) e) (ap (λ (v : World rt.Ext). v.log) e)
        (ap (λ (v : World rt.Ext). v.metadata) e)

  pub execute-Outcome :
      (tx : Tx) (call : Call) (w w' : World rt.Ext) → execute rt tx call w ≡ ok w' → Outcome rt w w'
  unfolding execute Handlers.register Handlers.register_with_options Links.set_collection_pointer
      Links.set_collection_pointer_with_options Links.set_parent_asset
      Links.set_parent_asset_with_options
  execute-Outcome tx (Call.initialize a) w w' h = aside (I.initialize-Aside rt tx a w w' h)
  execute-Outcome tx (Call.register a uri) w w' h =
      opened (I.register_inner-Open rt tx a uri true w w' h)
  execute-Outcome tx (Call.register_with_options a uri atom) w w' h =
      opened (I.register_inner-Open rt tx a uri atom w w' h)
  execute-Outcome tx (Call.enable_atom a) w w' h = touched (I.enable_atom-Touch rt tx a w w' h)
  execute-Outcome tx (Call.set_metadata_pda a key_hash key value immutable) w w' h =
      aside (I.set_metadata_pda-Aside rt tx a key_hash key value immutable w w' h)
  execute-Outcome tx (Call.delete_metadata_pda a key_hash) w w' h =
      aside (I.delete_metadata_pda-Aside rt tx a key_hash w w' h)
  execute-Outcome tx (Call.set_agent_uri a uri) w w' h =
      touched (I.set_agent_uri-Touch rt tx a uri w w' h)
  execute-Outcome tx (Call.sync_owner a) w w' h = I.sync_owner-Outcome rt tx a w w' h
  execute-Outcome tx (Call.owner_of a) w w' h =
      >>=-elim _ _ h λ owner read h1. same_world w w' (ok-injective h1)
  execute-Outcome tx (Call.core_owner_of a) w w' h =
      >>=-elim _ _ h λ owner read h1. same_world w w' (ok-injective h1)
  execute-Outcome tx (Call.transfer_agent a) w w' h =
      touched (I.transfer_agent-Touch rt tx a w w' h)
  execute-Outcome tx (Call.set_agent_wallet a wallet deadline) w w' h =
      touched (I.set_agent_wallet-Touch rt tx a wallet deadline w w' h)
  execute-Outcome tx (Call.set_collection_pointer a col) w w' h =
      touched (I.set_collection_pointer_inner-Touch rt tx a col true w w' h)
  execute-Outcome tx (Call.set_collection_pointer_with_options a col lock) w w' h =
      touched (I.set_collection_pointer_inner-Touch rt tx a col lock w w' h)
  execute-Outcome tx (Call.set_parent_asset a parent_asset) w w' h =
      touched (I.set_parent_asset_inner-Touch rt tx a parent_asset true w w' h)
  execute-Outcome tx (Call.set_parent_asset_with_options a parent_asset lock) w w' h =
      touched (I.set_parent_asset_inner-Touch rt tx a parent_asset lock w w' h)
  execute-Outcome tx (Call.give_feedback a c) w w' h =
      touched (H.give_feedback-Touch rt tx a c w w' h)
  execute-Outcome tx (Call.revoke_feedback a index seal) w w' h =
      touched (H.revoke_feedback-Touch rt tx a index seal w w' h)
  execute-Outcome tx (Call.append_response a client index uri hash seal) w w' h =
      touched (H.append_response-Touch rt tx a client index uri hash seal w w' h)

  settle-Outcome :
      (r : Result (World rt.Ext)) (w : World rt.Ext)
      → ((w' : World rt.Ext) → r ≡ ok w' → Outcome rt w w')
      → Outcome rt w (settle rt r w)
  settle-Outcome (ok w') w h = h w' refl
  settle-Outcome (err e) w h = same_world w w refl

  -- An instruction that fails has an outcome too.
  pub process-Outcome :
      (tx : Tx) (call : Call) (w : World rt.Ext) → Outcome rt w (process rt tx call w)
  unfolding process
  process-Outcome tx call w = settle-Outcome (execute rt tx call w) w (execute-Outcome tx call w)
