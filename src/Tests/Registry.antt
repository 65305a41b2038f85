-- ===== src/Tests/Registry.antt =====
-- Runs of the on-chain program: the theorems at concrete states.
use solana.Prelude.{
  ℕ, ◌+◌, ◌%◌, ◌≤◌, ◌<◌, ◌^◌, ◌≡◌, ◌≢◌, ◌⊎◌, refl, true, false, none, some, [], ◌∷◌, Bytes, Pubkey,
  ascii, key_bytes, le_bytes, length, length-replicate, replicate, Collision, ◌==◌, arith,
  if◌then◌else◌,
}
use solana.Prelude.Int.{pos, ◌≤ℤ◌}
use solana.Chain.{chain_digest, zero_digest, domain_feedback, domain_revoke}
use solana.Registry.Error.{Result, ok}
use solana.Registry.State.{AgentAccount, MetadataEntryPda}
use solana.Registry.Runtime.{add_i64}
use solana.Registry.World.{World, get_core_owner, agent_seeds}
use solana.Registry.Accounts.{lookup, insert}
use solana.Registry.Replay.{
  Kind, feedback, response, revoke, digest_of, count_of, domain_of, leaves,
}
use solana.Registry.History.{indices, view, feedbacks}
use solana.Registry.Effect.{agent_pda}
use solana.Registry.Identity.{
  SetParentAsset, build_wallet_set_message, max_deadline_window, Register,
}
use solana.Registry.Identity.Handlers
use solana.Registry.Identity.Handlers.{new_agent}
use solana.Registry.Identity.Ownership
use solana.Registry.Identity.Links
use solana.Registry.Reputation.Handlers as Feedback
use solana.Registry.Program.{process, Reaches, start, instruction, outside, Call}
use solana.Registry.Program.Replay.{digest_replayed, count_replayed, digest_determines_history}
use solana.Registry.Program.Life.{
  agent_persists, locked_collection_pointer, locked_parent, immutable_metadata,
}
use solana.Registry.Guards.Feedback.{Limits, give_feedback-guarded}
use solana.Registry.Guards.Wallet.{Precedes, set_agent_wallet-guarded}
use solana.Registry.Guards.Ownership.{sync_owner-synced, transfer_agent-transferred}
use solana.Registry.Guards.Pointer.{IsPointer, set_collection_pointer_inner-guarded}
use solana.Tests.Demo as D

abbrev pub World1 : Type 0
World1 = World D.runtime.Ext

abbrev pub step : Call → World1 → World1
step call w = process D.runtime D.tx call w

abbrev pub zeros : Bytes
zeros = replicate 32 0

abbrev second_account : Pubkey
second_account = D.address (ascii "agent" ∷ key_bytes 21 ∷ [])

abbrev parent : SetParentAsset
parent = record {
  agent_account = D.agent_account;
  asset = D.asset;
  parent_agent_account = second_account;
  parent_asset_account = 21;
  owner = D.owner;
}

abbrev pub blank : AgentAccount
blank = new_agent D.runtime D.tx D.register [] false 0

abbrev pub agent_in : World1 → AgentAccount
agent_in w = D.agent_of (lookup D.agent_account w.agents) blank

abbrev pub w1 : World1
w1 = step (Call.initialize D.initialize) D.genesis

abbrev pub w2 : World1
w2 = step (Call.register_with_options D.register (ascii "ipfs://a") false) w1

abbrev pub w3 : World1
w3 = step (Call.give_feedback D.feedback D.content) w2

abbrev w4 : World1
w4 = step (Call.revoke_feedback D.revocation 0 zeros) w3

abbrev w5 : World1
w5 = step (Call.append_response D.response D.client 0 (ascii "ipfs://r") zeros zeros) w4

abbrev w6 : World1
w6 = step (Call.set_collection_pointer D.owned (ascii "c1:abc")) w5

abbrev w7 : World1
w7 = step (Call.set_metadata_pda D.metadata (replicate 16 4) D.entry_key (ascii "x") true) w6

abbrev w8 : World1
w8 = step (Call.set_agent_wallet D.owned D.wallet (pos 1200)) w7

abbrev w9 : World1
w9 = step (Call.transfer_agent D.transfer) w8

abbrev v2 : World1
v2 = step (Call.register D.register (ascii "ipfs://a")) w1

abbrev v3 : World1
v3 =
    step
      (Call.register_with_options (record D.register { asset = 21; agent_account = second_account })
        (ascii "ipfs://b") false)
      v2

abbrev v4 : World1
v4 = step (Call.set_parent_asset parent 21) v3

abbrev v5 : World1
v5 = step (Call.set_collection_pointer_with_options D.owned (ascii "c1:zz") false) v4

abbrev w9_sold : World1
w9_sold = record w8 { ext = insert D.asset 15 w8.ext }

abbrev w10 : World1
w10 = step (Call.sync_owner D.owned) w9_sold

abbrev entry_in : World1 → MetadataEntryPda
entry_in w = elim (lookup D.metadata_entry w.metadata) [
  | some entry ↦ entry
  | none ↦ record { asset = 0; immutable = false; bump = 0; metadata_key = []; metadata_value = [] }
]

-- What the runs give.
pub record Facts : Type 0 where
  pub found_w2 : lookup D.agent_account w2.agents ≡ some (agent_in w2)
  pub found_w3 : lookup D.agent_account w3.agents ≡ some (agent_in w3)
  pub found_w6 : lookup D.agent_account w6.agents ≡ some (agent_in w6)
  pub found_v2 : lookup D.agent_account v2.agents ≡ some (agent_in v2)
  pub found_v4 : lookup D.agent_account v4.agents ≡ some (agent_in v4)
  pub entry_w7 : lookup D.metadata_entry w7.metadata ≡ some (entry_in w7)
  pub immutable_w7 : (entry_in w7).immutable ≡ true
  pub asset_w7 : (entry_in w7).asset ≡ 11
  pub locked_w6 : (agent_in w6).col_locked ≡ true
  pub parent_v4 : (agent_in v4).parent_locked ≡ true
  pub atom_v2 : (agent_in v2).atom_enabled ≡ true
  pub root_w1 :
      lookup D.initialize.root_config w1.root_configs
      ≡ some (record { base_collection = 7; authority = 9; bump = 255 })
  pub ran_w2 : Handlers.register_inner D.runtime D.tx D.register (ascii "ipfs://a") false w1 ≡ ok w2
  pub owner_w2 : get_core_owner D.runtime w2.ext D.asset ≡ ok D.owner
  pub plain_w3 : (agent_in w3).atom_enabled ≡ false
  pub revoke_room_w3 : (agent_in w3).revoke_count + 1 < 2 ^ 64
  pub one_feedback_w3 : 0 < feedbacks (view (agent_in w3).asset w3.log)
  pub indices_w3 : indices (view D.asset w3.log) ≡ 0 ∷ []
  pub ran_w3 : Feedback.give_feedback D.runtime D.tx D.feedback D.content w2 ≡ ok w3
  pub ran_w4 : Feedback.revoke_feedback D.runtime D.tx D.revocation 0 zeros w3 ≡ ok w4
  pub ran_w5 :
      Feedback.append_response D.runtime D.tx D.response D.client 0
        (ascii "ipfs://r")
        zeros
        zeros
        w4
      ≡ ok w5
  pub ran_w6 :
      Links.set_collection_pointer_inner D.runtime D.tx D.owned (ascii "c1:abc") true w5 ≡ ok w6
  pub ran_w8 : Ownership.set_agent_wallet D.runtime D.tx D.owned D.wallet (pos 1200) w7 ≡ ok w8
  pub ran_w9 : Ownership.transfer_agent D.runtime D.tx D.transfer w8 ≡ ok w9
  pub ran_w10 : Ownership.sync_owner D.runtime D.tx D.owned w9_sold ≡ ok w10

pub facts : Facts
unfolding le_bytes solana.Chain.plain_leaf_data solana.Chain.response_leaf_data
    solana.Chain.revoke_leaf_data solana.Chain.link_data solana.Chain.compute_feedback_leaf
    solana.Chain.compute_response_leaf solana.Chain.compute_revoke_leaf solana.Chain.chain_hash
    solana.Chain.chain_digest solana.Seal.encode_score solana.Seal.encode_file_hash
    solana.Seal.encode_string solana.Seal.seal_data solana.Seal.feedback_leaf_data
    solana.Seal.compute_seal_hash solana.Seal.compute_feedback_leaf_v1
    solana.Registry.Runtime.add_i64 solana.Registry.Identity.build_wallet_set_message
    solana.Registry.Identity.starts_with solana.Registry.Identity.is_cid_char
    solana.Registry.Identity.all_cid_chars solana.Registry.Identity.is_empty
    solana.Registry.Identity.validate_collection_pointer solana.Registry.Reputation.check_score
    solana.Registry.Reputation.check_content solana.Registry.Reputation.filter_score
    solana.Registry.Reputation.check_authority solana.Registry.Reputation.atom_initialized
    solana.Registry.Reputation.update_atom solana.Registry.Reputation.revoke_atom
    solana.Registry.Program.execute solana.Registry.Program.process
    solana.Registry.World.checked_suc_u64 solana.Registry.World.get_core_owner
    solana.Registry.World.verify_core_owner solana.Registry.World.seeds_with_bump
    solana.Registry.World.seeds_canonical solana.Registry.World.check_agent
    solana.Registry.Replay.leaves solana.Registry.History.view solana.Registry.Accounts.lookup
    solana.Registry.Accounts.insert solana.Registry.Accounts.erase solana.Registry.Error.◌>>=◌
    solana.Registry.Error.require solana.Registry.Error.constraint solana.Registry.Error.ok_or
    solana.Registry.Reputation.Handlers.feedback_leaf
    solana.Registry.Reputation.Handlers.load_feedback
    solana.Registry.Reputation.Handlers.give_feedback
    solana.Registry.Reputation.Handlers.load_revocation
    solana.Registry.Reputation.Handlers.revoke_feedback
    solana.Registry.Reputation.Handlers.load_response
    solana.Registry.Reputation.Handlers.append_response
    solana.Registry.Identity.Handlers.load_initialize solana.Registry.Identity.Handlers.initialize
    solana.Registry.Identity.Handlers.load_register solana.Registry.Identity.Handlers.register_inner
    solana.Registry.Identity.Handlers.register
    solana.Registry.Identity.Handlers.register_with_options
    solana.Registry.Identity.Handlers.load_owned solana.Registry.Identity.Ownership.set_agent_uri
    solana.Registry.Identity.Ownership.sync_owner solana.Registry.Identity.Ownership.owner_of
    solana.Registry.Identity.Ownership.core_owner_of
    solana.Registry.Identity.Ownership.transfer_agent
    solana.Registry.Identity.Ownership.set_agent_wallet
    solana.Registry.Identity.Ownership.enable_atom
    solana.Registry.Identity.Links.set_collection_pointer_inner
    solana.Registry.Identity.Links.set_collection_pointer
    solana.Registry.Identity.Links.set_collection_pointer_with_options
    solana.Registry.Identity.Links.load_parent solana.Registry.Identity.Links.set_parent_asset_inner
    solana.Registry.Identity.Links.set_parent_asset
    solana.Registry.Identity.Links.set_parent_asset_with_options
    solana.Registry.Identity.Metadata.entry_or_empty
    solana.Registry.Identity.Metadata.check_existing solana.Registry.Identity.Metadata.load_metadata
    solana.Registry.Identity.Metadata.set_metadata_pda
    solana.Registry.Identity.Metadata.delete_metadata_pda
    solana.Registry.Identity.Signature.check_ed25519_data
    solana.Registry.Identity.Signature.verify_ed25519_signature
facts = record {
  found_w2 = refl;
  found_w3 = refl;
  found_w6 = refl;
  found_v2 = refl;
  found_v4 = refl;
  entry_w7 = refl;
  immutable_w7 = refl;
  asset_w7 = refl;
  locked_w6 = refl;
  parent_v4 = refl;
  atom_v2 = refl;
  root_w1 = refl;
  ran_w2 = refl;
  owner_w2 = refl;
  plain_w3 = refl;
  revoke_room_w3 = omega arith;
  one_feedback_w3 = omega arith;
  indices_w3 = refl;
  ran_w3 = refl;
  ran_w4 = refl;
  ran_w5 = refl;
  ran_w6 = refl;
  ran_w8 = refl;
  ran_w9 = refl;
  ran_w10 = refl;
}

pub reach_w3 : Reaches D.runtime D.genesis w3
reach_w3 =
    (instruction D.tx (Call.give_feedback D.feedback D.content) (
      instruction D.tx (Call.register_with_options D.register (ascii "ipfs://a") false)
        (instruction D.tx (Call.initialize D.initialize) start)))

reach_w9 : Reaches D.runtime w6 w9
reach_w9 =
    (instruction D.tx (Call.transfer_agent D.transfer) (
      instruction D.tx (Call.set_agent_wallet D.owned D.wallet (pos 1200)) (
        instruction D.tx
          (Call.set_metadata_pda D.metadata (replicate 16 4) D.entry_key (ascii "x") true) start)))

reach_v5 : Reaches D.runtime v4 v5
reach_v5 =
    (instruction D.tx (Call.set_collection_pointer_with_options D.owned (ascii "c1:zz") false)
      start)

reach_from_v2 : Reaches D.runtime v2 v5
reach_from_v2 =
    (instruction D.tx (Call.set_collection_pointer_with_options D.owned (ascii "c1:zz") false) (
      instruction D.tx (Call.set_parent_asset parent 21) (
        instruction D.tx
          (Call.register_with_options
            (record D.register { asset = 21; agent_account = second_account }) (ascii "ipfs://b")
            false)
          start)))

reach_from_w7 : Reaches D.runtime w7 w9
reach_from_w7 =
    (instruction D.tx (Call.transfer_agent D.transfer)
      (instruction D.tx (Call.set_agent_wallet D.owned D.wallet (pos 1200)) start))

reach_from_w2 : Reaches D.runtime w2 w9
reach_from_w2 =
    (instruction D.tx (Call.transfer_agent D.transfer) (
      instruction D.tx (Call.set_agent_wallet D.owned D.wallet (pos 1200)) (
        instruction D.tx
          (Call.set_metadata_pda D.metadata (replicate 16 4) D.entry_key (ascii "x") true)
          (instruction D.tx (Call.set_collection_pointer D.owned (ascii "c1:abc")) (
            instruction D.tx
              (Call.append_response D.response D.client 0 (ascii "ipfs://r") zeros zeros)
              (instruction D.tx (Call.revoke_feedback D.revocation 0 zeros)
                (instruction D.tx (Call.give_feedback D.feedback D.content) start)))))))

digest_replayed_example :
    digest_of feedback (agent_in w3)
    ≡ chain_digest D.measure
        (domain_of feedback)
        zero_digest
        (leaves D.measure feedback (agent_in w3).asset w3.log)
digest_replayed_example =
    digest_replayed D.runtime D.genesis w3 feedback D.agent_account (agent_in w3) (refl, refl)
      reach_w3 facts.found_w3

count_replayed_example :
    (count_of feedback (agent_in w3)
      ≡ length (leaves D.measure feedback (agent_in w3).asset w3.log))
    × (count_of feedback (agent_in w3) < 2 ^ 64)
    × (D.agent_account ≡ agent_pda D.runtime (agent_in w3).asset)
count_replayed_example =
    count_replayed D.runtime D.genesis w3 feedback D.agent_account (agent_in w3) (refl, refl)
      reach_w3 facts.found_w3

digest_determines_history_example :
    (leaves D.measure feedback (agent_in w3).asset w3.log
      ≡ leaves D.measure feedback (agent_in w3).asset w3.log)
    ⊎ Collision D.measure
digest_determines_history_example =
    digest_determines_history D.runtime (λ x. length-replicate {A = ℕ} 32 (length x % 256))
      D.genesis D.genesis w3 w3 feedback D.agent_account D.agent_account (agent_in w3) (agent_in w3)
      (refl, refl) (refl, refl) reach_w3 reach_w3 facts.found_w3 facts.found_w3 refl refl

agent_persists_example :
    (now : AgentAccount) × (lookup D.agent_account w9.agents ≡ some now)
    × (now.collection ≡ (agent_in w2).collection)
    × (now.creator ≡ (agent_in w2).creator)
    × (now.asset ≡ (agent_in w2).asset)
    × (now.bump ≡ (agent_in w2).bump)
    × (count_of feedback (agent_in w2) ≤ count_of feedback now)
agent_persists_example =
    agent_persists D.runtime D.agent_account (agent_in w2) w2 w9 feedback facts.found_w2
      reach_from_w2

locked_collection_pointer_example :
    (now : AgentAccount) × (lookup D.agent_account w9.agents ≡ some now)
    × (now.col_locked ≡ true)
    × (now.col ≡ (agent_in w6).col)
locked_collection_pointer_example =
    locked_collection_pointer D.runtime D.agent_account (agent_in w6) w6 w9 facts.found_w6
      facts.locked_w6 reach_w9

locked_parent_example :
    (now : AgentAccount) × (lookup D.agent_account v5.agents ≡ some now)
    × (now.parent_locked ≡ true)
    × (now.parent_asset ≡ (agent_in v4).parent_asset)
locked_parent_example =
    locked_parent D.runtime D.agent_account (agent_in v4) v4 v5 facts.found_v4 facts.parent_v4
      reach_v5

immutable_metadata_example : lookup D.metadata_entry w9.metadata ≡ some (entry_in w7)
immutable_metadata_example =
    immutable_metadata D.runtime D.metadata_entry (entry_in w7) w7 w9 facts.entry_w7
      facts.immutable_w7 (λ e. absurd (omega (arith, e, facts.asset_w7))) reach_from_w7

give_feedback-guarded_example :
    (agent : AgentAccount) × (owner : Pubkey) × (lookup D.agent_account w2.agents ≡ some agent)
    × (D.asset ≡ agent.asset)
    × (7 ≡ agent.collection)
    × (true ≡ true)
    × (get_core_owner D.runtime w2.ext D.asset ≡ ok owner)
    × (owner ≢ D.client)
    × Limits D.content
    × (agent.feedback_count + 1 < 2 ^ 64)
give_feedback-guarded_example =
    give_feedback-guarded D.runtime D.tx D.feedback D.content w2 w3 facts.ran_w3

set_agent_wallet-guarded_example :
    (agent : AgentAccount) × (lookup D.agent_account w7.agents ≡ some agent)
    × (D.asset ≡ agent.asset)
    × (lookup D.agent_account w8.agents
        ≡ some (record agent { owner = D.owner; agent_wallet = some D.wallet }))
    × (true ≡ true)
    × (get_core_owner D.runtime w7.ext D.asset ≡ ok D.owner)
    × (pos 1000 ≤ℤ pos 1200)
    × (pos 1200 ≤ℤ add_i64 (pos 1000) max_deadline_window)
    × Precedes D.runtime D.tx D.wallet
        (build_wallet_set_message D.asset D.wallet D.owner (pos 1200))
set_agent_wallet-guarded_example =
    set_agent_wallet-guarded D.runtime D.tx D.owned D.wallet (pos 1200) w7 w8 facts.ran_w8

transfer_agent-transferred_example :
    (agent : AgentAccount) × (lookup D.agent_account w8.agents ≡ some agent)
    × (D.asset ≡ agent.asset)
    × (D.runtime.transfer_asset
          (record {
            asset = D.asset;
            collection = 7;
            payer = D.owner;
            authority = D.owner;
            new_owner = 15;
          })
          w8.ext
        ≡ some w9.ext)
    × (lookup D.agent_account w9.agents ≡ some (record agent { owner = 15; agent_wallet = none }))
    × (get_core_owner D.runtime w8.ext D.asset ≡ ok D.owner)
    × (true ≡ true)
    × (D.owner ≢ 15)
transfer_agent-transferred_example =
    transfer_agent-transferred D.runtime D.tx D.transfer w8 w9 facts.ran_w9

sync_owner-synced_example :
    (agent : AgentAccount) × (live : Pubkey) × (lookup D.agent_account w9_sold.agents ≡ some agent)
    × (D.asset ≡ agent.asset)
    × (get_core_owner D.runtime w9_sold.ext D.asset ≡ ok live)
    × (lookup D.agent_account w10.agents
        ≡ some (record agent {
          owner = live;
          agent_wallet = if agent.owner == live then agent.agent_wallet else none;
        }))
sync_owner-synced_example = sync_owner-synced D.runtime D.tx D.owned w9_sold w10 facts.ran_w10

set_collection_pointer_inner-guarded_example :
    (agent : AgentAccount) × (lookup D.agent_account w5.agents ≡ some agent)
    × (lookup D.agent_account w6.agents
        ≡ some (record agent { col = ascii "c1:abc"; col_locked = true }))
    × (agent.col_locked ≡ false)
    × (D.owner ≡ agent.creator)
    × (true ≡ true)
    × IsPointer (ascii "c1:abc")
set_collection_pointer_inner-guarded_example =
    set_collection_pointer_inner-guarded D.runtime D.tx D.owned (ascii "c1:abc") true w5 w6
      facts.ran_w6
