-- ===== src/Registry/Effect.antt =====
-- What one instruction can do to the agents and to the log: change one agent, open a new one, or
-- leave the agents alone.
pub mod Handled
pub mod Identity
use solana.Prelude.{
  ℕ, ◌+◌, ◌≡◌, ◌≢◌, Bool, true, default_key, List, [], ◌++◌, Bytes, Pubkey, length, some, none,
}
use solana.Chain.{zero_digest}
use solana.Registry.State.{AgentAccount, MetadataEntryPda, Event}
use solana.Registry.Accounts.{lookup, insert}
use solana.Registry.Runtime.{Runtime}
use solana.Registry.World.{World, agent_seeds}
use solana.Registry.Replay.{Kind, digest_of, count_of, leaves, Chained, Kept}

module _ (rt : Runtime) where
  -- The canonical address of the agent account of an asset.
  abbrev pub agent_pda : Pubkey → Pubkey
  agent_pda asset = (rt.find_program_address (agent_seeds asset) rt.program_id).0

  -- The bump that was found with it.
  abbrev pub agent_bump : Pubkey → ℕ
  agent_bump asset = (rt.find_program_address (agent_seeds asset) rt.program_id).1

  -- Events without a leaf.
  abbrev pub IsQuiet : List Event → Type 0
  IsQuiet events = (k : Kind) (asset : Pubkey) → leaves rt.keccak k asset events ≡ []

  -- One agent that was there has changed.
  pub record Touch (w w' : World rt.Ext) : Type 0 where
    pub key : Pubkey
    pub old : AgentAccount
    pub new : AgentAccount
    pub events : List Event
    pub found : lookup key w.agents ≡ some old
    pub stored : w'.agents ≡ insert key new w.agents
    pub logged : w'.log ≡ events ++ w.log
    pub metadata : w'.metadata ≡ w.metadata
    pub kept : Kept old new
    pub chained : Chained rt.keccak old new events

  -- One agent has been opened, with empty chains.
  pub record Open (w w' : World rt.Ext) : Type 0 where
    pub key : Pubkey
    pub new : AgentAccount
    pub events : List Event
    pub vacant : lookup key w.agents ≡ none
    pub at_pda : key ≡ agent_pda new.asset
    pub at_bump : new.bump ≡ agent_bump new.asset
    pub stored : w'.agents ≡ insert key new w.agents
    pub logged : w'.log ≡ events ++ w.log
    pub metadata : w'.metadata ≡ w.metadata
    pub digest : (k : Kind) → digest_of k new ≡ zero_digest
    pub count : (k : Kind) → count_of k new ≡ 0
    pub quiet : IsQuiet events

  -- An immutable metadata entry of a registered asset is still there as it was.
  abbrev pub KeepsImmutable : World rt.Ext → World rt.Ext → Type 0
  KeepsImmutable w w' =
      (key : Pubkey) (entry : MetadataEntryPda)
      → lookup key w.metadata ≡ some entry
      → entry.immutable ≡ true
      → entry.asset ≢ default_key
      → lookup key w'.metadata ≡ some entry

  -- No agent has changed.
  pub record Aside (w w' : World rt.Ext) : Type 0 where
    pub events : List Event
    pub stored : w'.agents ≡ w.agents
    pub logged : w'.log ≡ events ++ w.log
    pub quiet : IsQuiet events
    pub immutable : KeepsImmutable w w'

  pub data Outcome (w w' : World rt.Ext) : Type 0 where
    touched : Touch w w' → Outcome w w'
    opened : Open w w' → Outcome w w'
    aside : Aside w w' → Outcome w w'
