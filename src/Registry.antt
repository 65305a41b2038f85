-- ===== src/Registry.antt =====
-- The on-chain program programs/agent-registry-8004: its accounts, its events and its handlers.
pub mod Error
pub mod State
pub mod Accounts
pub mod Runtime
pub mod World
pub mod Replay
pub mod History
pub mod Reputation
pub mod Identity
pub mod Loads
pub mod Effect
pub mod Program
pub mod Guards
