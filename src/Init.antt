-- ===== src/Init.antt =====
-- The scripts that initialise a registry: scripts/init-devnet.ts for this program, and
-- scripts/initialize-devnet.ts for the identity registry of an earlier layout.
pub mod Registry
pub mod Program
pub mod Identity
