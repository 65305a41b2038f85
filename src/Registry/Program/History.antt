-- ===== src/Registry/Program/History.antt =====
-- The program of programs/agent-registry-8004/src/lib.rs refines the histories of its assets: each
-- instruction is a step of a history, or none.
use solana.Prelude.{◌≡◌, ◌⊎◌}
use solana.Registry.Runtime.{Runtime}
use solana.Registry.World.{World}
use solana.Registry.Replay.{revoke as revoke_kind}
use solana.Registry.History.{History, Step, revoke}

-- No step, or one.
abbrev pub Refines : History → History → Type 0
Refines h h' = (h' ≡ h) ⊎ Step h h'
