-- ===== src/Tests/Interface.antt =====
-- The interface of the ATOM engine at concrete inputs.
use solana.Prelude.{◌≡◌, some, [], ◌∷◌, All, ascii, le_bytes}
use solana.AtomIdl.{IdlInstruction}
use solana.AtomIdl.Instructions.{
  get_summary, initialize_config, initialize_stats, revoke_stats, update_config, update_stats,
}
use solana.AtomIdl.Laws.{interface_addresses, resolve}
use solana.Helpers.{get_atom_config_pda, get_atom_stats_pda}
use solana.Helpers.Addresses.{client_of}
use solana.Tests.Demo as D

interface_addresses_example :
    All
      (λ (ix : IdlInstruction).
        resolve
          (client_of D.runtime (le_bytes 8))
          1003
          (λ name. D.asset)
          (ascii "stats")
          ix.accounts
        ≡ some (get_atom_stats_pda (client_of D.runtime (le_bytes 8)) D.asset 1003))
      (get_summary ∷ initialize_stats ∷ revoke_stats ∷ update_stats ∷ [])
    × All
        (λ (ix : IdlInstruction).
          resolve
            (client_of D.runtime (le_bytes 8))
            1003
            (λ name. D.asset)
            (ascii "config")
            ix.accounts
          ≡ some (get_atom_config_pda (client_of D.runtime (le_bytes 8)) 1003))
        (initialize_config ∷ initialize_stats ∷ revoke_stats ∷ update_config ∷ update_stats ∷ [])
interface_addresses_example =
    interface_addresses (client_of D.runtime (le_bytes 8)) 1003 (λ name. D.asset)
