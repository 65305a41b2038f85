-- ===== src/Tests/Init.antt =====
-- The scripts that initialise a registry, on a small runtime and a small network.
use solana.Prelude.{◌+◌, ◌≡◌, refl, none, some, [], Pubkey, le_bytes, replicate, arith}
use solana.Script.{Network}
use solana.Registry.Accounts.{lookup}
use solana.Registry.World.{World}
use solana.Init.Registry.{accounts}
use solana.Init.Registry as Script
use solana.Init.Program.{setup_of, main-initializes, main-again}
use solana.Init.Identity.Cases.{Existing, main-Existing}
use solana.Tests.Demo as D
use solana.Tests.Network.{network, setup_on, start}
use solana.Tests.Registry.{w1, facts}
use solana.Deploy.{get_root_config_pda, get_registry_config_pda}

-- The network on which the configuration cannot be fetched.
abbrev mute : Network
mute = record network { fetch_registry_config = λ key net. (none, net + 1) }

main-Existing_example : Existing (setup_on mute) start 100000009 (replicate 97 0) 1 2 3 none
main-Existing_example =
    main-Existing (setup_on mute) start 100000009 (replicate 97 0) 1 2 3 none (omega arith) refl
      refl refl refl

nothing : {V : Type 0} (key : Pubkey) → lookup {V = V} key [] ≡ none
unfolding lookup
nothing key = refl

abbrev script : Script.Setup
script = setup_of D.runtime D.tx [] (le_bytes 8) 9 7

main-initializes_example :
    (w' : World D.runtime.Ext) × (Script.main script D.genesis ≡ (0, w'))
    × (lookup (accounts script).root_config w'.root_configs
        ≡ some (record {
          base_collection = 7;
          authority = 9;
          bump = (get_root_config_pda script.web3 1001).1;
        }))
    × (lookup (accounts script).registry_config w'.registry_configs
        ≡ some (record {
          collection = 7;
          authority = 9;
          bump = (get_registry_config_pda script.web3 7 1001).1;
        }))
main-initializes_example =
    main-initializes D.runtime D.tx [] (le_bytes 8) 9 7 D.genesis [] refl refl refl
      (nothing (accounts script).root_config) (nothing (accounts script).registry_config) refl

-- The address that the script computes is the one of the run.
root_w1 :
    lookup (accounts script).root_config w1.root_configs
    ≡ some (record { base_collection = 7; authority = 9; bump = 255 })
unfolding accounts get_root_config_pda
root_w1 = facts.root_w1

main-again_example : Script.main script w1 ≡ (1, w1)
main-again_example =
    main-again D.runtime D.tx [] (le_bytes 8) 9 7 w1
      (record { base_collection = 7; authority = 9; bump = 255 }) root_w1
