-- ===== src/Tests/Client.antt =====
-- The client's helpers at concrete inputs.
use solana.Prelude.{◌≡◌, ◌↔◌, refl, true, none, ascii, le_bytes, arith}
use solana.Prelude.Int.{pos}
use solana.Registry.Error.{ok}
use solana.Registry.World.{seeds_canonical, agent_seeds, metadata_seeds, registry_seeds, root_seeds}
use solana.Registry.Identity.{build_wallet_set_message, validate_collection_pointer}
use solana.Registry.Identity.Metadata.{key_hash_of}
use solana.Registry.Guards.Pointer.{IsPointer, validate_collection_pointer-IsPointer}
use solana.Helpers.{
  Web3, wallet_set_message, compute_key_hash, get_root_config_pda, get_registry_config_pda,
  get_agent_pda, get_metadata_entry_pda,
}
use solana.Helpers.Addresses.{client_of, client_addresses_accepted}
use solana.Helpers.Message.{client_message, build_wallet_set_message_inj}
use solana.Helpers.Expect.{
  resolved, rejected, includes, new_error, expect_error, expect_error-cases,
}
use solana.Tests.Demo as D

abbrev web3 : Web3
web3 = client_of D.runtime (le_bytes 8)

client_message_example :
    wallet_set_message web3 D.asset D.wallet D.owner 1200
    ≡ build_wallet_set_message D.asset D.wallet D.owner (pos 1200)
client_message_example =
    client_message web3 (λ n h. refl) D.asset D.wallet D.owner 1200 (omega arith)

build_wallet_set_message_inj_example :
    (D.asset ≡ D.asset) × (D.wallet ≡ D.wallet) × (D.owner ≡ D.owner) × (pos 1200 ≡ pos 1200)
build_wallet_set_message_inj_example =
    build_wallet_set_message_inj D.asset D.asset D.wallet D.wallet D.owner D.owner (pos 1200)
      (pos 1200) (omega arith) (omega arith) (omega arith) (omega arith) (omega arith) (omega arith)
      (omega arith) (omega arith) refl

client_addresses_accepted_example :
    (seeds_canonical D.runtime root_seeds (get_root_config_pda web3 1001).0
      ≡ ok (get_root_config_pda web3 1001).1)
    × (seeds_canonical D.runtime (registry_seeds 7) (get_registry_config_pda web3 7 1001).0
        ≡ ok (get_registry_config_pda web3 7 1001).1)
    × (seeds_canonical D.runtime (agent_seeds D.asset) (get_agent_pda web3 D.asset 1001).0
        ≡ ok (get_agent_pda web3 D.asset 1001).1)
    × (seeds_canonical D.runtime
          (metadata_seeds D.asset (key_hash_of D.runtime D.entry_key))
          (get_metadata_entry_pda web3 D.asset (compute_key_hash web3 D.entry_key) 1001).0
        ≡ ok (get_metadata_entry_pda web3 D.asset (compute_key_hash web3 D.entry_key) 1001).1)
    × (compute_key_hash web3 D.entry_key ≡ key_hash_of D.runtime D.entry_key)
client_addresses_accepted_example =
    client_addresses_accepted D.runtime (le_bytes 8) D.asset 7 D.entry_key

expect_error-cases_example :
    (expect_error resolved (ascii "UriTooLong") ≡ none)
    × ((expect_error (rejected (new_error (ascii "UriTooLong"))) (ascii "UriTooLong") ≡ none)
        ↔ (includes (ascii "UriTooLong") (new_error (ascii "UriTooLong")).text ≡ true))
expect_error-cases_example =
    expect_error-cases (ascii "UriTooLong") (new_error (ascii "UriTooLong"))

validate_collection_pointer-IsPointer_example :
    (validate_collection_pointer (ascii "c1:abc") ≡ ok tt) ↔ IsPointer (ascii "c1:abc")
validate_collection_pointer-IsPointer_example =
    validate_collection_pointer-IsPointer (ascii "c1:abc")
