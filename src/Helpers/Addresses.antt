-- ===== src/Helpers/Addresses.antt =====
-- The addresses that the helpers compute are those that the program asks for:
-- tests/utils/helpers.ts against the seeds in programs/agent-registry-8004/src.
use solana.Prelude.{ℕ, zero, suc, ◌≡◌, refl, ap, [], ◌∷◌, Bytes, Pubkey, take, ==_iff}
use solana.Registry.Error.{ok, ◌>>=◌, constraint}
use solana.Registry.Runtime.{Runtime}
use solana.Registry.World.{seeds_canonical, agent_seeds, metadata_seeds, registry_seeds, root_seeds}
use solana.Registry.Identity.Metadata.{key_hash_of}
use solana.Helpers.{
  Web3, get_root_config_pda, get_registry_config_pda, get_agent_pda, get_metadata_entry_pda,
  compute_key_hash,
}

-- The client calls the same two functions as the program.
abbrev pub client_of : Runtime → (ℕ → Bytes) → Web3
client_of rt to_array_like = record {
  find_program_address = rt.find_program_address;
  to_array_like = to_array_like;
  sha256 = rt.sha256;
}

take-take : (n : ℕ) (xs : Bytes) → take n (take n xs) ≡ take n xs
take-take zero xs = refl
take-take (suc n) [] = refl
take-take (suc n) (x ∷ xs) = ap (λ (r : Bytes). x ∷ r) (take-take n xs)

canonical :
    (rt : Runtime) (seeds : _)
    → seeds_canonical rt seeds (rt.find_program_address seeds rt.program_id).0
      ≡ ok (rt.find_program_address seeds rt.program_id).1
unfolding seeds_canonical constraint ◌>>=◌
canonical rt seeds =
    let same = (==_iff (rt.find_program_address seeds rt.program_id).0 _).1 refl in rw same refl

-- The addresses of the two configurations, of an agent and of a metadata entry that the helpers
-- compute pass the program's check of canonical addresses, the entry's with the hash that the
-- helpers compute of the key; that hash is the one that the program computes.
pub client_addresses_accepted :
    (rt : Runtime) (to_array_like : ℕ → Bytes) (asset collection : Pubkey) (key : Bytes)
    → (let web3 = client_of rt to_array_like in
        (seeds_canonical rt root_seeds (get_root_config_pda web3 rt.program_id).0
          ≡ ok (get_root_config_pda web3 rt.program_id).1)
        × (seeds_canonical rt
              (registry_seeds collection)
              (get_registry_config_pda web3 collection rt.program_id).0
            ≡ ok (get_registry_config_pda web3 collection rt.program_id).1)
        × (seeds_canonical rt (agent_seeds asset) (get_agent_pda web3 asset rt.program_id).0
            ≡ ok (get_agent_pda web3 asset rt.program_id).1)
        × (seeds_canonical rt
              (metadata_seeds asset (key_hash_of rt key))
              (get_metadata_entry_pda web3 asset (compute_key_hash web3 key) rt.program_id).0
            ≡ ok (get_metadata_entry_pda web3 asset (compute_key_hash web3 key) rt.program_id).1)
        × (compute_key_hash web3 key ≡ key_hash_of rt key))
unfolding get_root_config_pda get_registry_config_pda get_agent_pda get_metadata_entry_pda
    compute_key_hash
client_addresses_accepted rt to_array_like asset collection key = (
  canonical rt root_seeds,
  canonical rt (registry_seeds collection),
  canonical rt (agent_seeds asset),
  rw (take-take 16 (rt.sha256 key)) (canonical rt (metadata_seeds asset (take 16 (rt.sha256 key)))),
  refl,
)
