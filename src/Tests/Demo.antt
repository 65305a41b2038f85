-- ===== src/Tests/Demo.antt =====
-- A small runtime: hashes that only measure, addresses that are polynomials in the seeds, and Metaplex
-- Core as a list of assets with their owners.
use solana.Prelude.{
  ℕ, ◌+◌, ◌*◌, ◌%◌, ◌^◌, true, Option, none, some, List, [], ◌∷◌, ◌++◌, Bytes, Pubkey, ascii,
  key_bytes, length, replicate,
}
use solana.Prelude.Int.{pos}
use solana.Seal.{Content}
use solana.Registry.Error.{Result, ok, err}
use solana.Registry.Accounts.{Accounts, lookup, insert}
use solana.Registry.Runtime.{Runtime, Tx}
use solana.Registry.State.{AgentAccount}
use solana.Registry.World.{World}
use solana.Registry.Identity.{
  Initialize, Register, AgentAccounts, MetadataAccounts, TransferAgent, build_wallet_set_message,
}
use solana.Registry.Reputation.{GiveFeedback, RevokeFeedback, AppendResponse}

abbrev pub measure : Bytes → Bytes
measure x = replicate 32 (length x % 256)

abbrev digits : ℕ → Bytes → ℕ
digits acc [] = acc
digits acc (b ∷ bs) = digits ((acc * 257 + b) % 2 ^ 60) bs

abbrev seeds_number : ℕ → List Bytes → ℕ
seeds_number acc [] = acc
seeds_number acc (s ∷ seeds) = seeds_number (digits (acc + 1) s) seeds

abbrev but_last : List Bytes → List Bytes
but_last [] = []
but_last (s ∷ []) = []
but_last (s ∷ t ∷ seeds) = s ∷ but_last (t ∷ seeds)

abbrev pub address : List Bytes → Pubkey
address seeds = seeds_number 1 seeds

abbrev pub runtime : Runtime
runtime = record {
  keccak = measure;
  sha256 = measure;
  find_program_address = λ seeds program. (address seeds, 255);
  create_program_address = λ seeds program. some (address (but_last seeds));
  program_id = 1001;
  mpl_core_id = 1002;
  atom_engine_id = 1003;
  ed25519_program_id = 1004;
  bpf_loader_upgradeable_id = 1005;
  Ext = Accounts Pubkey;
  account_program = λ ext key. 1002;
  data_len = λ ext key. 0;
  parse_asset_owner = λ ext key. lookup key ext;
  upgrade_authority = λ ext key. some (some 9);
  create_collection = λ args ext. some ext;
  create_asset = λ args ext. some (insert args.asset args.owner ext);
  update_asset = λ args ext. some ext;
  transfer_asset = λ args ext. some (insert args.asset args.new_owner ext);
  update_stats = λ args hash score ext. none;
  revoke_stats = λ args client ext. none;
}

abbrev pub asset : Pubkey
asset = 11

abbrev pub owner : Pubkey
owner = 12

abbrev pub client : Pubkey
client = 13

abbrev pub wallet : Pubkey
wallet = 14

abbrev pub agent_account : Pubkey
agent_account = address (ascii "agent" ∷ key_bytes asset ∷ [])

-- One signature of `text` by the wallet.
abbrev pub ed25519_data : Bytes → Bytes
ed25519_data text =
    1
    ∷ 0
    ∷ 48
    ∷ 0
    ∷ 255
    ∷ 255
    ∷ 16
    ∷ 0
    ∷ 255
    ∷ 255
    ∷ 112
    ∷ 0
    ∷ 120
    ∷ 0
    ∷ 255
    ∷ 255
    ∷ (key_bytes wallet ++ (replicate 64 0 ++ text))

abbrev pub tx : Tx
tx = record {
  signers = λ key. true;
  slot = 77;
  unix_timestamp = pos 1000;
  instructions =
      (record {
        program_id = 1004;
        data_bytes = ed25519_data (build_wallet_set_message asset wallet owner (pos 1200));
      })
      ∷ (record { program_id = 1001; data_bytes = [] })
      ∷ [];
  current_index = some 1;
}

abbrev pub genesis : World runtime.Ext
genesis = record {
  root_configs = [];
  registry_configs = [];
  agents = [];
  metadata = [];
  ext = [];
  log = [];
}

abbrev pub initialize : Initialize
initialize = record {
  root_config = address (ascii "root_config" ∷ []);
  registry_config = address (ascii "registry_config" ∷ key_bytes 7 ∷ []);
  collection = 7;
  authority = 9;
  program_data = address (key_bytes 1001 ∷ []);
}

abbrev pub register : Register
register = record {
  root_config = address (ascii "root_config" ∷ []);
  registry_config = address (ascii "registry_config" ∷ key_bytes 7 ∷ []);
  agent_account = agent_account;
  asset = asset;
  collection = 7;
  owner = owner;
}

abbrev pub feedback : GiveFeedback
feedback = record {
  client = client;
  agent_account = agent_account;
  asset = asset;
  collection = 7;
  atom_config = none;
  atom_stats = none;
  atom_engine_program = none;
  registry_authority = none;
}

abbrev pub content : Content
content = record {
  value = pos 9977;
  value_decimals = 2;
  score = some 85;
  feedback_file_hash = none;
  tag1 = ascii "uptime";
  tag2 = ascii "day";
  endpoint = [];
  feedback_uri = ascii "ipfs://f";
}

abbrev pub revocation : RevokeFeedback
revocation = record {
  client = client;
  agent_account = agent_account;
  asset = asset;
  atom_config = none;
  atom_stats = none;
  atom_engine_program = none;
  registry_authority = none;
}

abbrev pub response : AppendResponse
response = record { responder = owner; agent_account = agent_account; asset = asset }

abbrev pub owned : AgentAccounts
owned = record { agent_account = agent_account; asset = asset; owner = owner }

abbrev pub transfer : TransferAgent
transfer = record {
  agent_account = agent_account;
  asset = asset;
  collection = 7;
  owner = owner;
  new_owner = 15;
}

abbrev pub entry_key : Bytes
entry_key = ascii "name"

abbrev pub metadata_entry : Pubkey
metadata_entry = address (ascii "agent_meta" ∷ key_bytes asset ∷ replicate 16 4 ∷ [])

abbrev pub metadata : MetadataAccounts
metadata = record {
  metadata_entry = metadata_entry;
  agent_account = agent_account;
  asset = asset;
  owner = owner;
}

-- The state after a step of a test.
abbrev pub after : Result (World runtime.Ext) → World runtime.Ext
after (ok w) = w
after (err e) = genesis

abbrev pub agent_of : Option AgentAccount → AgentAccount → AgentAccount
agent_of none g = g
agent_of (some g) h = g
