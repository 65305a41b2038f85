-- ===== src/Tests/Network.antt =====
-- A small network for the scripts: its state is the number of calls so far, every call is answered, and
-- every account has as many lamports as its key.
use solana.Prelude.{ℕ, ◌+◌, ◌*◌, none, some, [], ◌∷◌, le_bytes, replicate}
use solana.Script.{Network, State, TransactionMeta}
use solana.Helpers.Addresses.{client_of}
use solana.Measure.{Programs, Setup}
use solana.Tests.Demo as D

abbrev pub transaction : TransactionMeta
transaction = record { fee = 5000; post_balances = 50 ∷ []; compute_units_consumed = some 10 }

abbrev pub network : Network
network = record {
  Net = ℕ;
  rpc = λ request net. (some (net ∷ []), net + 1);
  confirm_transaction = λ signature net. (some tt, net + 1);
  get_transaction = λ signature net. (some (some (some transaction)), net + 1);
  get_balance = λ key net. (some key, net + 1);
  request_airdrop = λ key lamports net. (some (net ∷ []), net + 1);
  get_account_info = λ key net. (some (some (replicate 97 0)), net + 1);
  fetch_registry_config =
      λ key net. (some (record { authority = 9; collection_mint = 7 }), net + 1);
  fetch_agent_id = λ key net. (some 3, net + 1);
}

abbrev pub programs : Programs
programs = record {
  identity = 1001;
  reputation = 1002;
  validation = 1003;
  system_program = 1004;
  token_program = 1005;
  associated_token_program = 1006;
  token_metadata_program = 1007;
  rent = 1008;
  sysvar_instructions = 1009;
}

-- A setup on a network with the calls of the one above, or others.
abbrev pub setup_on : (n : Network) → Setup
setup_on n = record {
  web3 = client_of D.runtime (le_bytes 8);
  network = n;
  programs = programs;
  wallet = 100000009;
  authority = 10;
  agent_owner = 11;
  client = 12;
  validator = 13;
  collection_mint = 14;
  agent_mint = 15;
  associated_address = λ mint owner. mint + owner * 1000;
  to_array = λ value width. le_bytes width value;
  to_base58 = λ key. key ∷ [];
  sign_detached = λ message key. key ∷ message;
  date_now = λ net. 1700000000000;
  iso_string = λ now. [];
  to_string = λ fraction. [];
  provider_url = none;
  write_json = λ report net. (some tt, net);
  write_csv = λ lines net. (some tt, net);
}

abbrev pub setup : Setup
setup = setup_on network

abbrev pub start : {Cost : Type 0} → State ℕ Cost
start = record { net = 0; sent = []; costs = [] }
