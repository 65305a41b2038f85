-- ===== src/Tests/Scripts.antt =====
-- The scripts at concrete inputs.
use solana.Prelude.{
  ℕ, ◌+◌, ◌-◌, ◌*◌, ◌≤◌, ◌≡◌, inl, inr, refl, Bool, true, false, none, some, [], ◌∷◌, ascii,
  le_bytes, arith, All, ◌==◌, if◌then◌else◌, Bool-cases, List, ◌++◌, ltb, length, map, ◌⊎◌, Pubkey,
  ◌↔◌,
}
use solana.Helpers.Addresses.{client_of}
use solana.Helpers.Funds.{Bank, Transfer, IsPaying, return_funds, return_funds-balance, min_balance}
use solana.Helpers.Funding.{
  Provider, IsAtomic, fund_keypairs, funding, paid, paid-append, fund_keypairs-prefix,
}
use solana.Recover.{recover, recover-removes_file, finished}
use solana.Costs.{CostData, generate_report}
use solana.Costs.Bounds.{IsBounded, total, count_of, lamports_sum, generate_report-totals}
use solana.Deploy.{Cluster}
use solana.Deploy.Steps.{Setup, run_steps, write_steps}
use solana.Deploy.Steps.Check.{IsReadable}
use solana.Script.{done}
use solana.Deploy.Steps.Laws.{run_steps-deployed, run_steps-verified}
use solana.Prelude.{Option, Bytes}
use solana.Helpers.Wallets.{
  Keys, Wallets, WalletsFile, save_test_wallets, load_test_wallets, wallets_file_exists,
  delete_test_wallets, load_test_wallets-save_test_wallets,
}
use solana.Tests.Demo as D

-- A bank where the state is what the destination has, which pays 5 for a transaction; every other
-- account has 9000 lamports, and only account 2 can pay.
abbrev pays : Transfer → ℕ → Bool × ℕ
pays t s = if t.from_pubkey == 2 then (true, s + t.lamports - 5) else (false, s)

abbrev bank : Bank
bank = record {
  State = ℕ;
  balance = λ s key. s;
  get_balance = λ s key. if key == 1 then some s else some 9000;
  send = pays;
}

bank-IsPaying : IsPaying bank 1 5 (λ s. 0)
bank-IsPaying key lamports s h = elim (Bool-cases (key == 2)) [
  | inl same ↦ rw same (omega arith, omega arith, inr refl)
  | inr other ↦ rw other (omega arith, omega arith, inr refl)
]

return_funds-balance_example :
    (let out = return_funds bank 1 (2 ∷ 3 ∷ []) 100 in
      (100 + out.0 + 0 ≤ out.1 + 0 + 2 * 5) × (out.1 + 0 ≤ 100 + out.0 + 0))
return_funds-balance_example =
    return_funds-balance bank 1 5 (λ s. 0) bank-IsPaying (2 ∷ 3 ∷ []) 100
      ((λ e. absurd (omega (arith, e))), ((λ e. absurd (omega (arith, e))), tt))

-- A provider whose state is the transfers made, at most ten and one more batch.
abbrev makes : List Transfer → List Transfer → Bool × List Transfer
makes batch s = if ltb (length s) 10 then (true, s ++ batch) else (false, s)

abbrev purse : Provider
purse = record { State = List Transfer; balance = λ s key. paid key s; send_and_confirm = makes }

purse-IsAtomic : IsAtomic purse 1
purse-IsAtomic lamports keys s = elim (Bool-cases (ltb (length s) 10)) [
  | inl room ↦ inl (λ key other. rw room (paid-append key s _))
  | inr full ↦ inr (rw full refl, λ key other. rw full refl)
]

-- The second transaction throws.
abbrev twelve : List Pubkey
twelve = 2 ∷ 3 ∷ 4 ∷ 5 ∷ 6 ∷ 7 ∷ 8 ∷ 9 ∷ 10 ∷ 11 ∷ 12 ∷ 13 ∷ []

fund_keypairs-prefix_example :
    (let out = fund_keypairs purse 1 twelve 700 [] in
      (funded : List Pubkey) × (rest : List Pubkey) × (funded ++ rest ≡ twelve)
      × All (λ key. paid key out.1 ≡ 0 + paid key (map (funding 1 700) funded)) (2 ∷ 13 ∷ [])
      × ((out.0 ≡ false) ⊎ (rest ≡ [])))
fund_keypairs-prefix_example =
    fund_keypairs-prefix purse 1 700 twelve (2 ∷ 13 ∷ []) [] purse-IsAtomic
      ((λ e. absurd (omega (arith, e))), ((λ e. absurd (omega (arith, e))), tt))

recover-removes_file_example :
    recover bank 1 (some (2 ∷ 3 ∷ [])) 100 ≡ finished (9000 - min_balance) none 4095
recover-removes_file_example =
    recover-removes_file bank 1 2 3 9000 9000 100 4095 100 4095 4095 (omega arith) (omega arith)
      refl refl refl refl refl refl

abbrev cost : ℕ → CostData
cost n = record {
  operation = ascii "Register Agent";
  lamports = n;
  sol = record { numerator = n; denominator = 1000000000 };
  compute_units = 10;
  accounts = 11;
  data_size = some 200;
  timestamp = 0;
}

generate_report-totals_example :
    (let report = generate_report (ascii "url") (ascii "now") (cost 5 ∷ cost 6 ∷ []) in
      (total count_of report.operations ≡ report.total_operations)
      × (total lamports_sum report.operations ≡ report.total_lamports)
      × All IsBounded report.operations)
generate_report-totals_example =
    generate_report-totals (ascii "url") (ascii "now") (cost 5 ∷ cost 6 ∷ [])

-- A network is the number of accounts that are there; all or none.
abbrev cluster : Cluster
cluster = record {
  Net = Bool;
  exists_account = λ net key. net;
  fetch_atom_config = λ net key.
      if net then some (record { authority = 9; agent_registry_program = 1001 }) else none;
  fetch_root_config =
      λ net key. if net then some (record { authority = 9; base_registry = some 5 }) else none;
  fetch_registry_config = λ net key. if net then some 7 else none;
  fetch_validation_config = λ net key. if net then some 9 else none;
  send_initialize_config = λ args net. some true;
  send_initialize = λ args net. some true;
  send_initialize_validation_config = λ args net. some true;
  save_collection = λ key net. some net;
}

abbrev setup : Setup
setup = record {
  web3 = client_of D.runtime (le_bytes 8);
  cluster = cluster;
  program_id = 1001;
  atom_engine_id = 1003;
  loader = 1005;
  wallet = 9;
  collection = 7;
}

run_steps-deployed_example :
    ((run_steps setup (ascii "full") true).1 ≡ true)
    × ((run_steps setup (ascii "full") true ≡ (0, true)) ↔ IsReadable setup true)
run_steps-deployed_example = run_steps-deployed setup true (ascii "full") (refl, refl, refl)

run_steps-verified_example :
    (run_steps setup (ascii "full") false ≡ (0, true))
    ↔ ((write_steps setup (ascii "full") false ≡ done tt true) × IsReadable setup true)
run_steps-verified_example = run_steps-verified setup false (ascii "full") true refl

abbrev read_key : Bytes → Option ℕ
read_key [] = none
read_key (k ∷ bytes) = some k

abbrev keys : Keys
keys = record {
  Keypair = ℕ;
  secret_key = λ kp. kp ∷ [];
  public_key = λ kp. [];
  from_secret_key = read_key;
}

abbrev two_wallets : Wallets keys
two_wallets = (ascii "client", 5) ∷ (ascii "owner", 6) ∷ []

abbrev saved : Option WalletsFile
saved = some (save_test_wallets keys (ascii "now") two_wallets)

load_test_wallets-save_test_wallets_example :
    (wallets_file_exists keys saved ≡ true)
    × (load_test_wallets keys saved ≡ some two_wallets)
    × (wallets_file_exists keys (delete_test_wallets keys saved) ≡ false)
    × (load_test_wallets keys (delete_test_wallets keys saved) ≡ none)
load_test_wallets-save_test_wallets_example =
    load_test_wallets-save_test_wallets keys (λ kp. refl) (ascii "now") two_wallets saved refl
