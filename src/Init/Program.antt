-- ===== src/Init/Program.antt =====
-- scripts/init-devnet.ts against the program: `initialize` of
-- programs/agent-registry-8004/src/identity/instructions.rs, called by the script.
use solana.Prelude.{
  ℕ, ◌≡◌, refl, Option, none, some, [], ◌∷◌, true, Bytes, Pubkey, ascii, key_bytes, ==_iff,
}
use solana.Script.{◌>>=◌ as then, return}
use solana.Registry.Error.{
  account_already_in_use, Result, ok, err, >>=-elim, >>-elim, ◌>>=◌, require, constraint, ok_or,
}
use solana.Registry.State.{RootConfig, registry_initialized}
use solana.Registry.Accounts.{Accounts, lookup, insert, lookup-insert_self}
use solana.Registry.Runtime.{Runtime, Tx, CreateCollection}
use solana.Registry.World.{World, seeds_canonical, root_seeds, registry_seeds}
use solana.Registry.Identity.Handlers.{absent, load_initialize, initialize}
use solana.Helpers.Addresses.{client_of}
use solana.Deploy.{get_root_config_pda, get_registry_config_pda, get_program_data_pda}
use solana.Init.Registry.{Connection, Setup, ask, accounts, steps, main}

vacant : {V : Type 0} (key : Pubkey) (m : Accounts V) → lookup key m ≡ none → absent key m ≡ ok tt
vacant key m h = rw (h, absent) refl

occupied :
    {V : Type 0} {x : Unit {0}} (key : Pubkey) (m : Accounts V) (held : V)
    → lookup key m ≡ some held
    → absent key m ≡ ok x
    → ⊥
occupied {V} {x} key m held h free =
    let e : err account_already_in_use ≡ ok x = rw (h, absent) at free in cc

module _ (rt : Runtime) (tx : Tx) (signature : Bytes) where
  -- An instruction that fails throws and leaves nothing behind.
  abbrev pub sent : Result (World rt.Ext) → World rt.Ext → Option Bytes × World rt.Ext
  sent (ok w') w = (some signature, w')
  sent (err e) w = (none, w)

  sent-err :
      (o : Result (World rt.Ext)) (w : World rt.Ext)
      → ((w' : World rt.Ext) → o ≡ ok w' → ⊥)
      → sent o w ≡ (none, w)
  sent-err (ok w') w h = absurd (h w' refl)
  sent-err (err e) w h = refl

  -- The network that runs the program, on which nothing else happens meanwhile.
  abbrev pub program_connection : Connection
  program_connection = record {
    Net = World rt.Ext;
    initialize = λ a w. sent (initialize rt tx a w) w;
    fetch_root_config = λ key w. (lookup key w.root_configs, w);
    fetch_registry_config = λ key w. (lookup key w.registry_configs, w);
  }

  -- The script with the program's own loader and functions.
  abbrev pub setup_of : (ℕ → Bytes) → Pubkey → Pubkey → Setup
  setup_of to_array_like wallet collection = record {
    web3 = client_of rt to_array_like;
    connection = program_connection;
    program_id = rt.program_id;
    loader = rt.bpf_loader_upgradeable_id;
    wallet = wallet;
    collection = collection;
  }

  module _ (to_array_like : ℕ → Bytes) (wallet collection : Pubkey) where
    abbrev s : Setup
    s = setup_of to_array_like wallet collection

    -- What `initialize` asks Metaplex Core for.
    abbrev pub new_collection : CreateCollection
    new_collection = record {
      collection = collection;
      payer = wallet;
      update_authority = (accounts s).registry_config;
      name = ascii "8004 Agent Registry";
      uri = [];
    }

    canonical :
        (seeds : _)
        → seeds_canonical rt seeds (rt.find_program_address seeds rt.program_id).0
          ≡ ok (rt.find_program_address seeds rt.program_id).1
    unfolding seeds_canonical constraint ◌>>=◌
    canonical seeds = rw ((==_iff (rt.find_program_address seeds rt.program_id).0 _).1 refl) refl

    loads :
        (w : World rt.Ext)
        → tx.signers wallet ≡ true
        → tx.signers collection ≡ true
        → rt.upgrade_authority w.ext (accounts s).program_data ≡ some (some wallet)
        → lookup (accounts s).root_config w.root_configs ≡ none
        → lookup (accounts s).registry_config w.registry_configs ≡ none
        → load_initialize rt tx (accounts s) w
          ≡ ok (
            (get_root_config_pda s.web3 rt.program_id).1,
            (get_registry_config_pda s.web3 collection rt.program_id).1,
          )
    unfolding load_initialize accounts get_root_config_pda get_registry_config_pda
        get_program_data_pda constraint ◌>>=◌ require ok_or
    loads w wallet_signs collection_signs authority root registry =
        rw
          (
            collection_signs,
            wallet_signs,
            authority,
            canonical root_seeds,
            vacant (accounts s).root_config w.root_configs root,
            canonical (registry_seeds collection),
            vacant (accounts s).registry_config w.registry_configs registry,
            (==_iff
                  (rt.find_program_address (key_bytes rt.program_id ∷ [])
                    rt.bpf_loader_upgradeable_id).0
                  _).1
                refl,
            (==_iff wallet wallet).1 refl,
          )
          refl

    -- The state after `initialize` of the script's accounts.
    abbrev after : World rt.Ext → rt.Ext → World rt.Ext
    after w ext = record w {
      root_configs =
          insert (accounts s).root_config
            (record {
              base_collection = collection;
              authority = wallet;
              bump = (get_root_config_pda s.web3 rt.program_id).1;
            })
            w.root_configs;
      registry_configs =
          insert (accounts s).registry_config
            (record {
              collection = collection;
              authority = wallet;
              bump = (get_registry_config_pda s.web3 collection rt.program_id).1;
            })
            w.registry_configs;
      ext = ext;
      log = registry_initialized collection wallet ∷ w.log;
    }

    initializes :
        (w : World rt.Ext) (ext : rt.Ext)
        → tx.signers wallet ≡ true
        → tx.signers collection ≡ true
        → rt.upgrade_authority w.ext (accounts s).program_data ≡ some (some wallet)
        → lookup (accounts s).root_config w.root_configs ≡ none
        → lookup (accounts s).registry_config w.registry_configs ≡ none
        → rt.create_collection new_collection w.ext ≡ some ext
        → initialize rt tx (accounts s) w ≡ ok (after w ext)
    unfolding initialize ◌>>=◌ ok_or accounts
    initializes w ext wallet_signs collection_signs authority root registry created =
        rw (loads w wallet_signs collection_signs authority root registry, created) refl

    -- The script calls the program with accounts that it accepts: where the wallet is the program's
    -- upgrade authority and signs with the collection, neither configuration is there, and Metaplex
    -- Core creates the collection, the process ends with exit code 0; then the two configurations name
    -- the collection and the wallet.
    pub main-initializes :
        (w : World rt.Ext) (ext : rt.Ext)
        → tx.signers wallet ≡ true
        → tx.signers collection ≡ true
        → rt.upgrade_authority w.ext (accounts s).program_data ≡ some (some wallet)
        → lookup (accounts s).root_config w.root_configs ≡ none
        → lookup (accounts s).registry_config w.registry_configs ≡ none
        → rt.create_collection new_collection w.ext ≡ some ext
        → (w' : World rt.Ext) × (main s w ≡ (0, w'))
          × (lookup (accounts s).root_config w'.root_configs
              ≡ some (record {
                base_collection = collection;
                authority = wallet;
                bump = (get_root_config_pda s.web3 rt.program_id).1;
              }))
          × (lookup (accounts s).registry_config w'.registry_configs
              ≡ some (record {
                collection = collection;
                authority = wallet;
                bump = (get_registry_config_pda s.web3 collection rt.program_id).1;
              }))
    unfolding main steps ask solana.Script.◌>>=◌ return
    main-initializes w ext wallet_signs collection_signs authority root registry created =
        let run = initializes w ext wallet_signs collection_signs authority root registry created in
        let root_found = lookup-insert_self (accounts s).root_config _ w.root_configs in
        let registry_found = lookup-insert_self (accounts s).registry_config _ w.registry_configs in
        (after w ext, rw (run, root_found, registry_found) refl, root_found, registry_found)

    refused :
        (w w' : World rt.Ext) (held : RootConfig)
        → lookup (accounts s).root_config w.root_configs ≡ some held
        → initialize rt tx (accounts s) w ≡ ok w'
        → ⊥
    unfolding initialize load_initialize
    refused w w' held there h = >>=-elim _ _ h λ bumps loaded _.
        >>-elim _ _ loaded λ collection_signs h1. >>-elim _ _ h1 λ wallet_signs h2.
          >>=-elim _ _ h2 λ upgrade readable h3. >>=-elim _ _ h3 λ root_bump root_seeded h4.
            >>-elim _ _ h4
              λ free h5. occupied (accounts s).root_config w.root_configs held there free

    -- Where the root configuration is there already, the process ends with exit code 1 and the program
    -- has changed nothing.
    pub main-again :
        (w : World rt.Ext) (held : RootConfig)
        → lookup (accounts s).root_config w.root_configs ≡ some held
        → main s w ≡ (1, w)
    unfolding main steps ask solana.Script.◌>>=◌ return
    main-again w held h =
        rw (sent-err (initialize rt tx (accounts s) w) w (λ w' ran. refused w w' held h ran)) refl
