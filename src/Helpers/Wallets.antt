-- ===== src/Helpers/Wallets.antt =====
-- tests/utils/test-wallets.ts: the file of test wallets. Its content is the value that
-- `JSON.stringify` writes and `JSON.parse` reads; a record of key pairs is a list of names with key
-- pairs, in order, each name once and none that looks like an array index.
use solana.Prelude.{
  ℕ, ◌≡◌, refl, ap, sym, ◌∙◌, Bool, true, false, not, ◌&&◌, Option, none, some, List, [], ◌∷◌, ◌++◌,
  append_assoc, arith, Bytes, bytes_eq, map, ◌==◌, if◌then◌else◌,
}

-- `Keypair`: its two halves, `fromSecretKey`, which may throw, and the text of the public key.
pub record Keys : Type 1 where
  pub Keypair : Type 0
  pub secret_key : Keypair → Bytes
  pub public_key : Keypair → Bytes
  pub from_secret_key : Bytes → Option Keypair

pub record WalletData : Type 0 where
  pub name : Bytes
  pub secret_key : Bytes
  pub public_key : Bytes
  pub created_at : Bytes

pub record WalletsFile : Type 0 where
  pub version : ℕ
  pub created_at : Bytes
  pub wallets : List WalletData

module _ (keys : Keys) where
  -- `Record<string, Keypair>`
  abbrev pub Wallets : Type 0
  Wallets = List (Bytes × keys.Keypair)

  abbrev pub entry_of : Bytes → Bytes × keys.Keypair → WalletData
  entry_of now (name, kp) = record {
    name = name;
    secret_key = keys.secret_key kp;
    public_key = keys.public_key kp;
    created_at = now;
  }

  -- What `saveTestWallets` writes at a time.
  unfoldable pub save_test_wallets : Bytes → Wallets → WalletsFile
  save_test_wallets now wallets = record {
    version = 1;
    created_at = now;
    wallets = map (entry_of now) wallets;
  }

  -- `wallets[name] = kp`
  unfoldable pub assign : Bytes → keys.Keypair → Wallets → Wallets
  assign name kp [] = (name, kp) ∷ []
  assign name kp ((at, held) ∷ rest) =
      let further = assign name kp rest in
      if bytes_eq at name then (at, kp) ∷ rest else (at, held) ∷ further

  abbrev on_key : Option keys.Keypair → (keys.Keypair → Option Wallets) → Option Wallets
  on_key none rest = none
  on_key (some kp) rest = rest kp

  -- The loop of `loadTestWallets`; a key that cannot be read ends it.
  unfoldable pub load_loop : Wallets → List WalletData → Option Wallets
  load_loop wallets [] = some wallets
  load_loop wallets (w ∷ entries) =
      on_key (keys.from_secret_key w.secret_key)
        (λ kp. load_loop (assign w.name kp wallets) entries)

  -- Without a file, with another version, or where reading throws, the result is null.
  unfoldable pub load_test_wallets : Option WalletsFile → Option Wallets
  load_test_wallets none = none
  load_test_wallets (some file) = if file.version == 1 then load_loop [] file.wallets else none

  -- Whether the file is there.
  unfoldable pub wallets_file_exists : Option WalletsFile → Bool
  wallets_file_exists none = false
  wallets_file_exists (some file) = true

  -- The file after `deleteTestWallets`, which removes it only if it is there.
  unfoldable pub delete_test_wallets : Option WalletsFile → Option WalletsFile
  delete_test_wallets file = if wallets_file_exists file then none else file

  -- Whether no name of a record is the given one, and whether no name comes twice.
  abbrev pub fresh : Bytes → Wallets → Bool
  fresh name [] = true
  fresh name ((at, held) ∷ rest) = not (bytes_eq at name) && fresh name rest

  abbrev pub fresh_after : Wallets → Wallets → Bool
  fresh_after before [] = true
  fresh_after before ((name, kp) ∷ rest) =
      fresh name before && fresh_after (before ++ ((name, kp) ∷ [])) rest

  assign-fresh :
      (name : Bytes) (kp : keys.Keypair) (wallets : Wallets)
      → fresh name wallets ≡ true
      → assign name kp wallets ≡ wallets ++ ((name, kp) ∷ [])
  unfolding assign
  assign-fresh name kp [] h = refl
  assign-fresh name kp ((at, held) ∷ rest) h = ground (arith, assign-fresh name kp rest)

  load_loop-map :
      (back : (kp : keys.Keypair) → keys.from_secret_key (keys.secret_key kp) ≡ some kp)
      (now : Bytes) (before wallets : Wallets)
      → fresh_after before wallets ≡ true
      → load_loop before (map (entry_of now) wallets) ≡ some (before ++ wallets)
  unfolding load_loop
  load_loop-map back now before [] h = ap some (sym (append_nil before))
    where
      append_nil : (xs : Wallets) → xs ++ [] ≡ xs
      append_nil [] = refl
      append_nil (x ∷ xs) = ap (λ (r : Wallets). x ∷ r) (append_nil xs)
  load_loop-map back now before ((name, kp) ∷ wallets) h =
      rw (back kp, assign-fresh name kp before (ground (arith, h)))
        (load_loop-map back now (before ++ ((name, kp) ∷ [])) wallets (ground (arith, h))
          ∙ ap some (append_assoc before ((name, kp) ∷ []) wallets))

  -- Where no name comes twice and a key pair can be made from its secret key: after saving, the file is
  -- there and the wallets are loaded again; after deleting, whatever was there, there is no file and
  -- null is loaded.
  pub load_test_wallets-save_test_wallets :
      (back : (kp : keys.Keypair) → keys.from_secret_key (keys.secret_key kp) ≡ some kp)
      (now : Bytes) (wallets : Wallets) (before : Option WalletsFile)
      → fresh_after [] wallets ≡ true
      → (wallets_file_exists (some (save_test_wallets now wallets)) ≡ true)
        × (load_test_wallets (some (save_test_wallets now wallets)) ≡ some wallets)
        × (wallets_file_exists (delete_test_wallets before) ≡ false)
        × (load_test_wallets (delete_test_wallets before) ≡ none)
  unfolding load_test_wallets save_test_wallets wallets_file_exists delete_test_wallets
  load_test_wallets-save_test_wallets back now wallets none h =
      (refl, load_loop-map back now [] wallets h, refl, refl)
  load_test_wallets-save_test_wallets back now wallets (some file) h =
      (refl, load_loop-map back now [] wallets h, refl, refl)
