-- ===== src/AtomIdl/Laws.antt =====
-- The lists of types/atom_engine.ts against each other and against the addresses of the helpers.
use Prim.Native.String.{String}
use mathlib.Core.Option as Option
use solana.Prelude.{
  ℕ, zero, suc, ◌+◌, ◌≡◌, refl, ap, ◌∙◌, Bool, true, false, not, ◌&&◌, Option, none, some, List, [],
  ◌∷◌, ◌++◌, map, arith, Bytes, Pubkey, ascii, key_bytes, get_elem?, bytes_eq, bytes_eq_refl, All,
  if◌then◌else◌,
}
use solana.AtomIdl.{IdlAccount, IdlInstruction, IdlError, Pda, Seed, Tagged, constant, account}
use solana.AtomIdl.Instructions.{
  instructions, get_summary, initialize_config, initialize_stats, revoke_stats, update_config,
  update_stats,
}
use solana.AtomIdl.Tables.{accounts, events, errors}
use solana.Helpers.{Web3, get_atom_config_pda, get_atom_stats_pda}

-- Whether a byte string is in a list.
abbrev elem : Bytes → List Bytes → Bool
elem d [] = false
elem d (x ∷ xs) = if bytes_eq x d then true else elem d xs

abbrev distinct : List Bytes → Bool
distinct [] = true
distinct (x ∷ xs) = not (elem x xs) && distinct xs

elem-get : (d : Bytes) (xs : List Bytes) (i : ℕ) → get_elem? xs i ≡ some d → elem d xs ≡ true
elem-get d [] i h = cc
elem-get d (x ∷ xs) zero h =
    let e : x ≡ d = cc in
    let same : bytes_eq x d ≡ true = ap (λ y. bytes_eq y d) e ∙ bytes_eq_refl d in
    ground (arith, same)
elem-get d (x ∷ xs) (suc i) h = ground (arith, elem-get d xs i h)

-- A list of distinct byte strings has each at one place only.
distinct-get :
    (d : Bytes) (xs : List Bytes) (i j : ℕ)
    → distinct xs ≡ true
    → get_elem? xs i ≡ some d
    → get_elem? xs j ≡ some d
    → i ≡ j
distinct-get d [] i j u hi hj = cc
distinct-get d (x ∷ xs) zero zero u hi hj = refl
distinct-get d (x ∷ xs) zero (suc j) u hi hj =
    let e : x ≡ d = cc in
    let there = ap (λ y. elem y xs) e ∙ elem-get d xs j hj in absurd (ground (arith, there))
distinct-get d (x ∷ xs) (suc i) zero u hi hj =
    let e : x ≡ d = cc in
    let there = ap (λ y. elem y xs) e ∙ elem-get d xs i hi in absurd (ground (arith, there))
distinct-get d (x ∷ xs) (suc i) (suc j) u hi hj =
    ap suc (distinct-get d xs i j (ground arith) hi hj)

abbrev pub instruction_discriminators : List Bytes
instruction_discriminators = map (λ (ix : IdlInstruction). ix.discriminator) instructions

abbrev pub data_discriminators : List Bytes
data_discriminators = map (λ (t : Tagged). t.discriminator) (accounts ++ events)

-- No two instructions have one discriminator.
instruction_discriminators_distinct :
    (d : Bytes) (i j : ℕ)
    → get_elem? instruction_discriminators i ≡ some d
    → get_elem? instruction_discriminators j ≡ some d
    → i ≡ j
instruction_discriminators_distinct d i j hi hj =
    distinct-get d instruction_discriminators i j refl hi hj

-- No two account types or events have one discriminator.
pub data_discriminators_distinct :
    (d : Bytes) (i j : ℕ)
    → get_elem? data_discriminators i ≡ some d
    → get_elem? data_discriminators j ≡ some d
    → i ≡ j
data_discriminators_distinct d i j hi hj = distinct-get d data_discriminators i j refl hi hj

-- The codes count up from `start`.
abbrev CountsFrom : ℕ → List IdlError → Type 0
CountsFrom start [] = Unit {0}
CountsFrom start (e ∷ es) = (e.code ≡ start) × CountsFrom (start + 1) es

CountsFrom-get :
    (es : List IdlError) (start i : ℕ) (e : IdlError)
    → CountsFrom start es
    → get_elem? es i ≡ some e
    → e.code ≡ start + i
CountsFrom-get [] start i e c h = absurd (cc)
CountsFrom-get (x ∷ es) start zero e (c, rest) h =
    let same : x ≡ e = cc in omega (arith, c, ap (λ (y : IdlError). y.code) same)
CountsFrom-get (x ∷ es) start (suc i) e (c, rest) h =
    omega (arith, CountsFrom-get es (start + 1) i e rest h)

-- The error at place `i` has the code `6000 + i`.
pub error_codes : (i : ℕ) (e : IdlError) → get_elem? errors i ≡ some e → e.code ≡ 6000 + i
error_codes i e h =
    CountsFrom-get errors 6000 i e
      ((
        refl,
        (
          refl,
          (
            refl,
            (
              refl,
              (
                refl,
                (refl, (refl, (refl, (refl, (refl, (refl, (refl, (refl, (refl, (refl, tt)))))))))),
              ),
            ),
          ),
        ),
      ))
      h

-- The bytes of a seed, where `keys` gives the key of each account of the instruction.
abbrev pub seed_bytes : (String → Pubkey) → Seed → Bytes
seed_bytes keys (constant bytes) = bytes
seed_bytes keys (account path) = key_bytes (keys path)

-- The address of the account named `name`, from the seeds that the interface gives for it.
unfoldable pub resolve :
    Web3 → Pubkey → (String → Pubkey) → Bytes → List IdlAccount → Option (Pubkey × ℕ)
resolve web3 program_id keys name [] = none
resolve web3 program_id keys name (a ∷ accounts) =
    if bytes_eq (ascii a.name) name
    then Option.map
        (λ (p : Pda). web3.find_program_address (map (seed_bytes keys) p.seeds) program_id) a.pda
    else resolve web3 program_id keys name accounts

-- In every instruction with statistics the interface gives them the address that `getAtomStatsPda`
-- computes for the instruction's asset, and in every instruction with a configuration it gives that
-- the address that `getAtomConfigPda` computes.
pub interface_addresses :
    (web3 : Web3) (program_id : Pubkey) (keys : String → Pubkey)
    → All
        (λ (ix : IdlInstruction).
          resolve web3 program_id keys (ascii "stats") ix.accounts
          ≡ some (get_atom_stats_pda web3 (keys "asset") program_id))
        (get_summary ∷ initialize_stats ∷ revoke_stats ∷ update_stats ∷ [])
      × All
          (λ (ix : IdlInstruction).
            resolve web3 program_id keys (ascii "config") ix.accounts
            ≡ some (get_atom_config_pda web3 program_id))
          (initialize_config ∷ initialize_stats ∷ revoke_stats ∷ update_config ∷ update_stats ∷ [])
unfolding resolve get_atom_stats_pda get_atom_config_pda
interface_addresses web3 program_id keys =
    ((refl, (refl, (refl, (refl, tt)))), (refl, (refl, (refl, (refl, (refl, tt))))))
