-- ===== src/Helpers/Funding.antt =====
-- tests/utils/helpers.ts: `fundKeypair` and `fundKeypairs`.
use solana.Prelude.{
  ℕ, zero, suc, ◌+◌, ◌≤◌, ◌≡◌, ◌≢◌, refl, ap, ◌∙◌, Bool, true, false, List, [], ◌∷◌, ◌++◌,
  append_assoc, map, arith, Pubkey, length, take, drop, length-drop, take-append-drop, All, ◌==◌,
  inl, inr, ◌⊎◌, if◌then◌else◌,
}
use solana.Helpers.Funds.{Transfer}

-- The provider as these helpers use it: `sendAndConfirm`, with whether it succeeds, and the balances.
pub record Provider : Type 1 where
  pub State : Type 0
  pub balance : State → Pubkey → ℕ
  pub send_and_confirm : List Transfer → State → Bool × State

abbrev pub batch_size : ℕ
batch_size = 10

-- The transactions of `fundKeypairs`, in order; each turn of the loop takes one batch, and the fuel
-- bounds the turns.
unfoldable pub fund_batches : ℕ → Pubkey → List Pubkey → ℕ → List (List Transfer)
fund_batches fuel provider [] lamports = []
fund_batches zero provider (k ∷ keypairs) lamports = []
fund_batches (suc fuel) provider (k ∷ keypairs) lamports =
    map (λ key. record { from_pubkey = provider; to_pubkey = key; lamports = lamports })
      (take batch_size (k ∷ keypairs))
    ∷ fund_batches fuel provider (drop batch_size (k ∷ keypairs)) lamports

module _ (provider : Pubkey) (lamports : ℕ) where
  abbrev pub funding : Pubkey → Transfer
  funding key = record { from_pubkey = provider; to_pubkey = key; lamports = lamports }

  map-append : (xs ys : List Pubkey) → map funding (xs ++ ys) ≡ map funding xs ++ map funding ys
  map-append [] ys = refl
  map-append (x ∷ xs) ys = ap (λ (r : List Transfer). funding x ∷ r) (map-append xs ys)

module _ (p : Provider) (provider : Pubkey) where
  -- What follows a transaction where it does not throw.
  abbrev pub if_sent : Bool × p.State → (p.State → Bool × p.State) → Bool × p.State
  if_sent (true, s) next = next s
  if_sent (false, s) next = (false, s)

  -- The transactions in order, up to the first that throws.
  unfoldable pub send_batches : List (List Transfer) → p.State → Bool × p.State
  send_batches [] s = (true, s)
  send_batches (batch ∷ batches) s =
      if_sent (p.send_and_confirm batch s) (λ s1. send_batches batches s1)

  unfoldable pub fund_keypair : Pubkey → ℕ → p.State → Bool × p.State
  fund_keypair key lamports s = p.send_and_confirm (funding provider lamports key ∷ []) s

  -- `lamports` is the floor of what was asked for.
  unfoldable pub fund_keypairs : List Pubkey → ℕ → p.State → Bool × p.State
  fund_keypairs keypairs lamports s =
      send_batches (fund_batches (length keypairs) provider keypairs lamports) s

-- What a list of transfers brings to a key.
abbrev pub paid : Pubkey → List Transfer → ℕ
paid key [] = 0
paid key (t ∷ ts) = (if t.to_pubkey == key then t.lamports else 0) + paid key ts

pub paid-append :
    (key : Pubkey) (xs ys : List Transfer) → paid key (xs ++ ys) ≡ paid key xs + paid key ys
paid-append key [] ys = omega arith
paid-append key (x ∷ xs) ys = omega (arith, paid-append key xs ys)

-- What is documented of a transaction: its transfers are made together or not at all, and all of them
-- where it succeeds; where it throws it may have been made or not.
abbrev pub IsAtomic : Provider → Pubkey → Type 0
IsAtomic p provider =
    (lamports : ℕ) (keys : List Pubkey) (s : p.State)
    → (let ts = map (funding provider lamports) keys in
        let r = p.send_and_confirm ts s in
        ((key : Pubkey) → key ≢ provider → p.balance r.1 key ≡ p.balance s key + paid key ts)
        ⊎ ((r.0 ≡ false) × ((key : Pubkey) → key ≢ provider → p.balance r.1 key ≡ p.balance s key)))

module _ (p : Provider) (provider : Pubkey) (lamports : ℕ) where
  -- How far a run has come: the keys that were paid, and those that were not.
  record IsFunded (keypairs : List Pubkey) (s : p.State) (out : Bool × p.State) : Type 0 where
    funded : List Pubkey
    rest : List Pubkey
    whole : funded ++ rest ≡ keypairs
    grown :
        (key : Pubkey)
        → key ≢ provider
        → p.balance out.1 key ≡ p.balance s key + paid key (map (funding provider lamports) funded)
    complete : (out.0 ≡ false) ⊎ (rest ≡ [])

  -- A transaction that was made, and the run after it.
  after_batch :
      (batch later keypairs : List Pubkey) (s : p.State) (r : Bool × p.State)
      (next : p.State → Bool × p.State)
      → batch ++ later ≡ keypairs
      → ((key : Pubkey)
          → key ≢ provider
          → p.balance r.1 key ≡ p.balance s key + paid key (map (funding provider lamports) batch))
      → IsFunded later r.1 (next r.1)
      → IsFunded keypairs s (if_sent p provider r next)
  after_batch batch later keypairs s (false, s1) next all made ih = record {
    funded = batch;
    rest = later;
    whole = all;
    grown = made;
    complete = inl refl;
  }
  after_batch batch later keypairs s (true, s1) next all made ih = record {
    funded = batch ++ ih.funded;
    rest = ih.rest;
    whole =
        append_assoc batch ih.funded ih.rest ∙ ap (λ (r : List Pubkey). batch ++ r) ih.whole ∙ all;
    grown = λ key other. omega (
      arith,
      ap (paid key) (map-append provider lamports batch ih.funded),
      paid-append key (map (funding provider lamports) batch)
          (map (funding provider lamports) ih.funded),
      made key other,
      ih.grown key other,
    );
    complete = ih.complete;
  }

  -- A transaction that was not made.
  stopped :
      (keypairs : List Pubkey) (s : p.State) (r : Bool × p.State) (next : p.State → Bool × p.State)
      → r.0 ≡ false
      → ((key : Pubkey) → key ≢ provider → p.balance r.1 key ≡ p.balance s key)
      → IsFunded keypairs s (if_sent p provider r next)
  stopped keypairs s (true, s1) next thrown same = absurd (cc)
  stopped keypairs s (false, s1) next thrown same = record {
    funded = [];
    rest = keypairs;
    whole = refl;
    grown = λ key other. omega (arith, same key other);
    complete = inl refl;
  }

  batches-IsFunded :
      (fuel : ℕ) (keypairs : List Pubkey) (s : p.State)
      → IsAtomic p provider
      → length keypairs ≤ fuel
      → IsFunded keypairs s
          (send_batches p provider (fund_batches fuel provider keypairs lamports) s)
  unfolding fund_batches send_batches
  batches-IsFunded fuel [] s atomic enough = record {
    funded = [];
    rest = [];
    whole = refl;
    grown = λ key other. omega arith;
    complete = inr refl;
  }
  batches-IsFunded zero (k ∷ keypairs) s atomic enough = absurd (omega arith)
  batches-IsFunded (suc fuel) (k ∷ keypairs) s atomic enough =
      let batch = take 10 (k ∷ keypairs) in
      let later = drop 10 (k ∷ keypairs) in
      let r = p.send_and_confirm (map (funding provider lamports) batch) s in
      let ih =
        batches-IsFunded fuel later r.1 atomic (omega (arith, length-drop 10 (k ∷ keypairs))) in
      elim (atomic lamports batch s) [
        | inl made ↦
            after_batch batch later (k ∷ keypairs) s r _ (take-append-drop 10 (k ∷ keypairs)) made
              ih
        | inr (thrown, same) ↦ stopped (k ∷ keypairs) s r _ thrown same
      ]

  observed :
      (keys : List Pubkey) (s s' : p.State) (ts : List Transfer)
      → ((key : Pubkey) → key ≢ provider → p.balance s' key ≡ p.balance s key + paid key ts)
      → All (λ key. key ≢ provider) keys
      → All (λ key. p.balance s' key ≡ p.balance s key + paid key ts) keys
  observed [] s s' ts grown others = tt
  observed (key ∷ keys) s s' ts grown (other, others) =
      (grown key other, observed keys s s' ts grown others)

-- `fundKeypairs`, where transactions are atomic: whatever throws, there is a first part of the key
-- pairs such that the balance of every account but the provider's grows by exactly one transfer of the
-- lamports for each time it is in that part; unless a transaction throws, that part is all of them.
pub fund_keypairs-prefix :
    (p : Provider) (provider : Pubkey) (lamports : ℕ) (keypairs keys : List Pubkey) (s : p.State)
    → IsAtomic p provider
    → All (λ key. key ≢ provider) keys
    → (let out = fund_keypairs p provider keypairs lamports s in
        (funded : List Pubkey) × (rest : List Pubkey) × (funded ++ rest ≡ keypairs)
        × All
            (λ key.
              p.balance out.1 key
              ≡ p.balance s key + paid key (map (funding provider lamports) funded))
            keys
        × ((out.0 ≡ false) ⊎ (rest ≡ [])))
unfolding fund_keypairs
fund_keypairs-prefix p provider lamports keypairs keys s atomic others =
    let f =
      batches-IsFunded p provider lamports (length keypairs) keypairs s atomic (omega arith) in
    (f.funded, f.rest, f.whole, observed p provider lamports keys s _ _ f.grown others, f.complete)
