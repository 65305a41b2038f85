-- ===== src/Helpers/Funds.antt =====
-- tests/utils/helpers.ts: `returnFunds`.
use solana.Prelude.{
  ℕ, ◌+◌, ◌-◌, ◌*◌, ◌≤◌, ◌⊎◌, length, ◌≡◌, ◌≢◌, Bool, true, false, Option, none, some, List, [],
  ◌∷◌, arith, Pubkey, All, ltb, Bool-cases, inl, inr, if◌then◌else◌,
}
use native.Mathlib.Nat.{suc-mul}

-- A transfer of `SystemProgram`.
pub record Transfer : Type 0 where
  pub from_pubkey : Pubkey
  pub to_pubkey : Pubkey
  pub lamports : ℕ

-- The cluster as these scripts use it: balances, the request for one, which may fail, and a transfer
-- that is sent and confirmed, with whether that did not throw and the state after it.
pub record Bank : Type 1 where
  pub State : Type 0
  pub balance : State → Pubkey → ℕ
  pub get_balance : State → Pubkey → Option ℕ
  pub send : Transfer → State → Bool × State

abbrev pub min_balance : ℕ
min_balance = 5000

module _ (bank : Bank) (destination : Pubkey) where
  -- What is recovered from a transfer, and the state after it.
  abbrev pub after_send : ℕ → Bool × bank.State → ℕ × bank.State
  after_send amount (true, s) = (amount, s)
  after_send amount (false, s) = (0, s)

  -- One turn of the loop once the balance is known: every error is swallowed.
  unfoldable pub return_one : Pubkey → Option ℕ → bank.State → ℕ × bank.State
  return_one key none s = (0, s)
  return_one key (some balance) s =
      if ltb min_balance balance
      then after_send (balance - 5000) (
          bank.send
            (record { from_pubkey = key; to_pubkey = destination; lamports = balance - 5000 }) s)
      else (0, s)

  -- `returnFunds`: the lamports recovered and the state.
  unfoldable pub return_funds : List Pubkey → bank.State → ℕ × bank.State
  return_funds [] s = (0, s)
  return_funds (key ∷ keypairs) s =
      let (amount, s1) = return_one key (bank.get_balance s key) s in
      let (total, s2) = return_funds keypairs s1 in (amount + total, s2)

-- What is documented of a transfer from another account to `destination`, the wallet of the provider,
-- which pays at most `fee` for the transaction: a transfer that does not throw brings what it carries,
-- less what was paid. One that throws may have landed all the same; `late` is what such transfers have
-- brought so far.
abbrev pub IsPaying : (bank : Bank) → Pubkey → ℕ → (bank.State → ℕ) → Type 0
IsPaying bank destination fee late =
    (key : Pubkey) (lamports : ℕ) (s : bank.State)
    → key ≢ destination
    → (let r =
          bank.send (record { from_pubkey = key; to_pubkey = destination; lamports = lamports })
            s in
        let brought = if r.0 then lamports else 0 in
        (bank.balance s destination + brought + late r.1
          ≤ bank.balance r.1 destination + late s + fee)
        × (bank.balance r.1 destination + late s ≤ bank.balance s destination + brought + late r.1)
        × ((r.0 ≡ false) ⊎ (late r.1 ≡ late s)))

module _ (bank : Bank) (destination : Pubkey) (fee : ℕ) (late : bank.State → ℕ)
    (paying : IsPaying bank destination fee late) where
  -- From one state to another, with an amount that is reported and with fees to pay.
  abbrev IsGained : bank.State → ℕ → bank.State → ℕ → Type 0
  IsGained s amount s' fees =
      (bank.balance s destination + amount + late s' ≤ bank.balance s' destination + late s + fees)
      × (bank.balance s' destination + late s ≤ bank.balance s destination + amount + late s')

  after_send-IsGained :
      (amount : ℕ) (s : bank.State) (r : Bool × bank.State)
      → IsGained s (if r.0 then amount else 0) r.1 fee
      → (let out = after_send bank destination amount r in IsGained s out.0 out.1 fee)
  after_send-IsGained amount s (true, s') h = h
  after_send-IsGained amount s (false, s') h = h

  return_one-IsGained :
      (key : Pubkey) (o : Option ℕ) (s : bank.State)
      → key ≢ destination
      → (let out = return_one bank destination key o s in IsGained s out.0 out.1 fee)
  unfolding return_one
  return_one-IsGained key none s h = (omega arith, omega arith)
  return_one-IsGained key (some balance) s h = elim (Bool-cases (ltb min_balance balance)) [
    | inl more ↦
        let p = paying key (balance - 5000) s h in
        rw more (after_send-IsGained (balance - 5000) s _ (p.0, p.1))
    | inr less ↦ rw less (omega arith, omega arith)
  ]

  -- The wallet of the provider gains from `returnFunds` at most what is reported and what arrives from
  -- transfers that throw, and at least that less one fee for each key pair, whatever requests and
  -- transfers fail; where transfers pay as documented and the wallet is not one of the key pairs.
  pub return_funds-balance :
      (keypairs : List Pubkey) (s : bank.State)
      → All (λ key. key ≢ destination) keypairs
      → (let out = return_funds bank destination keypairs s in
          (bank.balance s destination + out.0 + late out.1
            ≤ bank.balance out.1 destination + late s + length keypairs * fee)
          × (bank.balance out.1 destination + late s
              ≤ bank.balance s destination + out.0 + late out.1))
  unfolding return_funds
  return_funds-balance [] s h = (omega arith, omega arith)
  return_funds-balance (key ∷ keypairs) s (h, hs) =
      let one = return_one-IsGained key (bank.get_balance s key) s h in
      let rest =
        return_funds-balance keypairs (return_one bank destination key (bank.get_balance s key) s).1
          hs in
      (omega (arith, suc-mul (length keypairs) fee, one, rest), omega (arith, one, rest))
