-- ===== src/Recover.antt =====
-- scripts/recover-test-wallets.ts: what is left on the wallets of a file is sent to one wallet, and
-- the file is removed.
use solana.Prelude.{
  ℕ, ◌+◌, ◌-◌, ◌≡◌, ◌<◌, ap, true, false, Option, none, some, List, [], ◌∷◌, arith, Pubkey, ltb,
  lt→ltb, if◌then◌else◌,
}
use solana.Helpers.Funds.{Bank, min_balance, after_send}

-- How the script ends: with the total, the wallets in the file, none where it is gone, and the
-- state; or with an error and exit code 1, which leaves the file.
pub data Ending (State : Type 0) : Type 0 where
  finished : ℕ → Option (List Pubkey) → State → Ending State
  failed : Option (List Pubkey) → Ending State

-- What follows a request for a balance: an error throws.
abbrev pub on_balance : {X : Type 0} → Option ℕ → X → (ℕ → X) → X
on_balance none x k = x
on_balance (some b) x k = k b

module _ (bank : Bank) (destination : Pubkey) where
  -- A wallet with more than the minimum; a transfer that fails is only printed.
  unfoldable pub recover_one : Pubkey → ℕ → bank.State → ℕ × bank.State
  recover_one key balance s =
      if ltb min_balance balance
      then after_send bank destination (balance - min_balance) (
          bank.send
            (record {
              from_pubkey = key;
              to_pubkey = destination;
              lamports = balance - min_balance;
            })
            s)
      else (0, s)

  abbrev pub with_amount : ℕ → Option (ℕ × bank.State) → Option (ℕ × bank.State)
  with_amount amount none = none
  with_amount amount (some (total, s)) = some (amount + total, s)

  -- The loop over the wallets; a balance that cannot be read ends it.
  unfoldable pub recover_loop : List Pubkey → bank.State → Option (ℕ × bank.State)
  recover_loop [] s = some (0, s)
  recover_loop (key ∷ wallets) s = on_balance (bank.get_balance s key) none (λ balance.
      let (amount, s1) = recover_one key balance s in with_amount amount (recover_loop wallets s1))

  -- After the loop: with something recovered the final balance is read, then the file is removed.
  unfoldable pub finish : List Pubkey → Option (ℕ × bank.State) → Ending bank.State
  finish wallets none = failed (some wallets)
  finish wallets (some (total, s)) =
      if ltb 0 total
      then on_balance (bank.get_balance s destination) (failed (some wallets))
          (λ _. finished total none s)
      else finished total (some wallets) s

  -- Without a file there is nothing to do; the destination's balance is read first.
  unfoldable pub recover : Option (List Pubkey) → bank.State → Ending bank.State
  recover none s = finished 0 none s
  recover (some wallets) s =
      on_balance (bank.get_balance s destination) (failed (some wallets))
        (λ _. finish wallets (recover_loop wallets s))

  -- Two wallets with more than the minimum, the transfer from the first succeeds, the one from the
  -- second fails: the file is removed all the same, with the key of the second wallet in it; where
  -- the balances can be read.
  pub recover-removes_file :
      (first second : Pubkey) (one two before after : ℕ) (s s1 s2 : bank.State)
      → min_balance < one
      → min_balance < two
      → bank.get_balance s destination ≡ some before
      → bank.get_balance s first ≡ some one
      → bank.send
          (record { from_pubkey = first; to_pubkey = destination; lamports = one - min_balance })
          s
        ≡ (true, s1)
      → bank.get_balance s1 second ≡ some two
      → bank.send
          (record { from_pubkey = second; to_pubkey = destination; lamports = two - min_balance })
          s1
        ≡ (false, s2)
      → bank.get_balance s2 destination ≡ some after
      → recover (some (first ∷ second ∷ [])) s ≡ finished (one - min_balance) none s2
  unfolding recover recover_loop recover_one finish
  recover-removes_file first second one two before after s s1 s2 h1 h2 b0 b1 t1 b2 t2 b3 =
      let big1 = lt→ltb min_balance one h1 in
      let big2 = lt→ltb min_balance two h2 in
      let some1 : ltb 0 (one - min_balance + 0) ≡ true = lt→ltb 0 _ (omega arith) in
      rw (b0, b1, big1, t1, b2, big2, t2, some1, b3) (ap (λ n. finished n none s2) (omega arith))
