-- ===== src/Registry/Accounts.antt =====
-- The accounts of one type, by address: an association list with the newest value first.
use solana.Prelude.{
  ◌≡◌, ◌≢◌, refl, Option, none, some, List, [], ◌∷◌, arith, Pubkey, ◌==◌, if◌then◌else◌,
}

abbrev pub Accounts {ℓ} : Type ℓ → Type ℓ
Accounts V = List (Pubkey × V)

module _ {ℓ} {V : Type ℓ} where
  unfoldable pub lookup : Pubkey → Accounts V → Option V
  lookup key ((at, held) ∷ others) =
      let further = lookup key others in if at == key then some held else further
  lookup key [] = none

  -- Store a value at an address, in place where the address is there.
  unfoldable pub insert : Pubkey → V → Accounts V → Accounts V
  insert key value ((at, held) ∷ others) =
      let further = insert key value others in
      if at == key then (key, value) ∷ others else (at, held) ∷ further
  insert key value [] = (key, value) ∷ []

  -- Close every account at an address.
  unfoldable pub erase : Pubkey → Accounts V → Accounts V
  erase key ((at, held) ∷ others) =
      let further = erase key others in if at == key then further else (at, held) ∷ further
  erase key [] = []

  -- What a write changes is the value at its own address.
  pub lookup-insert :
      (key other : Pubkey) (value : V) (accounts : Accounts V)
      → lookup other (insert key value accounts)
        ≡ (if key == other then some value else lookup other accounts)
  unfolding insert lookup
  lookup-insert key other value ((at, held) ∷ rest) =
      ground (lookup-insert key other value rest, arith)
  lookup-insert key other value [] = refl

  pub lookup-erase :
      (key other : Pubkey) (accounts : Accounts V)
      → lookup other (erase key accounts) ≡ (if key == other then none else lookup other accounts)
  unfolding erase lookup
  lookup-erase key other ((at, held) ∷ rest) = ground (lookup-erase key other rest, arith)
  lookup-erase key other [] = ground arith

  pub lookup-insert_self :
      (key : Pubkey) (value : V) (accounts : Accounts V)
      → lookup key (insert key value accounts) ≡ some value
  lookup-insert_self key value accounts = ground (arith, lookup-insert key key value accounts)

  pub lookup-insert_ne :
      (key other : Pubkey) (value : V) (accounts : Accounts V)
      → key ≢ other
      → lookup other (insert key value accounts) ≡ lookup other accounts
  lookup-insert_ne key other value accounts h =
      ground (arith, lookup-insert key other value accounts)

  pub lookup-erase_ne :
      (key other : Pubkey) (accounts : Accounts V)
      → key ≢ other
      → lookup other (erase key accounts) ≡ lookup other accounts
  lookup-erase_ne key other accounts h = ground (arith, lookup-erase key other accounts)
