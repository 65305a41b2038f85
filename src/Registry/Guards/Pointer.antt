-- ===== src/Registry/Guards/Pointer.antt =====
-- The collection pointer of identity/instructions.rs: which texts are pointers, and who sets one.
use solana.Prelude.{
  ℕ, ◌≤◌, ◌≡◌, ◌≢◌, ◌⊎◌, inl, inr, Bool-cases, ◌&&◌, refl, ap, ◌∙◌, ◌↔◌, Bool, true, false, not,
  ◌||◌, some, [], ◌∷◌, ◌++◌, arith, Bytes, ascii, leb, leb→le, le→leb, ◌==◌, ==_iff, length, drop,
  All,
}
use solana.Registry.Error.{
  ok, >>=-elim, >>-elim, require-ok, ok-injective, invalid_collection_pointer, not_agent_creator,
  collection_pointer_already_set, require, ◌>>=◌,
}
use solana.Registry.State.{AgentAccount, max_col_length}
use solana.Registry.Accounts.{lookup, lookup-insert_self}
use solana.Registry.Runtime.{Runtime, Tx}
use solana.Registry.World.{World}
use solana.Registry.Loads.{load_owned-Loaded}
use solana.Registry.Identity.{
  AgentAccounts, validate_collection_pointer, starts_with, is_cid_char, all_cid_chars, is_empty,
  collection_pointer_prefix,
}
use solana.Registry.Identity.Links.{set_collection_pointer_inner}

-- A lower-case letter, `a` to `z`, or a digit, `0` to `9`, in ASCII.
abbrev pub IsCidChar : ℕ → Type 0
IsCidChar c = ((97 ≤ c) × (c ≤ 122)) ⊎ ((48 ≤ c) × (c ≤ 57))

is_cid_char-IsCidChar : (c : ℕ) → is_cid_char c ≡ true → IsCidChar c
unfolding is_cid_char
is_cid_char-IsCidChar c h = elim (Bool-cases (leb 97 c && leb c 122)) [
  | inl letter ↦ inl (ground (arith, letter), ground (arith, letter))
  | inr other ↦ inr (ground (arith, other, h), ground (arith, other, h))
]

IsCidChar-is_cid_char : (c : ℕ) → IsCidChar c → is_cid_char c ≡ true
unfolding is_cid_char
IsCidChar-is_cid_char c (inl (low, high)) = ground (arith, low, high)
IsCidChar-is_cid_char c (inr (low, high)) = ground (arith, low, high)

-- A pointer: `c1:` and a text of at least one character that are lower-case letters and digits, at
-- most 128 bytes in all.
abbrev pub IsPointer : Bytes → Type 0
IsPointer col =
    (cid : Bytes) × (col ≡ ascii "c1:" ++ cid) × (cid ≢ []) × All IsCidChar cid × (length col ≤ 128)

starts_with-drop : (p s : Bytes) → starts_with p s ≡ true → s ≡ p ++ drop (length p) s
unfolding starts_with
starts_with-drop [] s h = refl
starts_with-drop (c ∷ p) [] h = cc
starts_with-drop (c ∷ p) (d ∷ s) h = ground (arith, starts_with-drop p s)

all_cid_chars-All : (s : Bytes) → all_cid_chars s ≡ true → All IsCidChar s
unfolding all_cid_chars
all_cid_chars-All [] h = tt
all_cid_chars-All (c ∷ s) h =
    (is_cid_char-IsCidChar c (ground arith), all_cid_chars-All s (ground arith))

All-all_cid_chars : (s : Bytes) → All IsCidChar s → all_cid_chars s ≡ true
unfolding all_cid_chars
All-all_cid_chars [] h = refl
All-all_cid_chars (c ∷ s) (h, hs) =
    ground (arith, IsCidChar-is_cid_char c h, All-all_cid_chars s hs)

is_empty-ne : (s : Bytes) → not (is_empty s) ≡ true → s ≢ []
unfolding is_empty
is_empty-ne [] h = absurd (cc)
is_empty-ne (c ∷ s) h = λ e. absurd (cc (e))

validates : (col : Bytes) → validate_collection_pointer col ≡ ok tt → IsPointer col
unfolding validate_collection_pointer
validates col h = >>-elim _ _ h λ short h1. >>-elim _ _ h1 λ prefixed h2.
    >>-elim _ _ h2 λ some_cid chars. (
      drop 3 col,
      starts_with-drop collection_pointer_prefix col (
          require-ok (starts_with collection_pointer_prefix col) invalid_collection_pointer
            prefixed),
      is_empty-ne (drop 3 col)
          (require-ok (not (is_empty (drop 3 col))) invalid_collection_pointer some_cid),
      all_cid_chars-All (drop 3 col)
          (require-ok (all_cid_chars (drop 3 col)) invalid_collection_pointer chars),
      leb→le _ _ (require-ok (leb (length col) max_col_length) invalid_collection_pointer short),
    )

pointer-valid :
    (cid : Bytes)
    → cid ≢ []
    → all_cid_chars cid ≡ true
    → leb (length (ascii "c1:" ++ cid)) 128 ≡ true
    → validate_collection_pointer (ascii "c1:" ++ cid) ≡ ok tt
unfolding validate_collection_pointer starts_with is_empty require ◌>>=◌
pointer-valid [] ne chars short = absurd (ne refl)
pointer-valid (c ∷ cid) ne chars short = rw (short, chars) refl

-- The check of a collection pointer succeeds exactly on the texts that are pointers.
pub validate_collection_pointer-IsPointer :
    (col : Bytes) → (validate_collection_pointer col ≡ ok tt) ↔ IsPointer col
validate_collection_pointer-IsPointer col = (
  validates col,
  λ (cid, e, ne, chars, short).
      ap validate_collection_pointer e
      ∙ pointer-valid cid ne (All-all_cid_chars cid chars)
          (le→leb _ _ (omega (arith, ap length e))),
)

module _ (rt : Runtime) (tx : Tx) where
  -- A collection pointer is set only by the agent's creator, who has signed, to a text that is a
  -- pointer, and only where it was not locked; it is then locked where that was asked for.
  pub set_collection_pointer_inner-guarded :
      (a : AgentAccounts) (col : Bytes) (lock : Bool) (w w' : World rt.Ext)
      → set_collection_pointer_inner rt tx a col lock w ≡ ok w'
      → (agent : AgentAccount) × (lookup a.agent_account w.agents ≡ some agent)
        × (lookup a.agent_account w'.agents ≡ some (record agent { col = col; col_locked = lock }))
        × (agent.col_locked ≡ false)
        × (a.owner ≡ agent.creator)
        × (tx.signers a.owner ≡ true)
        × IsPointer col
  unfolding set_collection_pointer_inner
  set_collection_pointer_inner-guarded a col lock w w' h = >>=-elim _ _ h λ agent loaded h1.
      >>=-elim _ _ h1 λ live live_ok h2. >>-elim _ _ h2 λ valid h3. >>-elim _ _ h3 λ creator h4.
        >>-elim _ _ h4 λ open_ h5.
          let there = load_owned-Loaded rt tx a.agent_account a.asset a.owner w loaded in
          let unlocked : agent.col_locked ≡ false =
            ground
              (arith, require-ok (not agent.col_locked) collection_pointer_already_set open_) in
          let flag : (lock || agent.col_locked) ≡ lock = ground (arith, unlocked) in
          (
            agent,
            there.found,
            ap (λ (v : World rt.Ext). lookup a.agent_account v.agents) (ok-injective h5)
                ∙ lookup-insert_self a.agent_account _ w.agents
                ∙ ap (λ b. some (record agent { col = col; col_locked = b })) flag,
            unlocked,
            (==_iff _ _).0 (require-ok (a.owner == agent.creator) not_agent_creator creator),
            there.signed,
            validates col valid,
          )
