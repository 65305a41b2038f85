-- ===== src/Chain/Binding.antt =====
-- A digest commits to the whole history of its leaves.
use solana.Prelude.{
  ◌≡◌, refl, ◌∙◌, sym, ◌⊎◌, inl, inr, List, [], ◌∷◌, ◌++◌, arith, Bytes, length, append_cancel,
  Collision, hash_binding,
}
use solana.Chain.{link_data, chain_hash, chain_digest}

module _ (keccak : Bytes → Bytes) (keccak_length : (x : Bytes) → length (keccak x) ≡ 32) where
  length-chain_digest :
      (domain start : Bytes) (leaves : List Bytes)
      → length start ≡ 32
      → length (chain_digest keccak domain start leaves) ≡ 32
  unfolding chain_digest chain_hash
  length-chain_digest domain start [] h = h
  length-chain_digest domain start (leaf ∷ earlier) h = keccak_length _

  -- Two histories of one length that start from one digest of 32 bytes and end in one digest are the
  -- same history, or a collision of Keccak is at hand; where Keccak gives 32 bytes.
  pub chain_digest_binding :
      (domain start : Bytes) (xs ys : List Bytes)
      → length start ≡ 32
      → length xs ≡ length ys
      → chain_digest keccak domain start xs ≡ chain_digest keccak domain start ys
      → (xs ≡ ys) ⊎ Collision keccak
  unfolding chain_digest chain_hash link_data
  chain_digest_binding domain start [] [] hs n e = inl refl
  chain_digest_binding domain start [] (y ∷ ys) hs n e = absurd (omega arith)
  chain_digest_binding domain start (x ∷ xs) [] hs n e = absurd (omega arith)
  chain_digest_binding domain start (x ∷ xs) (y ∷ ys) hs n e = elim (hash_binding keccak _ _ e) [
    | inr clash ↦ inr clash
    | inl same ↦
        let parts =
          append_cancel (chain_digest keccak domain start xs) (domain ++ x)
            (chain_digest keccak domain start ys) (domain ++ y)
            (length-chain_digest domain start xs hs ∙ sym (length-chain_digest domain start ys hs))
            same in
        let leaf = append_cancel domain x domain y refl parts.1 in
        elim (chain_digest_binding domain start xs ys hs (omega arith) parts.0) [
          | inl rest ↦ inl (cc (leaf.1, rest))
          | inr clash ↦ inr clash
        ]
  ]
