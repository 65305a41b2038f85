-- ===== src/Registry/Replay.antt =====
-- What an indexer recomputes from the events: the leaves of an agent's three chains, and the
-- relation between an agent account before and after an instruction.
use solana.Prelude.{
  ℕ, ◌+◌, ◌^◌, ◌<◌, ◌≡◌, ◌≢◌, ◌⊎◌, inl, refl, Bool, true, false, not, ◌&&◌, List, [], ◌∷◌, ◌++◌,
  arith, Bytes, Pubkey, length, ◌==◌,
}
use solana.Seal.{compute_feedback_leaf_v1}
use solana.Chain.{
  domain_feedback, domain_response, domain_revoke, compute_response_leaf, compute_revoke_leaf,
  chain_digest,
}
use solana.Registry.State.{
  AgentAccount, Event, NewFeedback, FeedbackRevoked, ResponseAppended, new_feedback,
  feedback_revoked, response_appended,
}

-- The three chains of an agent.
pub data Kind : Type 0 where
  feedback response revoke : Kind

abbrev pub domain_of : Kind → Bytes
domain_of feedback = domain_feedback
domain_of response = domain_response
domain_of revoke = domain_revoke

abbrev pub digest_of : Kind → AgentAccount → Bytes
digest_of feedback g = g.feedback_digest
digest_of response g = g.response_digest
digest_of revoke g = g.revoke_digest

abbrev pub count_of : Kind → AgentAccount → ℕ
count_of feedback g = g.feedback_count
count_of response g = g.response_count
count_of revoke g = g.revoke_count

-- A leaf that is there only for the asset in question.
abbrev pub leaf_if : Bool → Bytes → List Bytes → List Bytes
leaf_if true leaf leaves = leaf ∷ leaves
leaf_if false leaf leaves = leaves

leaf_if-append :
    (b : Bool) (leaf : Bytes) (xs ys : List Bytes)
    → leaf_if b leaf (xs ++ ys) ≡ leaf_if b leaf xs ++ ys
leaf_if-append true leaf xs ys = refl
leaf_if-append false leaf xs ys = refl

-- Whether an event carries a leaf.
abbrev pub has_leaf : Event → Bool
has_leaf (new_feedback e) = true
has_leaf (feedback_revoked e) = true
has_leaf (response_appended e) = true
has_leaf _ = false

abbrev pub all_quiet : List Event → Bool
all_quiet [] = true
all_quiet (e ∷ log) = not (has_leaf e) && all_quiet log

-- One event about the agent: a feedback with the next index, or a revocation or a response with an
-- index that was given out.
pub data IsNext (g : AgentAccount) : List Event → Type 0 where
  next_feedback :
      (e : NewFeedback)
      → e.asset ≡ g.asset
      → e.feedback_index ≡ g.feedback_count
      → IsNext g (new_feedback e ∷ [])
  next_revocation :
      (e : FeedbackRevoked)
      → e.asset ≡ g.asset
      → e.feedback_index < g.feedback_count
      → IsNext g (feedback_revoked e ∷ [])
  next_response :
      (e : ResponseAppended)
      → e.asset ≡ g.asset
      → e.feedback_index < g.feedback_count
      → IsNext g (response_appended e ∷ [])

module _ (keccak : Bytes → Bytes) where
  -- The leaves of one chain of one asset, recomputed from the fields of the events.
  unfoldable pub leaves : Kind → Pubkey → List Event → List Bytes
  leaves k asset [] = []
  leaves feedback asset (new_feedback e ∷ log) =
      leaf_if (e.asset == asset)
        (compute_feedback_leaf_v1 keccak e.asset e.client_address e.feedback_index e.seal_hash
          e.slot)
        (leaves feedback asset log)
  leaves response asset (response_appended e ∷ log) =
      leaf_if (e.asset == asset)
        (compute_response_leaf keccak e.asset e.client e.feedback_index e.responder e.response_hash
          e.seal_hash e.slot)
        (leaves response asset log)
  leaves revoke asset (feedback_revoked e ∷ log) =
      leaf_if (e.asset == asset)
        (compute_revoke_leaf keccak e.asset e.client_address e.feedback_index e.seal_hash e.slot)
        (leaves revoke asset log)
  leaves k asset (e ∷ log) = leaves k asset log

  pub chain_digest-append :
      (domain start : Bytes) (xs ys : List Bytes)
      → chain_digest keccak domain start (xs ++ ys)
        ≡ chain_digest keccak domain (chain_digest keccak domain start ys) xs
  unfolding chain_digest
  chain_digest-append domain start [] ys = refl
  chain_digest-append domain start (x ∷ xs) ys = rw (chain_digest-append domain start xs ys)

  -- What an instruction does to an agent's chains: the leaves of its events are appended, and no
  -- event is about another asset.
  pub record Chained (old new : AgentAccount) (events : List Event) : Type 0 where
    pub digest :
        (k : Kind)
        → digest_of k new
          ≡ chain_digest keccak (domain_of k) (digest_of k old) (leaves k old.asset events)
    pub count : (k : Kind) → count_of k new ≡ length (leaves k old.asset events) + count_of k old
    pub foreign : (k : Kind) (asset : Pubkey) → old.asset ≢ asset → leaves k asset events ≡ []
    pub bounded : (k : Kind) → count_of k old < 2 ^ 64 → count_of k new < 2 ^ 64
    pub numbered : (all_quiet events ≡ true) ⊎ IsNext old events

-- The fields that no instruction changes, and those that change one way only.
pub record Kept (old new : AgentAccount) : Type 0 where
  pub collection : new.collection ≡ old.collection
  pub creator : new.creator ≡ old.creator
  pub asset : new.asset ≡ old.asset
  pub bump : new.bump ≡ old.bump
  pub atom_enabled : old.atom_enabled ≡ true → new.atom_enabled ≡ true
  pub parent_locked : old.parent_locked ≡ true → new.parent_locked ≡ true
  pub parent_asset : old.parent_locked ≡ true → new.parent_asset ≡ old.parent_asset
  pub col_locked : old.col_locked ≡ true → new.col_locked ≡ true
  pub col : old.col_locked ≡ true → new.col ≡ old.col

module _ (keccak : Bytes → Bytes) where
  pub leaves-append :
      (k : Kind) (asset : Pubkey) (xs ys : List Event)
      → leaves keccak k asset (xs ++ ys) ≡ leaves keccak k asset xs ++ leaves keccak k asset ys
  unfolding leaves
  leaves-append k asset [] ys = refl
  leaves-append feedback asset (new_feedback e ∷ xs) ys =
      rw (leaves-append feedback asset xs ys) (leaf_if-append (e.asset == asset) _ _ _)
  leaves-append response asset (response_appended e ∷ xs) ys =
      rw (leaves-append response asset xs ys) (leaf_if-append (e.asset == asset) _ _ _)
  leaves-append revoke asset (feedback_revoked e ∷ xs) ys =
      rw (leaves-append revoke asset xs ys) (leaf_if-append (e.asset == asset) _ _ _)
  leaves-append k asset (e ∷ xs) ys = leaves-append k asset xs ys

-- The chains of the two accounts are the same.
pub record SameChains (old new : AgentAccount) : Type 0 where
  pub feedback_digest : new.feedback_digest ≡ old.feedback_digest
  pub feedback_count : new.feedback_count ≡ old.feedback_count
  pub response_digest : new.response_digest ≡ old.response_digest
  pub response_count : new.response_count ≡ old.response_count
  pub revoke_digest : new.revoke_digest ≡ old.revoke_digest
  pub revoke_count : new.revoke_count ≡ old.revoke_count

module _ (keccak : Bytes → Bytes) where
  pub leaves_quiet :
      (k : Kind) (asset : Pubkey) (log : List Event)
      → all_quiet log ≡ true
      → leaves keccak k asset log ≡ []
  unfolding leaves
  leaves_quiet k asset [] h = refl
  leaves_quiet feedback asset (new_feedback e ∷ log) h = cc
  leaves_quiet response asset (response_appended e ∷ log) h = cc
  leaves_quiet revoke asset (feedback_revoked e ∷ log) h = cc
  leaves_quiet k asset (e ∷ log) h = leaves_quiet k asset log (ground arith)

  -- Events without a leaf, and an account with the chains as they were.
  pub Chained-quiet :
      (old new : AgentAccount) (events : List Event)
      → SameChains old new
      → all_quiet events ≡ true
      → Chained keccak old new events
  unfolding chain_digest
  Chained-quiet old new events s q = record {
    digest = λ k. rw (leaves_quiet k old.asset events q) (digests k);
    count = λ k. rw (leaves_quiet k old.asset events q) (omega (arith, counts k));
    foreign = λ k asset _. leaves_quiet k asset events q;
    bounded = λ k small. omega (arith, counts k);
    numbered = inl q;
  }
    where
      digests : (k : Kind) → digest_of k new ≡ digest_of k old
      digests = elim [
        | feedback ↦ s.feedback_digest
        | response ↦ s.response_digest
        | revoke ↦ s.revoke_digest
      ]

      counts : (k : Kind) → count_of k new ≡ count_of k old
      counts = elim [
        | feedback ↦ s.feedback_count
        | response ↦ s.response_count
        | revoke ↦ s.revoke_count
      ]
