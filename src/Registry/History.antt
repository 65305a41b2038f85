-- ===== src/Registry/History.antt =====
-- What the reputation of one asset is to a reader of the events: a history of feedbacks, revocations
-- and responses, the latest first, of which programs/agent-registry-8004/src/reputation/instructions.rs
-- stores only digests and counts.
use solana.Prelude.{
  ℕ, zero, suc, ◌<◌, ◌≡◌, refl, ap, ◌∙◌, Bool, true, false, List, [], ◌∷◌, ◌++◌, arith, Bytes,
  Pubkey, length, ◌==◌,
}
use solana.Registry.State.{Event, new_feedback, feedback_revoked, response_appended}
use solana.Registry.Replay.{feedback, response, revoke as revoke_kind, leaves, leaf_if, all_quiet}

-- An entry has the index of the feedback that it is about, and who made it.
pub data Entry : Type 0 where
  given : ℕ → Pubkey → Entry
  revoked : ℕ → Pubkey → Entry
  responded : ℕ → Pubkey → Entry

abbrev pub History : Type 0
History = List Entry

-- The number of feedbacks.
abbrev pub feedbacks : History → ℕ
feedbacks [] = 0
feedbacks (given index client ∷ h) = suc (feedbacks h)
feedbacks (revoked index client ∷ h) = feedbacks h
feedbacks (responded index responder ∷ h) = feedbacks h

-- One step of a history: a feedback takes the next index, and a revocation or a response is about a
-- feedback that is there.
pub data Step : History → History → Type 0 where
  give :
      (h : History) (index : ℕ) (client : Pubkey)
      → index ≡ feedbacks h
      → Step h (given index client ∷ h)
  revoke :
      (h : History) (index : ℕ) (client : Pubkey)
      → index < feedbacks h
      → Step h (revoked index client ∷ h)
  respond :
      (h : History) (index : ℕ) (responder : Pubkey)
      → index < feedbacks h
      → Step h (responded index responder ∷ h)

-- The histories that steps lead to.
pub data IsHistory : History → Type 0 where
  empty : IsHistory []
  next : (h h' : History) → IsHistory h → Step h h' → IsHistory h'

abbrev pub entry_if : Bool → Entry → History → History
entry_if true entry h = entry ∷ h
entry_if false entry h = h

-- The history of an asset in a log.
unfoldable pub view : Pubkey → List Event → History
view asset [] = []
view asset (new_feedback e ∷ log) =
    entry_if (e.asset == asset) (given e.feedback_index e.client_address) (view asset log)
view asset (feedback_revoked e ∷ log) =
    entry_if (e.asset == asset) (revoked e.feedback_index e.client_address) (view asset log)
view asset (response_appended e ∷ log) =
    entry_if (e.asset == asset) (responded e.feedback_index e.responder) (view asset log)
view asset (e ∷ log) = view asset log

pub view-quiet :
    (asset : Pubkey) (events log : List Event)
    → all_quiet events ≡ true
    → view asset (events ++ log) ≡ view asset log
unfolding view
view-quiet asset [] log h = refl
view-quiet asset (new_feedback e ∷ events) log h = cc
view-quiet asset (feedback_revoked e ∷ events) log h = cc
view-quiet asset (response_appended e ∷ events) log h = cc
view-quiet asset (e ∷ events) log h = view-quiet asset events log (ground arith)

leaf_if-nil :
    (b : Bool) (leaf : Bytes) (leaves : List Bytes)
    → leaf_if b leaf leaves ≡ []
    → (b ≡ false) × (leaves ≡ [])
leaf_if-nil true leaf leaves e = absurd (cc)
leaf_if-nil false leaf leaves e = (refl, e)

-- Events without a leaf of the asset do not show in its history.
pub view_unseen :
    (keccak : Bytes → Bytes) (asset : Pubkey) (events log : List Event)
    → leaves keccak feedback asset events ≡ []
    → leaves keccak revoke_kind asset events ≡ []
    → leaves keccak response asset events ≡ []
    → view asset (events ++ log) ≡ view asset log
unfolding view leaves
view_unseen keccak asset [] log f v r = refl
view_unseen keccak asset (new_feedback e ∷ events) log f v r =
    let out = leaf_if-nil (e.asset == asset) _ _ f in
    rw out.0 (view_unseen keccak asset events log out.1 v r)
view_unseen keccak asset (feedback_revoked e ∷ events) log f v r =
    let out = leaf_if-nil (e.asset == asset) _ _ v in
    rw out.0 (view_unseen keccak asset events log f out.1 r)
view_unseen keccak asset (response_appended e ∷ events) log f v r =
    let out = leaf_if-nil (e.asset == asset) _ _ r in
    rw out.0 (view_unseen keccak asset events log f v out.1)
view_unseen keccak asset (e ∷ events) log f v r = view_unseen keccak asset events log f v r

count_given :
    (b : Bool) (index : ℕ) (client : Pubkey) (leaf : Bytes) (h : History) (leaves : List Bytes)
    → feedbacks h ≡ length leaves
    → feedbacks (entry_if b (given index client) h) ≡ length (leaf_if b leaf leaves)
count_given true index client leaf h leaves e = ap suc e
count_given false index client leaf h leaves e = e

same_count :
    (b : Bool) (entry : Entry) (h : History)
    → feedbacks (entry ∷ h) ≡ feedbacks h
    → feedbacks (entry_if b entry h) ≡ feedbacks h
same_count true entry h e = e
same_count false entry h e = refl

-- The feedbacks of a history are the leaves of the chain of feedbacks.
pub feedbacks-view :
    (keccak : Bytes → Bytes) (asset : Pubkey) (log : List Event)
    → feedbacks (view asset log) ≡ length (leaves keccak feedback asset log)
unfolding view leaves
feedbacks-view keccak asset [] = refl
feedbacks-view keccak asset (new_feedback e ∷ log) =
    count_given (e.asset == asset) _ _ _ _ _ (feedbacks-view keccak asset log)
feedbacks-view keccak asset (feedback_revoked e ∷ log) =
    same_count (e.asset == asset) _ _ refl ∙ feedbacks-view keccak asset log
feedbacks-view keccak asset (response_appended e ∷ log) =
    same_count (e.asset == asset) _ _ refl ∙ feedbacks-view keccak asset log
feedbacks-view keccak asset (e ∷ log) = feedbacks-view keccak asset log

-- The indices of the feedbacks, the latest first.
abbrev pub indices : History → List ℕ
indices [] = []
indices (given index client ∷ h) = index ∷ indices h
indices (revoked index client ∷ h) = indices h
indices (responded index responder ∷ h) = indices h

-- n - 1, …, 1, 0
abbrev pub countdown : ℕ → List ℕ
countdown zero = []
countdown (suc n) = n ∷ countdown n

indices-Step :
    (h h' : History)
    → Step h h'
    → indices h ≡ countdown (feedbacks h)
    → indices h' ≡ countdown (feedbacks h')
indices-Step h h' (give k index client e) ih = ground (arith, ih)
indices-Step h h' (revoke k index client e) ih = ih
indices-Step h h' (respond k index client e) ih = ih

pub indices-IsHistory : (h : History) → IsHistory h → indices h ≡ countdown (feedbacks h)
indices-IsHistory h empty = refl
indices-IsHistory h' (next h k before step) = indices-Step h k step (indices-IsHistory h before)
