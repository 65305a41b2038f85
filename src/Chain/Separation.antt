-- ===== src/Chain/Separation.antt =====
-- The inputs that are hashed for the leaves of feedbacks, responses and revocations are injective
-- in their fields and never the same across the kinds.
use solana.Prelude.{
  ℕ, ◌<◌, ◌^◌, ◌≡◌, ◌≢◌, refl, sym, ◌∙◌, ◌++◌, arith, Bytes, le_bytes, length, length-le_bytes,
  le_bytes_inj, append_cancel, Pubkey, key_bytes, IsKey,
}
use solana.Seal.{domain_leaf_v1, feedback_leaf_data}
use solana.Chain.{
  domain_response_leaf_v1, domain_revoke_leaf_v1, response_leaf_data, revoke_leaf_data,
}

key_bytes_cancel :
    (a b : Pubkey) (us vs : Bytes)
    → IsKey a
    → IsKey b
    → key_bytes a ++ us ≡ key_bytes b ++ vs
    → (a ≡ b) × (us ≡ vs)
key_bytes_cancel a b us vs ha hb e =
    let p =
      append_cancel (key_bytes a) us (key_bytes b) vs
        (length-le_bytes 32 a ∙ sym (length-le_bytes 32 b)) e in
    (le_bytes_inj 32 a b ha hb p.0, p.1)

u64_cancel :
    (m n : ℕ) (us vs : Bytes)
    → m < 256 ^ 8
    → n < 256 ^ 8
    → le_bytes 8 m ++ us ≡ le_bytes 8 n ++ vs
    → (m ≡ n) × (us ≡ vs)
u64_cancel m n us vs hm hn e =
    let p =
      append_cancel (le_bytes 8 m) us (le_bytes 8 n) vs
        (length-le_bytes 8 m ∙ sym (length-le_bytes 8 n)) e in
    (le_bytes_inj 8 m n hm hn p.0, p.1)

-- What binds a leaf to its place: asset, client, index and slot, within their types.
pub record Place : Type 0 where
  pub asset : Pubkey
  pub client : Pubkey
  pub index : ℕ
  pub slot : ℕ

pub record IsPlace (p : Place) : Type 0 where
  pub asset_key : IsKey p.asset
  pub client_key : IsKey p.client
  pub index_fits : p.index < 256 ^ 8
  pub slot_fits : p.slot < 256 ^ 8

-- The fields that every leaf begins with, behind its domain.
head_cancel :
    (p q : Place) (us vs : Bytes)
    → IsPlace p
    → IsPlace q
    → key_bytes p.asset ++ (key_bytes p.client ++ (le_bytes 8 p.index ++ us))
      ≡ key_bytes q.asset ++ (key_bytes q.client ++ (le_bytes 8 q.index ++ vs))
    → (p.asset ≡ q.asset) × (p.client ≡ q.client) × (p.index ≡ q.index) × (us ≡ vs)
head_cancel p q us vs vp vq e =
    let a = key_bytes_cancel p.asset q.asset _ _ vp.asset_key vq.asset_key e in
    let c = key_bytes_cancel p.client q.client _ _ vp.client_key vq.client_key a.1 in
    let i = u64_cancel p.index q.index us vs vp.index_fits vq.index_fits c.1 in (a.0, c.0, i.0, i.1)

-- The hash and the slot that a leaf ends with.
tail_cancel :
    (p q : Place) (h k : Bytes)
    → IsPlace p
    → IsPlace q
    → length h ≡ 32
    → length k ≡ 32
    → h ++ le_bytes 8 p.slot ≡ k ++ le_bytes 8 q.slot
    → (h ≡ k) × (p.slot ≡ q.slot)
tail_cancel p q h k vp vq lh lk e =
    let s = append_cancel h (le_bytes 8 p.slot) k (le_bytes 8 q.slot) (lh ∙ sym lk) e in
    (s.0, le_bytes_inj 8 p.slot q.slot vp.slot_fits vq.slot_fits s.1)

place_eq :
    (p q : Place)
    → p.asset ≡ q.asset
    → p.client ≡ q.client
    → p.index ≡ q.index
    → p.slot ≡ q.slot
    → p ≡ q
place_eq p q a c i s = ground arith

-- The input of a feedback leaf determines the place and the seal hash, where keys, indices, slots and
-- hashes have the widths of their types.
feedback_leaf_data_inj :
    (p q : Place) (h k : Bytes)
    → IsPlace p
    → IsPlace q
    → length h ≡ 32
    → length k ≡ 32
    → feedback_leaf_data p.asset p.client p.index h p.slot
      ≡ feedback_leaf_data q.asset q.client q.index k q.slot
    → (p ≡ q) × (h ≡ k)
unfolding feedback_leaf_data
feedback_leaf_data_inj p q h k vp vq lh lk e =
    let d = append_cancel domain_leaf_v1 _ domain_leaf_v1 _ refl e in
    let (a, c, i, rest) = head_cancel p q _ _ vp vq d.1 in
    let (hk, s) = tail_cancel p q h k vp vq lh lk rest in (place_eq p q a c i s, hk)

-- The input of a revocation leaf determines the place and the seal hash, where keys, indices, slots
-- and hashes have the widths of their types.
revoke_leaf_data_inj :
    (p q : Place) (h k : Bytes)
    → IsPlace p
    → IsPlace q
    → length h ≡ 32
    → length k ≡ 32
    → revoke_leaf_data p.asset p.client p.index h p.slot
      ≡ revoke_leaf_data q.asset q.client q.index k q.slot
    → (p ≡ q) × (h ≡ k)
unfolding revoke_leaf_data
revoke_leaf_data_inj p q h k vp vq lh lk e =
    let d = append_cancel domain_revoke_leaf_v1 _ domain_revoke_leaf_v1 _ refl e in
    let (a, c, i, rest) = head_cancel p q _ _ vp vq d.1 in
    let (hk, s) = tail_cancel p q h k vp vq lh lk rest in (place_eq p q a c i s, hk)

-- The input of a response leaf determines the place, the responder and both hashes, where keys,
-- indices, slots and hashes have the widths of their types.
response_leaf_data_inj :
    (p q : Place) (r s : Pubkey) (rh sh h k : Bytes)
    → IsPlace p
    → IsPlace q
    → IsKey r
    → IsKey s
    → length rh ≡ 32
    → length sh ≡ 32
    → length h ≡ 32
    → length k ≡ 32
    → response_leaf_data p.asset p.client p.index r rh h p.slot
      ≡ response_leaf_data q.asset q.client q.index s sh k q.slot
    → (p ≡ q) × (r ≡ s) × (rh ≡ sh) × (h ≡ k)
unfolding response_leaf_data
response_leaf_data_inj p q r s rh sh h k vp vq kr ks lrh lsh lh lk e =
    let d = append_cancel domain_response_leaf_v1 _ domain_response_leaf_v1 _ refl e in
    let (a, c, i, rest) = head_cancel p q _ _ vp vq d.1 in
    let (rs, rest') = key_bytes_cancel r s _ _ kr ks rest in
    let (rhs, rest'') = append_cancel rh _ sh _ (lrh ∙ sym lsh) rest' in
    let (hk, sl) = tail_cancel p q h k vp vq lh lk rest'' in (place_eq p q a c i sl, rs, rhs, hk)

-- No input of a leaf of one kind is an input of a leaf of another kind.
pub leaf_kinds_disjoint :
    (p q : Place) (r : Pubkey) (h k rh : Bytes)
    → (feedback_leaf_data p.asset p.client p.index h p.slot
        ≢ revoke_leaf_data q.asset q.client q.index k q.slot)
      × (feedback_leaf_data p.asset p.client p.index h p.slot
          ≢ response_leaf_data q.asset q.client q.index r rh k q.slot)
      × (revoke_leaf_data p.asset p.client p.index h p.slot
          ≢ response_leaf_data q.asset q.client q.index r rh k q.slot)
unfolding feedback_leaf_data revoke_leaf_data response_leaf_data
leaf_kinds_disjoint p q r h k rh = (
  λ e. other_domain (append_cancel domain_leaf_v1 _ domain_revoke_leaf_v1 _ refl e).0,
  λ e. other_domain' (append_cancel domain_leaf_v1 _ domain_response_leaf_v1 _ refl e).0,
  λ e. other_domain'' (append_cancel domain_revoke_leaf_v1 _ domain_response_leaf_v1 _ refl e).0,
)
  where
    other_domain : domain_leaf_v1 ≢ domain_revoke_leaf_v1
    other_domain e = ground arith

    other_domain' : domain_leaf_v1 ≢ domain_response_leaf_v1
    other_domain' e = ground arith

    other_domain'' : domain_revoke_leaf_v1 ≢ domain_response_leaf_v1
    other_domain'' e = ground arith
