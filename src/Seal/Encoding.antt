-- ===== src/Seal/Encoding.antt =====
-- The encoding of a feedback's content is injective, so its seal hash binds every field.
use solana.Prelude.{
  ℕ, ◌<◌, ◌^◌, ◌%◌, ◌≡◌, refl, sym, ◌∙◌, ap, append_assoc, ◌⊎◌, inl, inr, Option, none, some, [],
  ◌∷◌, ◌++◌, arith, Bytes, le_bytes, length, length-le_bytes, le_bytes_inj, append_cancel,
  Collision, hash_binding,
}
use solana.Prelude.Int.{ℤ, twos, Fits, twos-lt, twos_inj}
use solana.Seal.{
  Content, IsContent, domain_seal_v1, encode_score, encode_file_hash, encode_string, seal_data,
  compute_seal_hash,
}

-- The first of two encoded strings, and what follows it, can be read back.
encode_string_cancel :
    (s t us vs : Bytes)
    → length s < 2 ^ 16
    → length t < 2 ^ 16
    → encode_string s ++ us ≡ encode_string t ++ vs
    → (s ≡ t) × (us ≡ vs)
unfolding encode_string
encode_string_cancel s t us vs hs ht e =
    let e' : le_bytes 2 (length s % 2 ^ 16) ++ (s ++ us)
        ≡ le_bytes 2 (length t % 2 ^ 16) ++ (t ++ vs) =
      sym (append_assoc _ s us) ∙ (e ∙ append_assoc _ t vs) in
    let heads =
      append_cancel (le_bytes 2 (length s % 2 ^ 16)) (s ++ us) (le_bytes 2 (length t % 2 ^ 16))
        (t ++ vs)
        (cc (length-le_bytes 2 (length s % 2 ^ 16), length-le_bytes 2 (length t % 2 ^ 16))) e' in
    let n : length s % 2 ^ 16 ≡ length t % 2 ^ 16 =
      le_bytes_inj 2 (length s % 2 ^ 16) (length t % 2 ^ 16) (omega arith) (omega arith) heads.0 in
    append_cancel s us t vs (omega arith) heads.1

encode_score_cancel :
    (s t : Option ℕ) (us vs : Bytes)
    → encode_score s ++ us ≡ encode_score t ++ vs
    → (s ≡ t) × (us ≡ vs)
unfolding encode_score
encode_score_cancel none none us vs e = (refl, cc)
encode_score_cancel none (some t) us vs e = ground arith
encode_score_cancel (some s) none us vs e = ground arith
encode_score_cancel (some s) (some t) us vs e = (cc, cc)

encode_file_hash_cancel :
    (s t : Option Bytes) (us vs : Bytes)
    → ((h : Bytes) → s ≡ some h → length h ≡ 32)
    → ((h : Bytes) → t ≡ some h → length h ≡ 32)
    → encode_file_hash s ++ us ≡ encode_file_hash t ++ vs
    → (s ≡ t) × (us ≡ vs)
unfolding encode_file_hash
encode_file_hash_cancel none none us vs hs ht e = (refl, cc)
encode_file_hash_cancel none (some t) us vs hs ht e = ground arith
encode_file_hash_cancel (some s) none us vs hs ht e = ground arith
encode_file_hash_cancel (some s) (some t) us vs hs ht e =
    let parts = append_cancel s us t vs (cc (hs s refl, ht t refl)) (cc) in
    (ap some parts.0, parts.1)

value_inj :
    (a b : ℤ)
    → Fits (2 ^ 127) a
    → Fits (2 ^ 127) b
    → le_bytes 16 (twos (2 ^ 128) a) ≡ le_bytes 16 (twos (2 ^ 128) b)
    → a ≡ b
value_inj a b ha hb e =
    let la = twos-lt (2 ^ 127) a ha in
    let lb = twos-lt (2 ^ 127) b hb in
    twos_inj (2 ^ 127) a b ha hb (le_bytes_inj 16 (twos (2 ^ 128) a) (twos (2 ^ 128) b) la lb e)

-- What follows the fixed fields: the four strings.
strings_inj :
    (a b : Content)
    → IsContent a
    → IsContent b
    → encode_string a.tag1
        ++ (encode_string a.tag2 ++ (encode_string a.endpoint ++ encode_string a.feedback_uri))
      ≡ encode_string b.tag1
        ++ (encode_string b.tag2 ++ (encode_string b.endpoint ++ encode_string b.feedback_uri))
    → (a.tag1 ≡ b.tag1)
      × (a.tag2 ≡ b.tag2)
      × (a.endpoint ≡ b.endpoint)
      × (a.feedback_uri ≡ b.feedback_uri)
strings_inj a b va vb e =
    let p = encode_string_cancel a.tag1 b.tag1 _ _ va.tag1_length vb.tag1_length e in
    let q = encode_string_cancel a.tag2 b.tag2 _ _ va.tag2_length vb.tag2_length p.1 in
    let r =
      encode_string_cancel a.endpoint b.endpoint _ _ va.endpoint_length vb.endpoint_length q.1 in
    let last : encode_string a.feedback_uri ++ [] ≡ encode_string b.feedback_uri ++ [] = rw r.1 in
    let s =
      encode_string_cancel a.feedback_uri b.feedback_uri [] [] va.feedback_uri_length
        vb.feedback_uri_length last in
    (p.0, q.0, r.0, s.0)

-- Two contents in range with one encoding are equal in every field.
pub seal_data_inj : (a b : Content) → IsContent a → IsContent b → seal_data a ≡ seal_data b → a ≡ b
unfolding seal_data
seal_data_inj a b va vb e =
    let d = append_cancel domain_seal_v1 _ domain_seal_v1 _ refl e in
    let v =
      append_cancel (le_bytes 16 (twos (2 ^ 128) a.value)) _ (le_bytes 16 (twos (2 ^ 128) b.value))
        _
        (cc (
          length-le_bytes 16 (twos (2 ^ 128) a.value),
          length-le_bytes 16 (twos (2 ^ 128) b.value),
        ))
        d.1 in
    let value_eq = value_inj a.value b.value va.value_fits vb.value_fits v.0 in
    let dec = append_cancel (a.value_decimals ∷ []) _ (b.value_decimals ∷ []) _ refl v.1 in
    let sc = encode_score_cancel a.score b.score _ _ dec.1 in
    let fh =
      encode_file_hash_cancel a.feedback_file_hash b.feedback_file_hash _ _ va.file_hash_length
        vb.file_hash_length sc.1 in
    let st = strings_inj a b va vb fh.1 in ground (arith, value_eq, dec.0, sc.0, fh.0, st)

-- Two contents in range with one seal hash agree in every field, or a collision of Keccak is at hand.
pub compute_seal_hash_binding :
    (keccak : Bytes → Bytes) (a b : Content)
    → IsContent a
    → IsContent b
    → compute_seal_hash keccak a ≡ compute_seal_hash keccak b
    → (a ≡ b) ⊎ Collision keccak
unfolding compute_seal_hash
compute_seal_hash_binding keccak a b va vb e =
    elim (hash_binding keccak (seal_data a) (seal_data b) e) [
      | inl same ↦ inl (seal_data_inj a b va vb same)
      | inr clash ↦ inr clash
    ]
