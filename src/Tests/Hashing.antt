-- ===== src/Tests/Hashing.antt =====
-- The encodings and the chains at concrete inputs.
use solana.Prelude.{◌≡◌, ◌≢◌, ◌⊎◌, refl, Bytes, replicate, arith, Collision}
use solana.Seal.{IsContent, feedback_leaf_data}
use solana.Seal.Encoding.{compute_seal_hash_binding}
use solana.Chain.{zero_digest, revoke_leaf_data, response_leaf_data}
use solana.Chain.Separation.{Place, IsPlace, leaf_kinds_disjoint}
use solana.Tests.Demo as D

content-IsContent : IsContent D.content
content-IsContent = record {
  value_fits = omega arith;
  file_hash_length = λ h e. absurd (cc);
  tag1_length = omega arith;
  tag2_length = omega arith;
  endpoint_length = omega arith;
  feedback_uri_length = omega arith;
}

compute_seal_hash_binding_example : (D.content ≡ D.content) ⊎ Collision D.measure
compute_seal_hash_binding_example =
    compute_seal_hash_binding D.measure D.content D.content content-IsContent content-IsContent refl

abbrev place : Place
place = record { asset = 11; client = 13; index = 4; slot = 77 }

place-IsPlace : IsPlace place
place-IsPlace = record {
  asset_key = omega arith;
  client_key = omega arith;
  index_fits = omega arith;
  slot_fits = omega arith;
}

abbrev hash_a : Bytes
hash_a = replicate 32 7

leaf_kinds_disjoint_example :
    (feedback_leaf_data 11 13 4 hash_a 77 ≢ revoke_leaf_data 11 13 4 hash_a 77)
    × (feedback_leaf_data 11 13 4 hash_a 77 ≢ response_leaf_data 11 13 4 12 zero_digest hash_a 77)
    × (revoke_leaf_data 11 13 4 hash_a 77 ≢ response_leaf_data 11 13 4 12 zero_digest hash_a 77)
leaf_kinds_disjoint_example = leaf_kinds_disjoint place place 12 hash_a hash_a zero_digest
