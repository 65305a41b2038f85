-- ===== src/Helpers/Generate.antt =====
-- tests/utils/helpers.ts: the generators of test data. `random i n` is the `i`-th draw below `n`,
-- `Math.floor(Math.random() * n)`.
use solana.Prelude.{
  ℕ, zero, suc, ◌+◌, ◌-◌, ◌<◌, ◌≡◌, refl, ap, min, Option, none, some, [], ◌∷◌, ◌++◌, arith, Bytes,
  ascii, length, get_elem?, replicate, length-append, length-replicate, All, ltb, if◌then◌else◌,
}

abbrev pub max_uri_length : ℕ
max_uri_length = 250

abbrev pub max_tag_length : ℕ
max_tag_length = 32

abbrev pub max_metadata_key_length : ℕ
max_metadata_key_length = 32

abbrev pub max_metadata_value_length : ℕ
max_metadata_value_length = 250

-- `chars.charAt(i)`, empty out of range.
abbrev char_at : Option ℕ → Bytes
char_at none = []
char_at (some c) = c ∷ []

module _ (random : ℕ → ℕ → ℕ) where
  -- The loop of a generator from draw `i` on, `n` characters long.
  unfoldable pub random_chars : Bytes → ℕ → ℕ → Bytes
  random_chars chars i zero = []
  random_chars chars i (suc n) =
      char_at (get_elem? chars (random i (length chars))) ++ random_chars chars (i + 1) n

  -- The loop of a generator of bytes.
  unfoldable pub random_bytes : ℕ → ℕ → Bytes
  random_bytes i zero = []
  random_bytes i (suc n) = random i 256 ∷ random_bytes (i + 1) n

  unfoldable pub random_hash : Bytes
  random_hash = random_bytes 0 32

  unfoldable pub random_uri : ℕ → Bytes
  random_uri n =
      ascii "https://example.com/"
      ++ random_chars (ascii "abcdefghijklmnopqrstuvwxyz0123456789") 0
          (n - length (ascii "https://example.com/"))

  unfoldable pub random_tag : ℕ → Bytes
  random_tag n = random_chars (ascii "abcdefghijklmnopqrstuvwxyz") 0 (min n max_tag_length)

  unfoldable pub random_metadata_key : ℕ → Bytes
  random_metadata_key n =
      random_chars (ascii "abcdefghijklmnopqrstuvwxyz_") 0 (min n max_metadata_key_length)

  unfoldable pub random_metadata_value : ℕ → Bytes
  random_metadata_value n = random_bytes 0 (min n max_metadata_value_length)

unfoldable pub string_of_length : ℕ → ℕ → Bytes
string_of_length n char = replicate n char

unfoldable pub uri_of_length : ℕ → Bytes
uri_of_length n =
    if ltb n (length (ascii "https://a.b/"))
    then replicate n b'h'
    else ascii "https://a.b/" ++ replicate (n - length (ascii "https://a.b/")) b'x'

-- A URI of exact length has that length, whatever the length; so does a string of exact length.
pub uri_of_length-length :
    (n char : ℕ) → (length (uri_of_length n) ≡ n) × (length (string_of_length n char) ≡ n)
unfolding uri_of_length string_of_length
uri_of_length-length n char = (
  ground (
    arith,
    length-replicate {A = ℕ} n b'h',
    length-replicate {A = ℕ} (n - 12) b'x',
    length-append (ascii "https://a.b/") (replicate (n - 12) b'x'),
  ),
  length-replicate n char,
)

get-some : (xs : Bytes) (i : ℕ) → i < length xs → (x : ℕ) × (get_elem? xs i ≡ some x)
get-some [] i h = absurd (omega arith)
get-some (x ∷ xs) zero h = (x, refl)
get-some (x ∷ xs) (suc i) h = get-some xs i (omega arith)

module _ (random : ℕ → ℕ → ℕ) (in_range : (i n : ℕ) → 0 < n → random i n < n) where
  length-random_chars :
      (chars : Bytes) (i n : ℕ) → 0 < length chars → length (random_chars random chars i n) ≡ n
  unfolding random_chars
  length-random_chars chars i zero h = refl
  length-random_chars chars i (suc n) h =
      let (c, there) = get-some chars (random i (length chars)) (in_range i (length chars) h) in
      rw there (ap suc (length-random_chars chars (i + 1) n h))

  length-random_bytes : (i n : ℕ) → length (random_bytes random i n) ≡ n
  unfolding random_bytes
  length-random_bytes i zero = refl
  length-random_bytes i (suc n) = ap suc (length-random_bytes (i + 1) n)

  random_bytes-below : (i n : ℕ) → All (λ b. b < 256) (random_bytes random i n)
  unfolding random_bytes
  random_bytes-below i zero = tt
  random_bytes-below i (suc n) = (in_range i 256 (omega arith), random_bytes-below (i + 1) n)

  -- Where each draw is in its range: a random URI has the length asked for, or 20 where that is
  -- less; a tag and a metadata key have it up to 32 and a metadata value up to 250; a hash has 32
  -- bytes, each below 256.
  generated_lengths :
      (n : ℕ)
      → (length (random_uri random n) ≡ (if ltb n 20 then 20 else n))
        × (length (random_tag random n) ≡ min n 32)
        × (length (random_metadata_key random n) ≡ min n 32)
        × (length (random_metadata_value random n) ≡ min n 250)
        × (length (random_hash random) ≡ 32)
        × All (λ b. b < 256) (random_hash random)
  unfolding random_uri random_tag random_metadata_key random_metadata_value random_hash
  generated_lengths n = (
    ground (
      arith,
      length-append (ascii "https://example.com/")
          (random_chars random (ascii "abcdefghijklmnopqrstuvwxyz0123456789") 0 (n - 20)),
      length-random_chars (ascii "abcdefghijklmnopqrstuvwxyz0123456789") 0 (n - 20) (omega arith),
    ),
    length-random_chars _ 0 (min n 32) (omega arith),
    length-random_chars _ 0 (min n 32) (omega arith),
    length-random_bytes 0 (min n 250),
    length-random_bytes 0 32,
    random_bytes-below 0 32,
  )
