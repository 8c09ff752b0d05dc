-- ===== src/Download/Bitmap.antt =====
-- `encodeChunkBitmap` and `decodeChunkBitmap` of internal/aliyunpan/source_checkpoint.go: one bit for each
-- chunk, the lowest bit first. The encoder's loop sets each bit once, in a byte that it finds 0: it
-- is written byte by byte, as a sum. Base64 is a parameter.
use tdrive_aliyunpan.Base.{
  ℕ, zero, suc, ◌+◌, ◌*◌, ◌/◌, ◌%◌, ◌^◌, ◌<◌, ◌≤◌, ◌≡◌, refl, ap, ◌∙◌, Bool, true, false, not, List,
  [], ◌∷◌, Option, none, some, Text, is_empty, length, All, ◌==◌, arith, if◌then◌else◌,
}

-- `encoding/base64` and decimal numbers in JSON keys.
pub record Codec : Type 0 where
  pub encode_to_string : List ℕ → Text
  pub decode_string : Text → Option (List ℕ)

abbrev pub IsByte : ℕ → Type 0
IsByte b = b < 256

-- Decoding what was encoded gives the bytes back.
pub record IsCodec (k : Codec) : Type 0 where
  pub decode-encode :
      (bytes : List ℕ) → All IsByte bytes → k.decode_string (k.encode_to_string bytes) ≡ some bytes

module _ {A : Type 0} where
  -- An index out of range reads the default.
  abbrev pub at : A → List A → ℕ → A
  at d [] i = d
  at d (x ∷ xs) zero = x
  at d (x ∷ xs) (suc i) = at d xs i

  -- `f i`, `f (i + 1)` and so on, `n` of them.
  unfoldable pub tabulate : ℕ → ℕ → (ℕ → A) → List A
  tabulate zero i f = []
  tabulate (suc n) i f = f i ∷ tabulate n (suc i) f

  pub length-tabulate : (n i : ℕ) (f : ℕ → A) → length (tabulate n i f) ≡ n
  unfolding tabulate
  length-tabulate zero i f = refl
  length-tabulate (suc n) i f = ap suc (length-tabulate n (suc i) f)

  at-tabulate : (d : A) (n i j : ℕ) (f : ℕ → A) → j < n → at d (tabulate n i f) j ≡ f (i + j)
  unfolding tabulate
  at-tabulate d zero i j f h = absurd (omega arith)
  at-tabulate d (suc n) i zero f h = ap f (omega arith)
  at-tabulate d (suc n) i (suc j) f h =
      at-tabulate d n (suc i) j f (omega arith) ∙ ap f (omega arith)

  tabulate_shift :
      (d x : A) (xs : List A) (n i : ℕ)
      → tabulate n (suc i) (at d (x ∷ xs)) ≡ tabulate n i (at d xs)
  unfolding tabulate
  tabulate_shift d x xs zero i = refl
  tabulate_shift d x xs (suc n) i = ap (◌∷◌ (at d xs i)) (tabulate_shift d x xs n (suc i))

  tabulate-at : (d : A) (xs : List A) → tabulate (length xs) 0 (at d xs) ≡ xs
  unfolding tabulate
  tabulate-at d [] = refl
  tabulate-at d (x ∷ xs) = ap (◌∷◌ x) (tabulate_shift d x xs (length xs) 0 ∙ tabulate-at d xs)

  tabulate_ext :
      (n i : ℕ) (f g : ℕ → A) → ((j : ℕ) → j < i + n → f j ≡ g j) → tabulate n i f ≡ tabulate n i g
  unfolding tabulate
  tabulate_ext zero i f g h = refl
  tabulate_ext (suc n) i f g h =
      rw (h i (omega arith), tabulate_ext n (suc i) f g (λ j k. h j (omega arith))) refl

abbrev bit : Bool → ℕ
bit true = 1
bit false = 0

-- The byte at an index, when all its bits are set.
unfoldable pub byte_at : List Bool → ℕ → ℕ
byte_at done k =
    bit (at false done (8 * k))
    + 2 * bit (at false done (8 * k + 1))
    + 4 * bit (at false done (8 * k + 2))
    + 8 * bit (at false done (8 * k + 3))
    + 16 * bit (at false done (8 * k + 4))
    + 32 * bit (at false done (8 * k + 5))
    + 64 * bit (at false done (8 * k + 6))
    + 128 * bit (at false done (8 * k + 7))

unfoldable pub bitmap_bytes : List Bool → List ℕ
bitmap_bytes done = tabulate ((length done + 7) / 8) 0 (byte_at done)

unfoldable pub encode_chunk_bitmap : Codec → List Bool → Text
encode_chunk_bitmap k [] = []
encode_chunk_bitmap k (b ∷ done) = k.encode_to_string (bitmap_bytes (b ∷ done))

-- `raw[index/8] & (1 << (index%8)) != 0`
unfoldable pub bit_at : List ℕ → ℕ → Bool
bit_at raw index = not (at 0 raw (index / 8) / 2 ^ (index % 8) % 2 == 0)

-- The bytes are those of `total` bits, or belong to another file.
unfoldable pub decode_bytes : ℕ → Option (List ℕ) → Option (List Bool)
decode_bytes total none = none
decode_bytes total (some raw) =
    if length raw == (total + 7) / 8 then some (tabulate total 0 (bit_at raw)) else none

unfoldable pub decode_chunk_bitmap : Codec → Text → ℕ → Option (List Bool)
decode_chunk_bitmap k encoded zero = if is_empty encoded then some [] else none
decode_chunk_bitmap k encoded (suc n) = decode_bytes (suc n) (k.decode_string encoded)

length-bitmap_bytes : (done : List Bool) → length (bitmap_bytes done) ≡ (length done + 7) / 8
unfolding bitmap_bytes
length-bitmap_bytes done = length-tabulate ((length done + 7) / 8) 0 (byte_at done)

==_refl : (n : ℕ) → (n == n) ≡ true
==_refl n = ground arith

bit-le : (b : Bool) → bit b ≤ 1
bit-le true = omega arith
bit-le false = omega arith

byte_at-IsByte : (done : List Bool) (k : ℕ) → IsByte (byte_at done k)
unfolding byte_at
byte_at-IsByte done k = omega (arith, bit-le)

-- The digits of a sum of powers of two.
module _ (n0 n1 n2 n3 n4 n5 n6 n7 : ℕ) where
  abbrev weighed : ℕ
  weighed = n0 + 2 * n1 + 4 * n2 + 8 * n3 + 16 * n4 + 32 * n5 + 64 * n6 + 128 * n7

  digit :
      (j : ℕ)
      → j < 8
      → n0 ≤ 1
      → n1 ≤ 1
      → n2 ≤ 1
      → n3 ≤ 1
      → n4 ≤ 1
      → n5 ≤ 1
      → n6 ≤ 1
      → n7 ≤ 1
      → weighed / 2 ^ j % 2 ≡ at 0 (n0 ∷ n1 ∷ n2 ∷ n3 ∷ n4 ∷ n5 ∷ n6 ∷ n7 ∷ []) j
  digit zero h h0 h1 h2 h3 h4 h5 h6 h7 = omega arith
  digit (suc zero) h h0 h1 h2 h3 h4 h5 h6 h7 = omega arith
  digit (suc (suc zero)) h h0 h1 h2 h3 h4 h5 h6 h7 = omega arith
  digit (suc (suc (suc zero))) h h0 h1 h2 h3 h4 h5 h6 h7 = omega arith
  digit (suc (suc (suc (suc zero)))) h h0 h1 h2 h3 h4 h5 h6 h7 = omega arith
  digit (suc (suc (suc (suc (suc zero))))) h h0 h1 h2 h3 h4 h5 h6 h7 = omega arith
  digit (suc (suc (suc (suc (suc (suc zero)))))) h h0 h1 h2 h3 h4 h5 h6 h7 = omega arith
  digit (suc (suc (suc (suc (suc (suc (suc zero))))))) h h0 h1 h2 h3 h4 h5 h6 h7 = omega arith
  digit (suc (suc (suc (suc (suc (suc (suc (suc n)))))))) h h0 h1 h2 h3 h4 h5 h6 h7 =
      absurd (omega arith)

at-digits :
    (done : List Bool) (i j : ℕ)
    → j < 8
    → at 0
        (bit (at false done i)
          ∷ bit (at false done (i + 1))
          ∷ bit (at false done (i + 2))
          ∷ bit (at false done (i + 3))
          ∷ bit (at false done (i + 4))
          ∷ bit (at false done (i + 5))
          ∷ bit (at false done (i + 6))
          ∷ bit (at false done (i + 7))
          ∷ [])
        j
      ≡ bit (at false done (i + j))
at-digits done i zero h = ap (λ n. bit (at false done n)) (omega arith)
at-digits done i (suc zero) h = ap (λ n. bit (at false done n)) (omega arith)
at-digits done i (suc (suc zero)) h = ap (λ n. bit (at false done n)) (omega arith)
at-digits done i (suc (suc (suc zero))) h = ap (λ n. bit (at false done n)) (omega arith)
at-digits done i (suc (suc (suc (suc zero)))) h = ap (λ n. bit (at false done n)) (omega arith)
at-digits done i (suc (suc (suc (suc (suc zero))))) h =
    ap (λ n. bit (at false done n)) (omega arith)
at-digits done i (suc (suc (suc (suc (suc (suc zero)))))) h =
    ap (λ n. bit (at false done n)) (omega arith)
at-digits done i (suc (suc (suc (suc (suc (suc (suc zero))))))) h =
    ap (λ n. bit (at false done n)) (omega arith)
at-digits done i (suc (suc (suc (suc (suc (suc (suc (suc n)))))))) h = absurd (omega arith)

not-bit : (b : Bool) → not (bit b == 0) ≡ b
not-bit true = refl
not-bit false = refl

byte_digit :
    (done : List Bool) (k j : ℕ)
    → j < 8
    → byte_at done (0 + k) / 2 ^ j % 2 ≡ bit (at false done (8 * k + j))
unfolding byte_at
byte_digit done k j h =
    let start : 0 + k ≡ k = omega arith in
    rw start (
      digit _ _ _ _ _ _ _ _ j h (bit-le _) (bit-le _) (bit-le _) (bit-le _) (bit-le _) (bit-le _)
        (bit-le _) (bit-le _)
      ∙ at-digits done (8 * k) j h)

-- The bit at an index is the mark of the chunk.
bit_at_lem :
    (done : List Bool) (index : ℕ)
    → index < length done
    → bit_at (bitmap_bytes done) index ≡ at false done index
unfolding bit_at bitmap_bytes
bit_at_lem done index h =
    let k : ℕ = index / 8 in
    let j : ℕ = index % 8 in
    let same : 8 * k + j ≡ index = omega arith in
    rw
      (
        at-tabulate 0 ((length done + 7) / 8) 0 k (byte_at done) (omega arith),
        byte_digit done k j (omega arith),
        same,
      )
      (not-bit (at false done index))

decode_bytes-bitmap_bytes :
    (done : List Bool) → decode_bytes (length done) (some (bitmap_bytes done)) ≡ some done
unfolding decode_bytes
decode_bytes-bitmap_bytes done =
    rw (length-bitmap_bytes done, ==_refl ((length done + 7) / 8))
      (ap some (
        tabulate_ext (length done) 0 (bit_at (bitmap_bytes done)) (at false done)
          (λ j h. bit_at_lem done j (omega arith))
        ∙ tabulate-at false done))

bitmap_bytes-IsByte : (done : List Bool) → All IsByte (bitmap_bytes done)
unfolding bitmap_bytes tabulate
bitmap_bytes-IsByte done = every ((length done + 7) / 8) 0
  where
    every : (n i : ℕ) → All IsByte (tabulate n i (byte_at done))
    every zero i = tt
    every (suc n) i = (byte_at-IsByte done i, every n (suc i))

-- What the encoder writes for a file's chunks, the decoder reads back for the same number of chunks.
pub decode_chunk_bitmap-encode_chunk_bitmap :
    (k : Codec)
    → IsCodec k
    → (done : List Bool)
    → decode_chunk_bitmap k (encode_chunk_bitmap k done) (length done) ≡ some done
unfolding decode_chunk_bitmap encode_chunk_bitmap
decode_chunk_bitmap-encode_chunk_bitmap k laws [] = refl
decode_chunk_bitmap-encode_chunk_bitmap k laws (b ∷ done) =
    rw (laws.decode-encode (bitmap_bytes (b ∷ done)) (bitmap_bytes-IsByte (b ∷ done)))
      (decode_bytes-bitmap_bytes (b ∷ done))
