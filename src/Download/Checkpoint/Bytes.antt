-- ===== src/Download/Checkpoint/Bytes.antt =====
-- `completed` against the size of the file: no byte is counted twice, and none that is not there.
use tdrive_aliyunpan.Base.{
  ℕ, zero, suc, ◌+◌, ◌-◌, ◌*◌, ◌<◌, ◌≡◌, refl, ap, ◌∙◌, subst, Bool, true, false, List, [], ◌∷◌,
  none, ℤ, pos, pos_part, neg_part, ◌+ℤ◌, ◌≤ℤ◌, ◌<ℤ◌, int_laws, +ℤ_parts, eq_of_parts, length, All,
  ltb, arith, if◌then◌else◌,
}
use tdrive_aliyunpan.Base.Table.{lookup, delete, IsKeyed}
use tdrive_aliyunpan.Download.Chunks.{
  chunk_count, chunk_length, chunk_length_lem, begin-lt, count-le,
}
use tdrive_aliyunpan.Download.Bitmap.{at}
use tdrive_aliyunpan.Download.Checkpoint.{
  CheckpointFile, is_partial, mark, done_chunks, done_bytes, partial_total, completed, pending_from,
  pending,
}
use tdrive_aliyunpan.Download.Checkpoint.Valid.{IsOffset, IsValid, marked_offsets, length-mark}

-- The bytes of the chunks that are not complete.
missing_bytes : ℤ → ℤ → ℕ → List Bool → ℤ
missing_bytes size chunk_size index [] = pos 0
missing_bytes size chunk_size index (b ∷ done) =
    (if b then pos 0 else chunk_length index size chunk_size)
    +ℤ missing_bytes size chunk_size (suc index) done

delete_absent : {V : Type 0} (k : ℕ) (m : List (ℕ × V)) → lookup k m ≡ none → delete k m ≡ m
unfolding lookup delete
delete_absent k [] h = refl
delete_absent k ((j, v) ∷ m) h = ground (arith, delete_absent k m)

-- Marking a chunk takes its bytes from those that are missing.
missing_bytes-mark :
    (size chunk_size : ℤ) (index i : ℕ) (done : List Bool)
    → ltb i (length done) ≡ true
    → at false done i ≡ false
    → missing_bytes size chunk_size index done
      ≡ chunk_length (index + i) size chunk_size
        +ℤ missing_bytes size chunk_size index (mark i done)
unfolding missing_bytes
missing_bytes-mark size chunk_size index i [] h n = absurd (ground arith)
missing_bytes-mark size chunk_size index zero (b ∷ done) h n =
    let here : index + 0 ≡ index = omega arith in rw (here, n) (eq_of_parts _ _ (omega int_laws))
missing_bytes-mark size chunk_size index (suc i) (b ∷ done) h n =
    let rest = missing_bytes-mark size chunk_size (suc index) i done (ground arith) n in
    let here : suc index + i ≡ index + suc i = omega arith in
    eq_of_parts _ _ (rw (rest, here) (omega int_laws))

missing_bytes-positive :
    (size chunk_size : ℤ) (index : ℕ) (done : List Bool)
    → ((i : ℕ) → i < index + length done → pos 0 ≤ℤ chunk_length i size chunk_size)
    → pos 0 ≤ℤ missing_bytes size chunk_size index done
unfolding missing_bytes
missing_bytes-positive size chunk_size index [] l = omega arith
missing_bytes-positive size chunk_size index (true ∷ done) l =
    omega
      (int_laws, missing_bytes-positive size chunk_size (suc index) done (λ i h. l i (omega arith)))
missing_bytes-positive size chunk_size index (false ∷ done) l = omega (
  int_laws,
  l index (omega arith),
  missing_bytes-positive size chunk_size (suc index) done (λ i h. l i (omega arith)),
)

-- The parts of the offsets' test.
is_partial_parts :
    (done : List Bool) (size chunk_size : ℤ) (index : ℕ) (offset : ℤ)
    → is_partial done size chunk_size index offset ≡ true
    → (ltb index (length done) ≡ true)
      × (at false done index ≡ false)
      × (pos 0 <ℤ offset)
      × (offset <ℤ chunk_length index size chunk_size)
unfolding is_partial
is_partial_parts done size chunk_size index offset h = ground arith

sum_le : (a l t m whole : ℤ) → a <ℤ l → t ≤ℤ m → whole ≡ l +ℤ m → a +ℤ t ≤ℤ whole
sum_le a l t m whole p q e = rw e (omega (arith, p, q, +ℤ_parts a t, +ℤ_parts l m))

-- The offsets stand for less than is missing.
partial_total-le :
    (size chunk_size : ℤ) (done : List Bool) (m : List (ℕ × ℤ))
    → ((i : ℕ) → i < length done → pos 0 ≤ℤ chunk_length i size chunk_size)
    → All (IsOffset done size chunk_size) m
    → IsKeyed m
    → partial_total m ≤ℤ missing_bytes size chunk_size 0 done
unfolding partial_total
partial_total-le size chunk_size done [] l h k =
    missing_bytes-positive size chunk_size 0 done (λ i h. l i (omega arith))
partial_total-le size chunk_size done ((i, offset) ∷ m) l h k =
    let (inside, missing, more, less) = is_partial_parts done size chunk_size i offset h.0 in
    let kept : All (IsOffset (mark i done) size chunk_size) m =
      subst (All (IsOffset (mark i done) size chunk_size)) (delete_absent i m k.0)
        (marked_offsets i done size chunk_size m h.1) in
    let rest : partial_total m ≤ℤ missing_bytes size chunk_size 0 (mark i done) =
      partial_total-le size chunk_size (mark i done) m
        (λ j b. l j (omega (arith, b, length-mark i done))) kept k.1 in
    let start : 0 + i ≡ i = omega arith in
    let taken = missing_bytes-mark size chunk_size 0 i done inside missing in
    sum_le _ _ _ _ _ less rest (taken ∙ rw start refl)

-- A chunk's bytes go to one of the two sums.
split_step :
    (b : Bool) (l d m : ℤ)
    → ((if b then l else pos 0) +ℤ d) +ℤ ((if b then pos 0 else l) +ℤ m) ≡ l +ℤ (d +ℤ m)
split_step true l d m = eq_of_parts _ _ (omega int_laws)
split_step false l d m = eq_of_parts _ _ (omega int_laws)

-- Complete and missing bytes are the file's.
bytes_split :
    (s c : ℕ)
    → 0 < c
    → (index : ℕ) (done : List Bool) → index + length done ≡ chunk_count (pos s) (pos c)
    → done_bytes (pos s) (pos c) index done +ℤ missing_bytes (pos s) (pos c) index done
      ≡ pos (s - index * c)
unfolding done_bytes missing_bytes
bytes_split s c positive index [] h =
    eq_of_parts _ _ (omega (int_laws, count-le s c positive, ap (λ n. n * c) (end h)))
  where
    end : index + 0 ≡ chunk_count (pos s) (pos c) → index ≡ chunk_count (pos s) (pos c)
    end e = omega (arith, e)
bytes_split s c positive index (b ∷ done) h =
    let rest = bytes_split s c positive (suc index) done (omega (arith, h)) in
    let starts = begin-lt s c positive index (omega (arith, h)) in
    let here = chunk_length_lem s c positive index (omega (arith, starts)) in
    let step : suc index * c ≡ index * c + c = grind arith in
    split_step b _ _ _ ∙ rw (rest, here) (eq_of_parts _ _ (omega (int_laws, step)))

done_chunks-pending_from :
    (index : ℕ) (done : List Bool)
    → done_chunks done + length (pending_from index done) ≡ length done
unfolding done_chunks pending_from
done_chunks-pending_from index [] = refl
done_chunks-pending_from index (true ∷ done) =
    omega (arith, done_chunks-pending_from (suc index) done)
done_chunks-pending_from index (false ∷ done) =
    omega (arith, done_chunks-pending_from (suc index) done)

nothing_missing :
    (size chunk_size : ℤ) (index : ℕ) (done : List Bool)
    → pending_from index done ≡ []
    → missing_bytes size chunk_size index done ≡ pos 0
unfolding pending_from missing_bytes
nothing_missing size chunk_size index [] h = refl
nothing_missing size chunk_size index (true ∷ done) h =
    eq_of_parts _ _ (rw (nothing_missing size chunk_size (suc index) done h) (omega int_laws))
nothing_missing size chunk_size index (false ∷ done) h = absurd (ground arith)

module _ (s c : ℕ) (positive : 0 < c) (done : List Bool)
    (count : length done ≡ chunk_count (pos s) (pos c)) where
  split : done_bytes (pos s) (pos c) 0 done +ℤ missing_bytes (pos s) (pos c) 0 done ≡ pos s
  split = bytes_split s c positive 0 done (omega (arith, count)) ∙ ap pos (omega arith)

  chunk_length-positive : (i : ℕ) → i < length done → pos 0 ≤ℤ chunk_length i (pos s) (pos c)
  chunk_length-positive i h =
      rw
        (chunk_length_lem s c positive i
          (omega (arith, begin-lt s c positive i (omega (arith, h, count)))))
        (omega arith)

  counted-le :
      (m : List (ℕ × ℤ))
      → All (IsOffset done (pos s) (pos c)) m
      → IsKeyed m
      → done_bytes (pos s) (pos c) 0 done +ℤ partial_total m ≤ℤ pos s
  counted-le m h k =
      let le = partial_total-le (pos s) (pos c) done m chunk_length-positive h k in
      omega (int_laws, le, ap pos_part split, ap neg_part split)

  all_done : pending_from 0 done ≡ [] → done_bytes (pos s) (pos c) 0 done ≡ pos s
  all_done h =
      let rest = nothing_missing (pos s) (pos c) 0 done h in
      eq_of_parts _ _
        (omega (int_laws, ap pos_part split, ap neg_part split, ap pos_part rest, ap neg_part rest))

-- For a consistent record of a file of s bytes in chunks of c: the bytes of the complete chunks
-- and the part-way offsets are together at most s, the complete chunks and the pending ones are all
-- the chunks, and with no chunk pending the complete ones hold exactly s bytes.
pub completed-IsBounded :
    (s c : ℕ) (r : CheckpointFile)
    → 0 < c
    → r.meta.size ≡ pos s
    → r.meta.chunk_size ≡ pos c
    → IsValid r
    → ((completed r).1 +ℤ (completed r).2 ≤ℤ pos s)
      × ((completed r).0 + length (pending r) ≡ chunk_count (pos s) (pos c))
      × (pending r ≡ [] → (completed r).1 ≡ pos s)
unfolding completed pending
completed-IsBounded s c r positive es ec v =
    let count : length r.done ≡ chunk_count (pos s) (pos c) = v.count ∙ rw (es, ec) refl in
    let offsets : All (IsOffset r.done (pos s) (pos c)) r.partial =
      subst (λ z. All (IsOffset r.done z (pos c)) r.partial) es
        (subst (λ z. All (IsOffset r.done r.meta.size z) r.partial) ec v.offsets) in
    rw (es, ec)
      (
        counted-le s c positive r.done count r.partial offsets v.keyed,
        done_chunks-pending_from 0 r.done ∙ count,
        all_done s c positive r.done count,
      )
