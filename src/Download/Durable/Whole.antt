-- ===== src/Download/Durable/Whole.antt =====
-- What a resumed download may rely on, and what a finished one has on the disk.
use native.Mathlib.Nat.{div-lt_iff_lt-mul, div-mul-le_self, mod-eq-sub-div-mul, mod-lt}
use tdrive_aliyunpan.Base.{
  ℕ, zero, suc, ◌-◌, ◌*◌, ◌/◌, ◌%◌, ◌<◌, ◌≤◌, ◌≡◌, refl, ◌∙◌, Bool, true, false, List, [], ◌∷◌,
  some, pos, ◌<ℤ◌, length, arith,
}
use tdrive_aliyunpan.Download.Chunks.{chunk_count, chunk_length, chunk_length_lem, count-le}
use tdrive_aliyunpan.Download.Bitmap.{Codec, IsCodec, at}
use tdrive_aliyunpan.Download.Checkpoint.{
  ChunkCheckpoint, CheckpointFile, Decimal, load_checkpoint, document, pending_from, pending,
  partial_bytes,
}
use tdrive_aliyunpan.Download.Checkpoint.Resume.{IsDecimal}
use tdrive_aliyunpan.Download.Durable.{Bytes, Run, IsStored, Reach, AllReplaced}
use tdrive_aliyunpan.Download.Durable.Claims.{Below, Contains, Holds-load_checkpoint}
use tdrive_aliyunpan.Download.Durable.Phases.{documents_mono}
use tdrive_aliyunpan.Download.Durable.Safe.{Reach-Safe, Holds-stored}

none_pending :
    (start : ℕ) (done : List Bool) (i : ℕ)
    → pending_from start done ≡ []
    → i < length done
    → at false done i ≡ true
unfolding pending_from
none_pending start [] i h l = absurd (omega arith)
none_pending start (true ∷ done) zero h l = refl
none_pending start (true ∷ done) (suc i) h l = none_pending (suc start) done i h (omega arith)
none_pending start (false ∷ done) i h l = absurd (ground arith)

-- The chunk that a byte of the file is in, and its place there.
module _ (s c : ℕ) (positive : 0 < c) (b : ℕ) (inside : b < s) where
  chunk_of-lt : b / c < chunk_count (pos s) (pos c)
  chunk_of-lt = (div-lt_iff_lt-mul positive).1 (omega (arith, inside, count-le s c positive))

  place-lt : pos (b % c) <ℤ chunk_length (b / c) (pos s) (pos c)
  place-lt =
      let below : b / c * c ≤ b = div-mul-le_self b c in
      let rest : b % c ≡ b - b / c * c = mod-eq-sub-div-mul b c in
      let small : b % c < c = mod-lt b positive in
      rw (chunk_length_lem s c positive (b / c) (omega (arith, below, inside)))
        (omega (arith, below, rest, small, inside))

module _ (k : Codec) (d : Decimal) (codec : IsCodec k) (decimal : IsDecimal d)
    (want : ChunkCheckpoint) where
  -- The process may end after any steps, and the disk may keep any set of the bytes that has the durable
  -- ones, and any one of the documents stored so far. If a later process loads that document
  -- for the same file, then the disk has every byte of the chunks that it takes for complete, and
  -- every byte below the offset from which it resumes a chunk. No start-over among the steps may have left
  -- an old document behind: its save has replaced the sidecar for good, or there was none.
  pub resumed-IsDurable :
      (r : Run) (left c : CheckpointFile) (bytes : Bytes)
      → (reach : Reach k d want r) → AllReplaced k d want reach
      → IsStored left r.documents
      → Contains bytes r.durable
      → load_checkpoint k d (some (document k d left)) want ≡ some c
      → ((index : ℕ)
          → at false c.done index ≡ true
          → Below bytes index (chunk_length index want.size want.chunk_size))
        × ((index : ℕ) → Below bytes index (partial_bytes c index))
  resumed-IsDurable r left c bytes reach replaced stored kept l =
      let safe = Reach-Safe want k d codec decimal r reach replaced in
      let documents = documents_mono want r.durable bytes r.documents kept safe.documents in
      let holds =
        Holds-load_checkpoint k d want bytes left c codec decimal
          (Holds-stored want k d codec decimal bytes left r.documents stored documents) l in
      (holds.complete, holds.begun)

  -- When a run of a file of s bytes in chunks of c has no pending chunk, which is when `downloadChunks`
  -- returns without an error, every byte of the file is durable. No start-over among the steps has left an
  -- old document behind.
  pub finished-IsWhole :
      (s c : ℕ) (r : Run)
      → 0 < c
      → want.size ≡ pos s
      → want.chunk_size ≡ pos c
      → (reach : Reach k d want r) → AllReplaced k d want reach
      → pending r.checkpoint ≡ []
      → (b : ℕ) → b < s
      → r.durable (b / c) (b % c) ≡ true
  unfolding pending
  finished-IsWhole s c r positive es ec reach replaced h b inside =
      let holds = (Reach-Safe want k d codec decimal r reach replaced).checkpoint in
      let n : length r.checkpoint.done ≡ chunk_count (pos s) (pos c) =
        holds.of.valid.count ∙ rw (holds.of.size, holds.of.chunk_size, es, ec) refl in
      let done =
        none_pending 0 r.checkpoint.done (b / c) h
          (omega (arith, n, chunk_of-lt s c positive b inside)) in
      holds.complete (b / c) done (b % c) (rw (es, ec) (place-lt s c positive b inside))
