-- ===== src/Download/Tests.antt =====
-- Runs of the downloader on small files, and the theorems applied to them. The codec keeps the bytes
-- as they are, and a number prints as one letter.
use tdrive_aliyunpan.Base.{
  ℕ, ◌+◌, ◌/◌, ◌%◌, ◌≡◌, inl, refl, true, false, [], ◌∷◌, Option, none, some, ℤ, pos, ◌+ℤ◌, ◌-ℤ◌,
  ◌≤ℤ◌, Text, codes, length, arith,
}
use tdrive_aliyunpan.Base.Table.{lookup, delete}
use tdrive_aliyunpan.Download.Chunks.{chunk_count, chunk_bounds, chunk_length}
use tdrive_aliyunpan.Download.Bitmap.{
  Codec, IsCodec, at, tabulate, bitmap_bytes, byte_at, bit_at, encode_chunk_bitmap,
  decode_chunk_bitmap, decode_bytes,
}
use tdrive_aliyunpan.Download.Checkpoint.{
  encode_partial, decode_partial, ChunkCheckpoint, CheckpointFile, Decimal, new_checkpoint,
  is_same_file, load_checkpoint, completed, pending_from, pending, partial_bytes, set_partials,
  mark_done, document,
}
use tdrive_aliyunpan.Download.Checkpoint.Bytes.{completed-IsBounded}
use tdrive_aliyunpan.Download.Checkpoint.Resume.{
  IsDecimal, IsRecord, started, flushed, IsOf, IsOfFile, IsRecord-IsOf, load_checkpoint-document,
}
use tdrive_aliyunpan.Download.Durable.{
  Run, start_run, begin_attempt, write_buffer, note_progress, complete_chunk, forget_chunk,
  sync_chunk, mark_chunk, IsStored, Reach, first, next, begins, writes, notes, completes, forgets,
  syncs, marks, AllReplaced,
}
use tdrive_aliyunpan.Download.Durable.Claims.{Below}
use tdrive_aliyunpan.Download.Durable.Whole.{resumed-IsDurable, finished-IsWhole}

abbrev pub plain : Codec
plain = record { encode_to_string = λ bytes. bytes; decode_string = λ text. some text }

plain-IsCodec : IsCodec plain
plain-IsCodec = record { decode-encode = λ bytes h. refl }

abbrev pub letter : Text → Option ℤ
letter [] = none
letter (n ∷ []) = some (pos n)
letter (n ∷ m ∷ t) = none

abbrev pub letters : Decimal
letters = record { itoa = λ n. n ∷ []; atoi = letter }

letters-IsDecimal : IsDecimal letters
letters-IsDecimal = record { atoi-itoa = λ n. refl }

-- A file of ten bytes in chunks of four.
abbrev want : ChunkCheckpoint
want = record {
  version = pos 0;
  drive_id = codes "d";
  file_id = codes "f";
  size = pos 10;
  hash = codes "h";
  chunk_size = pos 4;
  done = [];
  partial = [];
}

-- The second chunk is part-way done.
abbrev begun : CheckpointFile
begun = set_partials ((1, pos 3) ∷ []) (new_checkpoint want)

begun-IsRecord : IsRecord plain letters want begun
begun-IsRecord = flushed (new_checkpoint want) ((1, pos 3) ∷ []) started

begun-IsOf_example : IsOfFile want begun
begun-IsOf_example = IsRecord-IsOf plain letters want begun begun-IsRecord

completed-IsBounded_example :
    ((completed begun).1 +ℤ (completed begun).2 ≤ℤ pos 10)
    × ((completed begun).0 + length (pending begun) ≡ chunk_count (pos 10) (pos 4))
    × (pending begun ≡ [] → (completed begun).1 ≡ pos 10)
unfolding set_partials new_checkpoint
completed-IsBounded_example =
    completed-IsBounded 10 4 begun (omega arith) refl refl
      (IsRecord-IsOf plain letters want begun begun-IsRecord).of.valid

load_checkpoint-document_example :
    (r : CheckpointFile) × (load_checkpoint plain letters (some (document plain letters begun)) want
      ≡ some r)
    × (r.done ≡ begun.done)
    × ((index : ℕ) → partial_bytes r index ≡ partial_bytes begun index)
    × IsOf want r
load_checkpoint-document_example =
    load_checkpoint-document plain letters plain-IsCodec letters-IsDecimal begun want
      (IsRecord-IsOf plain letters want begun begun-IsRecord).of same
  where
    same : is_same_file (document plain letters begun) want ≡ true
    same = unfold is_same_file document set_partials new_checkpoint in refl

-- A file of two bytes in one chunk, from the start to its mark.
abbrev small : ChunkCheckpoint
small = record want { size = pos 2 }

abbrev run0 : Run
run0 = start_run (new_checkpoint small) (some []) (λ i j. false) (new_checkpoint small ∷ [])

abbrev run1 : Run
run1 = begin_attempt 0 run0

abbrev run2 : Run
run2 = write_buffer 0 (pos 0) 2 run1

abbrev run3 : Run
run3 = note_progress 0 (pos 2) run2

abbrev run4 : Run
run4 = complete_chunk 0 run3

abbrev run5 : Run
run5 = forget_chunk 0 run4

abbrev run6 : Run
run6 = sync_chunk 0 run5

abbrev run7 : Run
run7 = mark_chunk 0 (record (new_checkpoint small) { done = true ∷ [] }) true run6

run7-Runs : (reach : Reach plain letters small run7) × AllReplaced plain letters small reach
unfolding start_run new_checkpoint begin_attempt write_buffer note_progress complete_chunk
    forget_chunk sync_chunk mark_chunk mark_done chunk_count chunk_length chunk_bounds ◌+ℤ◌ ◌-ℤ◌
    partial_bytes lookup delete
run7-Runs = (
  next run6 run7
      (next run5 run6
        (next run4 run5
          (next run3 run4
            (next run2 run3
              (next run1 run2 (next run0 run1 (first (λ i j. false) (some []) true) (begins 0 refl))
                (writes 0 2 (pos 0) refl (omega arith) (omega arith) (omega arith)))
              (notes 0 (pos 2) refl))
            (completes 0 (pos 2) refl (omega arith)))
          (forgets 0 refl))
        (syncs 0 refl))
      (marks 0 (record (new_checkpoint small) { done = true ∷ [] }) true refl refl),
  (((((((tt, tt), tt), tt), tt), tt), tt), tt),
)

-- The record with the chunk, and the record that its document is read as.
abbrev whole : CheckpointFile
whole = record (new_checkpoint small) { done = true ∷ [] }

abbrev reread : CheckpointFile
reread = record {
  done = true ∷ [];
  partial = [];
  meta = record (document plain letters whole) { hash = small.hash; version = pos 2 };
}

resumed-IsDurable_example :
    ((index : ℕ)
      → at false reread.done index ≡ true
      → Below run7.durable index (chunk_length index small.size small.chunk_size))
    × ((index : ℕ) → Below run7.durable index (partial_bytes reread index))
resumed-IsDurable_example =
    resumed-IsDurable plain letters plain-IsCodec letters-IsDecimal small run7 whole reread
      run7.durable run7-Runs.0 run7-Runs.1 stored (λ i j h. h) loads
  where
    stored : IsStored whole run7.documents
    stored = unfold mark_chunk in inl refl

    loads : load_checkpoint plain letters (some (document plain letters whole)) small ≡ some reread
    loads =
        unfold load_checkpoint is_same_file document new_checkpoint chunk_count decode_chunk_bitmap
          decode_bytes encode_chunk_bitmap bitmap_bytes byte_at bit_at tabulate encode_partial
          decode_partial in
        refl

finished-IsWhole_example : run7.durable (1 / 4) (1 % 4) ≡ true
finished-IsWhole_example =
    finished-IsWhole plain letters plain-IsCodec letters-IsDecimal small 2 4 run7 (omega arith) refl
      refl run7-Runs.0 run7-Runs.1 finished 1 (omega arith)
  where
    finished : pending run7.checkpoint ≡ []
    finished = unfold mark_chunk pending pending_from new_checkpoint in refl
