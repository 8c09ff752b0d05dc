-- ===== src/Download/Durable.antt =====
-- `downloadChunks`, `flush` and the resumption in `Download` (internal/aliyunpan/source_download.go), as
-- steps that interleave: each worker's, the flusher's, and the end of the process at any moment. A
-- byte of the partial file is written when `WriteAt` has returned, and durable when `Sync` has returned
-- since. What the disk keeps when the power fails is any set of written bytes with all durable ones, and
-- any one of the documents that were renamed over the sidecar (a rename is atomic, and may come back).
pub mod Claims
pub mod Phases
pub mod Safe
pub mod Whole
use tdrive_aliyunpan.Base.{
  ℕ, ◌+◌, ◌<◌, ◌≤◌, ◌≡◌, Bool, true, false, ◌&&◌, ◌||◌, ◌⊎◌, List, [], ◌∷◌, Option, none, some, ℤ,
  pos, ◌+ℤ◌, ◌≤ℤ◌, leb_ℤ, ltb_ℤ, length, ltb, ◌==◌, if◌then◌else◌,
}
use tdrive_aliyunpan.Download.Chunks.{chunk_length}
use tdrive_aliyunpan.Download.Bitmap.{Codec}
use tdrive_aliyunpan.Download.Checkpoint.{
  ChunkCheckpoint, CheckpointFile, Decimal, new_checkpoint, load_checkpoint, document, completed,
  pending, partial_bytes, set_partials, mark_done,
}
use tdrive_aliyunpan.Download.Range.{download_buffer_size}
use tdrive_aliyunpan.Download.Progress.{
  DownloadProgress, new_download_progress, set_chunk, complete, PartialFlusher, new_partial_flusher,
  note, forget, resume_offsets,
}

-- Where the worker of a chunk is: no worker, before a read, after a write, after `complete`, after `forget`, after `Sync`.
pub data Phase : Type 0 where
  waiting : Phase
  reading : ℤ → Phase
  noting : ℤ → Phase
  fetched : Phase
  forgotten : Phase
  synced : Phase

-- Where `flush` is: outside, with its snapshot before `Sync`, and after.
pub data Flush : Type 0 where
  resting : Flush
  taken : List (ℕ × ℤ) → Flush
  flushed : List (ℕ × ℤ) → Flush

-- Which bytes of which chunks.
abbrev pub Bytes : Type 0
Bytes = ℕ → ℕ → Bool

-- One call of `downloadChunks` with the disk; `documents` are those stored so far, the newest first.
pub record Run : Type 0 where
  pub checkpoint : CheckpointFile
  pub tracker : DownloadProgress
  pub flusher : PartialFlusher
  pub flush : Flush
  pub phase : ℕ → Phase
  pub written : Bytes
  pub durable : Bytes
  pub documents : List CheckpointFile

abbrev pub set_at {ℓ} : {A : Type ℓ} → ℕ → A → (ℕ → A) → ℕ → A
set_at i x f j = if i == j then x else f j

-- `WriteAt` of n bytes from an offset in a chunk.
unfoldable pub write_at : ℕ → ℤ → ℕ → Bytes → Bytes
write_at index offset n w i j =
    w i j || (i == index && (leb_ℤ offset (pos j) && ltb_ℤ (pos j) (offset +ℤ pos n)))

-- `writeLocked`; a write that fails leaves the old document.
abbrev pub store : Bool → CheckpointFile → List CheckpointFile → List CheckpointFile
store true c documents = c ∷ documents
store false c documents = documents

abbrev pub end_minus_begin : ℕ → CheckpointFile → ℤ
end_minus_begin index c = chunk_length index c.meta.size c.meta.chunk_size

-- The state that `Download` and `downloadChunks` start from, once the checkpoint is settled.
unfoldable pub start_run : CheckpointFile → Option (List ℤ) → Bytes → List CheckpointFile → Run
start_run c report bytes documents =
    let offsets = resume_offsets c (pending c) in
    record {
      checkpoint = c;
      tracker = new_download_progress (completed c).1 c.meta.size offsets report;
      flusher = new_partial_flusher offsets;
      flush = resting;
      phase = λ index. waiting;
      written = bytes;
      durable = bytes;
      documents = documents;
    }

-- An attempt of `downloadChunkWithRetry` begins: at the last durable offset.
unfoldable pub begin_attempt : ℕ → Run → Run
begin_attempt index r =
    let offset = partial_bytes r.checkpoint index in
    record r {
      tracker = set_chunk index offset r.tracker;
      phase = set_at index (reading offset) r.phase;
    }

-- `downloadRange` writes a buffer.
unfoldable pub write_buffer : ℕ → ℤ → ℕ → Run → Run
write_buffer index offset n r = record r {
  written = write_at index offset n r.written;
  phase = set_at index (noting (offset +ℤ pos n)) r.phase;
}

-- The callback that `downloadRange` is given.
unfoldable pub note_progress : ℕ → ℤ → Run → Run
note_progress index offset r = record r {
  tracker = set_chunk index offset r.tracker;
  flusher = note index offset r.flusher;
  phase = set_at index (reading offset) r.phase;
}

unfoldable pub complete_chunk : ℕ → Run → Run
complete_chunk index r = record r {
  tracker = complete index (end_minus_begin index r.checkpoint) r.tracker;
  phase = set_at index fetched r.phase;
}

unfoldable pub forget_chunk : ℕ → Run → Run
forget_chunk index r = record r {
  flusher = forget index r.flusher;
  phase = set_at index forgotten r.phase;
}

unfoldable pub sync_chunk : ℕ → Run → Run
sync_chunk index r = record r { durable = r.written; phase = set_at index synced r.phase }

unfoldable pub mark_chunk : ℕ → CheckpointFile → Bool → Run → Run
mark_chunk index c saved r = record r {
  checkpoint = c;
  phase = set_at index waiting r.phase;
  documents = store saved c r.documents;
}

-- `flush`, as far as its snapshot.
unfoldable pub take_snapshot : Run → Run
take_snapshot r = record r {
  flusher = record (r.flusher) { changed = false };
  flush = taken r.flusher.offsets;
}

unfoldable pub sync_snapshot : List (ℕ × ℤ) → Run → Run
sync_snapshot snapshot r = record r { durable = r.written; flush = flushed snapshot }

unfoldable pub abandon_snapshot : Run → Run
abandon_snapshot r = record r { flusher = record (r.flusher) { changed = true }; flush = resting }

unfoldable pub store_snapshot : List (ℕ × ℤ) → Bool → Run → Run
store_snapshot snapshot saved r =
    let c = set_partials snapshot r.checkpoint in
    record r {
      checkpoint = c;
      flusher = record (r.flusher) { changed = if saved then r.flusher.changed else true };
      flush = resting;
      documents = store saved c r.documents;
    }

-- A document of the list.
abbrev pub IsStored : CheckpointFile → List CheckpointFile → Type 0
IsStored c [] = ⊥
IsStored c (b ∷ documents) = (c ≡ b) ⊎ IsStored c documents

module _ (k : Codec) (d : Decimal) (want : ChunkCheckpoint) where
  -- One step of the program, the drive or the disk.
  pub data Step (r : Run) : Run → Type 0 where
    begins :
        (index : ℕ) → ltb index (length r.checkpoint.done) ≡ true → Step r (begin_attempt index r)
    writes :
        (index n : ℕ) (offset : ℤ)
        → r.phase index ≡ reading offset
        → 0 < n
        → n ≤ download_buffer_size
        → offset +ℤ pos n ≤ℤ end_minus_begin index r.checkpoint
        → Step r (write_buffer index offset n r)
    notes :
        (index : ℕ) (offset : ℤ)
        → r.phase index ≡ noting offset
        → Step r (note_progress index offset r)
    completes :
        (index : ℕ) (offset : ℤ)
        → r.phase index ≡ reading offset
        → end_minus_begin index r.checkpoint ≤ℤ offset
        → Step r (complete_chunk index r)
    forgets : (index : ℕ) → r.phase index ≡ fetched → Step r (forget_chunk index r)
    syncs : (index : ℕ) → r.phase index ≡ forgotten → Step r (sync_chunk index r)
    marks :
        (index : ℕ) (c : CheckpointFile) (saved : Bool)
        → r.phase index ≡ synced
        → mark_done index r.checkpoint ≡ some c
        → Step r (mark_chunk index c saved r)
    takes : r.flush ≡ resting → r.flusher.changed ≡ true → Step r (take_snapshot r)
    syncs_snapshot :
        (snapshot : List (ℕ × ℤ)) → r.flush ≡ taken snapshot → Step r (sync_snapshot snapshot r)
    abandons : (snapshot : List (ℕ × ℤ)) → r.flush ≡ taken snapshot → Step r (abandon_snapshot r)
    stores :
        (snapshot : List (ℕ × ℤ)) (saved : Bool)
        → r.flush ≡ flushed snapshot
        → Step r (store_snapshot snapshot saved r)
    -- The process ends, and a later one resumes from a document that it finds.
    resumes :
        (left c : CheckpointFile) (bytes : Bytes) (report : Option (List ℤ)) (saved : Bool)
        → IsStored left r.documents
        → ((i j : ℕ) → r.durable i j ≡ true → bytes i j ≡ true)
        → load_checkpoint k d (some (document k d left)) want ≡ some c
        → Step r (start_run c report bytes (store saved c r.documents))
    -- The process ends, and a later one starts over with a partial file of its own. Its first save may
    -- fail, and of the old documents some may still be there, or come back.
    starts_over :
        (bytes : Bytes) (report : Option (List ℤ)) (saved : Bool) (left : List CheckpointFile)
        → ((c : CheckpointFile) → IsStored c left → IsStored c r.documents)
        → Step r
            (start_run (new_checkpoint want) report bytes (store saved (new_checkpoint want) left))

  -- The runs that come from an empty staging directory.
  pub data Reach : Run → Type 0 where
    first :
        (bytes : Bytes) (report : Option (List ℤ)) (saved : Bool)
        → Reach
            (start_run (new_checkpoint want) report bytes (store saved (new_checkpoint want) []))
    next : (r r' : Run) → Reach r → Step r r' → Reach r'

  -- Whether a start-over has left no old document behind; every other step replaces none.
  abbrev pub IsReplaced : {r r' : Run} → Step r r' → Type 0
  IsReplaced (starts_over bytes report saved left old) = left ≡ []
  IsReplaced (begins index h) = Unit
  IsReplaced (writes index n offset h more few inside) = Unit
  IsReplaced (notes index offset h) = Unit
  IsReplaced (completes index offset h all) = Unit
  IsReplaced (forgets index h) = Unit
  IsReplaced (syncs index h) = Unit
  IsReplaced (marks index c saved h m) = Unit
  IsReplaced (takes h changed) = Unit
  IsReplaced (syncs_snapshot snapshot h) = Unit
  IsReplaced (abandons snapshot h) = Unit
  IsReplaced (stores snapshot saved h) = Unit
  IsReplaced (resumes left c bytes report saved i kept l) = Unit

  -- The runs in which no start-over has left an old document behind.
  abbrev pub AllReplaced : {r : Run} → Reach r → Type 0
  AllReplaced (first bytes report saved) = Unit
  AllReplaced (next r r' reach step) = AllReplaced reach × IsReplaced step
