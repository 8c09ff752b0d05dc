-- ===== src/Download/Durable/Safe.antt =====
-- What the checkpoint claims is on the disk, whatever the order of the steps and wherever power fails.
use tdrive_aliyunpan.Base.{
  ℕ, ◌≡◌, refl, sym, ap, subst, true, false, List, [], ◌∷◌, ℤ, pos, ◌+ℤ◌, ◌≤ℤ◌, pos_part, neg_part,
  All, arith, inl, inr,
}
use tdrive_aliyunpan.Download.Chunks.{chunk_length}
use tdrive_aliyunpan.Download.Bitmap.{Codec, IsCodec}
use tdrive_aliyunpan.Download.Checkpoint.{ChunkCheckpoint, CheckpointFile, Decimal, set_partials}
use tdrive_aliyunpan.Download.Checkpoint.Resume.{IsDecimal}
use tdrive_aliyunpan.Download.Durable.{
  waiting, reading, noting, fetched, forgotten, synced, resting, taken, flushed, Bytes, Run,
  write_at, store, end_minus_begin, begin_attempt, write_buffer, note_progress, complete_chunk,
  forget_chunk, sync_chunk, mark_chunk, take_snapshot, sync_snapshot, abandon_snapshot,
  store_snapshot, IsStored, Step, begins, writes, notes, completes, forgets, syncs, marks, takes,
  syncs_snapshot, abandons, stores, resumes, starts_over, Reach, first, next, IsReplaced,
  AllReplaced,
}
use tdrive_aliyunpan.Download.Durable.Claims.{
  Below, Holds, Within-note, Within-forget, Within-Contains, Holds-set_partials, Holds-mark_done,
  Holds-new_checkpoint, Holds-load_checkpoint,
}
use tdrive_aliyunpan.Download.Durable.Phases.{
  Safe, documents_mono, All-store, Safe-start_run, write_at-Contains, Below-write_at, Safe-advance,
  Safe-flush, Safe-store, Safe-sync, at_phase, at_flush, Safe-Contains,
}

module _ (want : ChunkCheckpoint) where
  module _ (k : Codec) (d : Decimal) (codec : IsCodec k) (decimal : IsDecimal d) where
    pub Holds-stored :
        (bytes : Bytes) (left : CheckpointFile) (documents : List CheckpointFile)
        → IsStored left documents
        → All (Holds want bytes) documents
        → Holds want bytes left
    Holds-stored bytes left [] i h = absurd i
    Holds-stored bytes left (c ∷ documents) (inl e) h = subst (Holds want bytes) (sym e) h.0
    Holds-stored bytes left (c ∷ documents) (inr i) h = Holds-stored bytes left documents i h.1

    whole :
        (r : Run) (index : ℕ) (offset : ℤ)
        → end_minus_begin index r.checkpoint ≤ℤ offset
        → Safe want r
        → Below r.written index offset
        → Below r.written index (chunk_length index want.size want.chunk_size)
    whole r index offset all s below j l =
        let same : end_minus_begin index r.checkpoint
            ≡ chunk_length index want.size want.chunk_size =
          rw (s.checkpoint.of.size, s.checkpoint.of.chunk_size) refl in
        below j (omega (arith, all, l, ap pos_part same, ap neg_part same))

    Step-Safe :
        (r r' : Run) (step : Step k d want r r')
        → IsReplaced k d want step
        → Safe want r
        → Safe want r'
    unfolding begin_attempt write_buffer note_progress complete_chunk forget_chunk sync_chunk
        mark_chunk take_snapshot sync_snapshot abandon_snapshot store_snapshot
    Step-Safe r _ (begins index h) e s =
        Safe-advance want r index _ _ r.flusher s s.flusher
          (λ j l. s.disk index j (s.checkpoint.begun index j l))
    Step-Safe r _ (writes index n offset h more few inside) e s =
        let w = write_at index offset n r.written in
        let c = write_at-Contains want index n offset r.written in
        let below = at_phase want r index (reading offset) s h in
        Safe-advance want (record r { written = w }) index (noting (offset +ℤ pos n)) r.tracker
          r.flusher
          (Safe-Contains want r w r.durable c (λ i j e. e) (λ i j e. c i j (s.disk i j e)) s)
          (Within-Contains w r.written r.flusher.offsets c s.flusher)
          (Below-write_at want index n offset r.written below)
    Step-Safe r _ (notes index offset h) e s =
        let below = at_phase want r index (noting offset) s h in
        Safe-advance want r index (reading offset) _ _ s
          (Within-note r.written index offset r.flusher s.flusher below) below
    Step-Safe r _ (completes index offset h all) e s =
        Safe-advance want r index fetched _ r.flusher s s.flusher
          (whole r index offset all s (at_phase want r index (reading offset) s h))
    Step-Safe r _ (forgets index h) e s =
        Safe-advance want r index forgotten r.tracker _ s
          (Within-forget r.written index r.flusher s.flusher) (at_phase want r index fetched s h)
    Step-Safe r _ (syncs index h) e s =
        Safe-advance want (record r { durable = r.written }) index synced r.tracker r.flusher
          (Safe-sync want r s) s.flusher (at_phase want r index forgotten s h)
    Step-Safe r _ (marks index c saved h m) e s =
        let holds =
          Holds-mark_done want r.durable index r.checkpoint c s.checkpoint
            (at_phase want r index synced s h) m in
        Safe-advance want (record r { checkpoint = c; documents = store saved c r.documents }) index
          waiting r.tracker r.flusher (Safe-store want r c saved s holds) s.flusher tt
    Step-Safe r _ (takes h changed) e s =
        Safe-flush want r (taken r.flusher.offsets) false s s.flusher
    Step-Safe r _ (syncs_snapshot snapshot h) e s =
        Safe-flush want (record r { durable = r.written }) (flushed snapshot) r.flusher.changed
          (Safe-sync want r s) (at_flush want r (taken snapshot) s h)
    Step-Safe r _ (abandons snapshot h) e s = Safe-flush want r resting true s tt
    Step-Safe r _ (stores snapshot saved h) e s =
        let c = set_partials snapshot r.checkpoint in
        let holds =
          Holds-set_partials want r.durable snapshot r.checkpoint s.checkpoint
            (at_flush want r (flushed snapshot) s h) in
        Safe-flush want (record r { checkpoint = c; documents = store saved c r.documents }) resting
          _ (Safe-store want r c saved s holds) tt
    Step-Safe r _ (resumes left c bytes report saved i kept l) e s =
        let documents = documents_mono want r.durable bytes r.documents kept s.documents in
        let holds =
          Holds-load_checkpoint k d want bytes left c codec decimal
            (Holds-stored bytes left r.documents i documents) l in
        Safe-start_run want c report bytes _ holds
          (All-store want bytes saved c r.documents holds documents)
    Step-Safe r _ (starts_over bytes report saved left old) e s =
        let holds = Holds-new_checkpoint want bytes in
        Safe-start_run want _ report bytes _ holds
          (All-store want bytes saved _ left holds (rw e tt))

    pub Reach-Safe : (r : Run) (reach : Reach k d want r) → AllReplaced k d want reach → Safe want r
    Reach-Safe _ (first bytes report saved) e =
        let holds = Holds-new_checkpoint want bytes in
        Safe-start_run want _ report bytes _ holds (All-store want bytes saved _ [] holds tt)
    Reach-Safe _ (next r r' reach step) e = Step-Safe r r' step e.1 (Reach-Safe r reach e.0)
