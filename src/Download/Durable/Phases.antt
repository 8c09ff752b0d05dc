-- ===== src/Download/Durable/Phases.antt =====
-- The invariant of a run of the downloader, and what each kind of step leaves to show of it.
use tdrive_aliyunpan.Base.{
  ℕ, ◌≡◌, refl, subst, Bool, true, false, ◌||◌, List, [], ◌∷◌, Option, ℤ, pos, ◌+ℤ◌, leb_ℤ, All,
  lt→ltb, ◌==◌, ==_iff, arith, Bool-cases, inl, inr,
}
use tdrive_aliyunpan.Download.Chunks.{chunk_length}
use tdrive_aliyunpan.Download.Checkpoint.{ChunkCheckpoint, CheckpointFile, pending}
use tdrive_aliyunpan.Download.Progress.{DownloadProgress, PartialFlusher, new_partial_flusher}
use tdrive_aliyunpan.Download.Durable.{
  Phase, waiting, reading, noting, fetched, forgotten, synced, Flush, resting, taken, flushed,
  Bytes, Run, set_at, write_at, store, start_run,
}
use tdrive_aliyunpan.Download.Durable.Claims.{
  Below, Within, Contains, Holds, Within-resume_offsets, Within-Contains, Holds-Contains,
}

or_right : (a b : Bool) → b ≡ true → (a || b) ≡ true
or_right a b h = ground arith

==_refl : (n : ℕ) → (n == n) ≡ true
==_refl n = ground arith

module _ (want : ChunkCheckpoint) where
  -- What a worker's place says of its chunk.
  abbrev pub PhaseSafe : Bytes → Bytes → ℕ → Phase → Type 0
  PhaseSafe written durable index waiting = Unit
  PhaseSafe written durable index (reading offset) = Below written index offset
  PhaseSafe written durable index (noting offset) = Below written index offset
  PhaseSafe written durable index fetched =
      Below written index (chunk_length index want.size want.chunk_size)
  PhaseSafe written durable index forgotten =
      Below written index (chunk_length index want.size want.chunk_size)
  PhaseSafe written durable index synced =
      Below durable index (chunk_length index want.size want.chunk_size)

  abbrev pub FlushSafe : Bytes → Bytes → Flush → Type 0
  FlushSafe written durable resting = Unit
  FlushSafe written durable (taken snapshot) = Within written snapshot
  FlushSafe written durable (flushed snapshot) = Within durable snapshot

  pub record Safe (r : Run) : Type 0 where
    pub checkpoint : Holds want r.durable r.checkpoint
    pub documents : All (Holds want r.durable) r.documents
    pub disk : Contains r.written r.durable
    pub flusher : Within r.written r.flusher.offsets
    pub flush : FlushSafe r.written r.durable r.flush
    pub phases : (index : ℕ) → PhaseSafe r.written r.durable index (r.phase index)

  -- A byte once there stays there.
  PhaseSafe-Contains :
      (w w' d d' : Bytes) (index : ℕ) (p : Phase)
      → Contains w' w
      → Contains d' d
      → PhaseSafe w d index p
      → PhaseSafe w' d' index p
  PhaseSafe-Contains w w' d d' index waiting cw cd h = tt
  PhaseSafe-Contains w w' d d' index (reading offset) cw cd h = λ j l. cw index j (h j l)
  PhaseSafe-Contains w w' d d' index (noting offset) cw cd h = λ j l. cw index j (h j l)
  PhaseSafe-Contains w w' d d' index fetched cw cd h = λ j l. cw index j (h j l)
  PhaseSafe-Contains w w' d d' index forgotten cw cd h = λ j l. cw index j (h j l)
  PhaseSafe-Contains w w' d d' index synced cw cd h = λ j l. cd index j (h j l)

  FlushSafe-Contains :
      (w w' d d' : Bytes) (f : Flush)
      → Contains w' w
      → Contains d' d
      → FlushSafe w d f
      → FlushSafe w' d' f
  FlushSafe-Contains w w' d d' resting cw cd h = tt
  FlushSafe-Contains w w' d d' (taken snapshot) cw cd h = Within-Contains w' w snapshot cw h
  FlushSafe-Contains w w' d d' (flushed snapshot) cw cd h = Within-Contains d' d snapshot cd h

  pub documents_mono :
      (d d' : Bytes) (documents : List CheckpointFile)
      → Contains d' d
      → All (Holds want d) documents
      → All (Holds want d') documents
  documents_mono d d' [] k h = tt
  documents_mono d d' (c ∷ documents) k h =
      (Holds-Contains want d' d c k h.0, documents_mono d d' documents k h.1)

  -- A run in which only the disk has moved on.
  pub Safe-Contains :
      (r : Run) (w d : Bytes)
      → Contains w r.written
      → Contains d r.durable
      → Contains w d
      → Safe r
      → Safe (record r { written = w; durable = d })
  Safe-Contains r w d cw cd c s = record {
    checkpoint = Holds-Contains want d r.durable r.checkpoint cd s.checkpoint;
    documents = documents_mono r.durable d r.documents cd s.documents;
    disk = c;
    flusher = Within-Contains w r.written r.flusher.offsets cw s.flusher;
    flush = FlushSafe-Contains r.written w r.durable d r.flush cw cd s.flush;
    phases = λ i. PhaseSafe-Contains r.written w r.durable d i (r.phase i) cw cd (s.phases i);
  }

  -- One worker has moved on.
  phases-set_at :
      (w d : Bytes) (phase : ℕ → Phase) (index : ℕ) (p : Phase)
      → ((i : ℕ) → PhaseSafe w d i (phase i))
      → PhaseSafe w d index p
      → (i : ℕ) → PhaseSafe w d i (set_at index p phase i)
  phases-set_at w d phase index p h s i = elim (Bool-cases (index == i)) [
    | inl e ↦ rw e (subst (λ x. PhaseSafe w d x p) ((==_iff index i).0 e) s)
    | inr e ↦ rw e (h i)
  ]

  pub All-store :
      (d : Bytes) (saved : Bool) (c : CheckpointFile) (documents : List CheckpointFile)
      → Holds want d c
      → All (Holds want d) documents
      → All (Holds want d) (store saved c documents)
  All-store d true c documents h hs = (h, hs)
  All-store d false c documents h hs = hs

  pub Safe-start_run :
      (c : CheckpointFile) (report : Option (List ℤ)) (bytes : Bytes)
      (documents : List CheckpointFile)
      → Holds want bytes c
      → All (Holds want bytes) documents
      → Safe (start_run c report bytes documents)
  unfolding start_run new_partial_flusher
  Safe-start_run c report bytes documents h hs = record {
    checkpoint = h;
    documents = hs;
    disk = λ i j e. e;
    flusher = Within-resume_offsets want bytes c (pending c) h;
    flush = tt;
    phases = λ i. tt;
  }

  pub write_at-Contains :
      (index n : ℕ) (offset : ℤ) (w : Bytes) → Contains (write_at index offset n w) w
  unfolding write_at
  write_at-Contains index n offset w i j e = rw e refl

  pub Below-write_at :
      (index n : ℕ) (offset : ℤ) (w : Bytes)
      → Below w index offset
      → Below (write_at index offset n w) index (offset +ℤ pos n)
  unfolding write_at
  Below-write_at index n offset w h j l = elim (Bool-cases (leb_ℤ offset (pos j))) [
    | inl e ↦ or_right (w index j) _ (rw (e, ==_refl index, lt→ltb _ _ l) refl)
    | inr e ↦ rw (h j (ground arith)) refl
  ]

  -- What a step of a worker leaves to show.
  pub Safe-advance :
      (r : Run) (index : ℕ) (p : Phase) (t : DownloadProgress) (f : PartialFlusher)
      → Safe r
      → Within r.written f.offsets
      → PhaseSafe r.written r.durable index p
      → Safe (record r { tracker = t; flusher = f; phase = set_at index p r.phase })
  Safe-advance r index p t f s w h = record {
    checkpoint = s.checkpoint;
    documents = s.documents;
    disk = s.disk;
    flusher = w;
    flush = s.flush;
    phases = phases-set_at r.written r.durable r.phase index p s.phases h;
  }

  -- What a step of the flusher leaves to show.
  pub Safe-flush :
      (r : Run) (g : Flush) (changed : Bool)
      → Safe r
      → FlushSafe r.written r.durable g
      → Safe (record r { flusher = record (r.flusher) { changed = changed }; flush = g })
  Safe-flush r g changed s h = record {
    checkpoint = s.checkpoint;
    documents = s.documents;
    disk = s.disk;
    flusher = s.flusher;
    flush = h;
    phases = s.phases;
  }

  -- A new record of the checkpoint, stored or not.
  pub Safe-store :
      (r : Run) (c : CheckpointFile) (saved : Bool)
      → Safe r
      → Holds want r.durable c
      → Safe (record r { checkpoint = c; documents = store saved c r.documents })
  Safe-store r c saved s h = record {
    checkpoint = h;
    documents = All-store r.durable saved c r.documents h s.documents;
    disk = s.disk;
    flusher = s.flusher;
    flush = s.flush;
    phases = s.phases;
  }

  -- `Sync`
  pub Safe-sync : (r : Run) → Safe r → Safe (record r { durable = r.written })
  Safe-sync r s = Safe-Contains r r.written r.written (λ i j e. e) s.disk (λ i j e. e) s

  pub at_phase :
      (r : Run) (index : ℕ) (p : Phase)
      → Safe r
      → r.phase index ≡ p
      → PhaseSafe r.written r.durable index p
  at_phase r index p s h = subst (PhaseSafe r.written r.durable index) h (s.phases index)

  pub at_flush : (r : Run) (g : Flush) → Safe r → r.flush ≡ g → FlushSafe r.written r.durable g
  at_flush r g s h = subst (FlushSafe r.written r.durable) h s.flush
