-- ===== src/Download/Durable/Claims.antt =====
-- What a record claims of the bytes on the disk, and that the operations of the checkpoint and of the
-- flusher keep the claims true.
use tdrive_aliyunpan.Base.{
  ℕ, zero, suc, ◌≡◌, ◌⊎◌, refl, sym, ap, ◌∙◌, subst, Bool, true, false, List, [], ◌∷◌, Option, none,
  some, ℤ, pos, ◌<ℤ◌, ltb_ℤ, eqb_ℤ, length, All, leb, ◌==◌, ==_iff, arith, Bool-cases, inl, inr,
  if◌then◌else◌,
}
use tdrive_aliyunpan.Base.Table.{lookup, insert, delete, lookup-delete, All-insert, All-delete}
use tdrive_aliyunpan.Download.Chunks.{chunk_length}
use tdrive_aliyunpan.Download.Bitmap.{Codec, IsCodec, at}
use tdrive_aliyunpan.Download.Checkpoint.{
  ChunkCheckpoint, CheckpointFile, Decimal, offset_of, partial_bytes, keep_partials, set_partials,
  is_partial, mark, mark_done, new_checkpoint, none_done, load_checkpoint, document,
}
use tdrive_aliyunpan.Download.Checkpoint.Valid.{
  new_checkpoint-IsValid, set_partials-IsValid, mark_done-IsValid,
}
use tdrive_aliyunpan.Download.Checkpoint.Resume.{
  IsOf, IsDecimal, load_checkpoint-document, load_checkpoint-same, mark_done-meta,
}
use tdrive_aliyunpan.Download.Progress.{PartialFlusher, note, forget, resume_offsets, read}
use tdrive_aliyunpan.Download.Durable.{Bytes}

-- The bytes of a chunk below an offset are there.
abbrev pub Below : Bytes → ℕ → ℤ → Type 0
Below bytes index offset = (j : ℕ) → pos j <ℤ offset → bytes index j ≡ true

-- So they are for each offset of a map.
abbrev pub IsWithin : Bytes → ℕ × ℤ → Type 0
IsWithin bytes entry = Below bytes entry.0 entry.1

abbrev pub Within : Bytes → List (ℕ × ℤ) → Type 0
Within bytes offsets = All (IsWithin bytes) offsets

abbrev pub Contains : Bytes → Bytes → Type 0
Contains more less = (i j : ℕ) → less i j ≡ true → more i j ≡ true

-- A record claims only bytes that are there.
pub record Holds (want : ChunkCheckpoint) (bytes : Bytes) (c : CheckpointFile) : Type 0 where
  pub of : IsOf want c
  pub complete :
      (index : ℕ)
      → at false c.done index ≡ true
      → Below bytes index (chunk_length index want.size want.chunk_size)
  pub begun : (index : ℕ) → Below bytes index (partial_bytes c index)

Below-zero : (bytes : Bytes) (index : ℕ) → Below bytes index (pos 0)
Below-zero bytes index j h = absurd (omega arith)

pub Within-note :
    (bytes : Bytes) (index : ℕ) (offset : ℤ) (f : PartialFlusher)
    → Within bytes f.offsets
    → Below bytes index offset
    → Within bytes (note index offset f).offsets
unfolding note
Within-note bytes index offset f h b = elim (Bool-cases (eqb_ℤ (read index f.offsets) offset)) [
  | inl e ↦ rw e h
  | inr e ↦ rw e (All-insert (IsWithin bytes) index offset f.offsets b h)
]

pub Within-forget :
    (bytes : Bytes) (index : ℕ) (f : PartialFlusher)
    → Within bytes f.offsets
    → Within bytes (forget index f).offsets
unfolding forget
Within-forget bytes index f h = held (lookup index f.offsets)
  where
    held :
        (o : Option ℤ)
        → Within bytes (
            PartialFlusher.offsets (elim o [
              | none ↦ f
              | some offset ↦ record { offsets = delete index f.offsets; changed = true }
            ]))
    held none = h
    held (some offset) = All-delete (IsWithin bytes) index f.offsets h

Within-keep_partials :
    (bytes : Bytes) (done : List Bool) (size chunk_size : ℤ) (offsets : List (ℕ × ℤ))
    → Within bytes offsets
    → Within bytes (keep_partials done size chunk_size offsets)
unfolding keep_partials
Within-keep_partials bytes done size chunk_size [] h = tt
Within-keep_partials bytes done size chunk_size ((index, offset) ∷ offsets) h =
    kept (is_partial done size chunk_size index offset)
      (Within-keep_partials bytes done size chunk_size offsets h.1)
  where
    kept :
        (b : Bool)
        → Within bytes (keep_partials done size chunk_size offsets)
        → Within bytes (
            if b
            then insert index offset (keep_partials done size chunk_size offsets)
            else keep_partials done size chunk_size offsets)
    kept true rest = All-insert (IsWithin bytes) index offset _ h.0 rest
    kept false rest = rest

-- So a map read at an index.
Within-read :
    (bytes : Bytes) (m : List (ℕ × ℤ)) (index : ℕ)
    → Within bytes m
    → Below bytes index (read index m)
unfolding lookup
Within-read bytes [] index h = Below-zero bytes index
Within-read bytes ((i, offset) ∷ m) index h = elim (Bool-cases (i == index)) [
  | inl e ↦ rw e (subst (λ x. Below bytes x offset) ((==_iff i index).0 e) h.0)
  | inr e ↦ rw e (Within-read bytes m index h.1)
]

pub Within-resume_offsets :
    (want : ChunkCheckpoint) (bytes : Bytes) (c : CheckpointFile) (indices : List ℕ)
    → Holds want bytes c
    → Within bytes (resume_offsets c indices)
unfolding resume_offsets
Within-resume_offsets want bytes c [] h = tt
Within-resume_offsets want bytes c (index ∷ indices) h =
    seeded (ltb_ℤ (pos 0) (partial_bytes c index)) (Within-resume_offsets want bytes c indices h)
  where
    seeded :
        (b : Bool)
        → Within bytes (resume_offsets c indices)
        → Within bytes (
            if b
            then insert index (partial_bytes c index) (resume_offsets c indices)
            else resume_offsets c indices)
    seeded true rest = All-insert (IsWithin bytes) index _ _ (h.begun index) rest
    seeded false rest = rest

-- More bytes keep every claim.
pub Within-Contains :
    (more less : Bytes) (m : List (ℕ × ℤ)) → Contains more less → Within less m → Within more m
Within-Contains more less [] c h = tt
Within-Contains more less ((i, offset) ∷ m) c h =
    ((λ j l. c i j (h.0 j l)), Within-Contains more less m c h.1)

pub Holds-Contains :
    (want : ChunkCheckpoint) (more less : Bytes) (c : CheckpointFile)
    → Contains more less
    → Holds want less c
    → Holds want more c
Holds-Contains want more less c k h = record {
  of = h.of;
  complete = λ i e j l. k i j (h.complete i e j l);
  begun = λ i j l. k i j (h.begun i j l);
}

-- `setPartials` of offsets that are durable.
pub Holds-set_partials :
    (want : ChunkCheckpoint) (bytes : Bytes) (offsets : List (ℕ × ℤ)) (c : CheckpointFile)
    → Holds want bytes c
    → Within bytes offsets
    → Holds want bytes (set_partials offsets c)
unfolding set_partials partial_bytes
Holds-set_partials want bytes offsets c h w = record {
  of = record {
    valid = set_partials-IsValid offsets c h.of.valid;
    size = h.of.size;
    chunk_size = h.of.chunk_size;
  };
  complete = h.complete;
  begun = λ i.
      Within-read bytes (keep_partials c.done c.meta.size c.meta.chunk_size offsets) i
        (Within-keep_partials bytes c.done c.meta.size c.meta.chunk_size offsets w);
}

at-mark_same :
    (index i : ℕ) (done : List Bool)
    → at false (mark index done) i ≡ true
    → (index ≡ i) ⊎ (at false done i ≡ true)
at-mark_same index i [] h = inr h
at-mark_same zero zero (b ∷ done) h = inl refl
at-mark_same zero (suc i) (b ∷ done) h = inr h
at-mark_same (suc index) zero (b ∷ done) h = inr h
at-mark_same (suc index) (suc i) (b ∷ done) h = elim (at-mark_same index i done h) [
  | inl e ↦ inl (ap suc e)
  | inr e ↦ inr e
]

-- `markDone` of a chunk that is durable.
pub Holds-mark_done :
    (want : ChunkCheckpoint) (bytes : Bytes) (index : ℕ) (c c' : CheckpointFile)
    → Holds want bytes c
    → Below bytes index (chunk_length index want.size want.chunk_size)
    → mark_done index c ≡ some c'
    → Holds want bytes c'
unfolding mark_done partial_bytes
Holds-mark_done want bytes index c c' h b m = elim (Bool-cases (leb (length c.done) index)) [
  | inl e ↦ absurd (ground arith)
  | inr e ↦ record {
    of = record {
      valid = mark_done-IsValid index c c' h.of.valid m;
      size = ap (λ x. x.size) (mark_done-meta index c c' m) ∙ h.of.size;
      chunk_size = ap (λ x. x.chunk_size) (mark_done-meta index c c' m) ∙ h.of.chunk_size;
    };
    complete = λ i t. owned i (at-mark_same index i c.done (ap (λ x. at false x i) (marked e) ∙ t));
    begun = λ i. rw (sym (left e), lookup-delete index i c.partial) (kept i (index == i));
  }
]
  where
    marked : leb (length c.done) index ≡ false → mark index c.done ≡ c'.done
    marked e = ground arith

    left : leb (length c.done) index ≡ false → delete index c.partial ≡ c'.partial
    left e = ground arith

    owned :
        (i : ℕ)
        → (index ≡ i) ⊎ (at false c.done i ≡ true)
        → Below bytes i (chunk_length i want.size want.chunk_size)
    owned i (inl e) = subst (λ x. Below bytes x (chunk_length x want.size want.chunk_size)) e b
    owned i (inr e) = h.complete i e

    kept : (i : ℕ) (b : Bool) → Below bytes i (offset_of (if b then none else lookup i c.partial))
    kept i true = Below-zero bytes i
    kept i false = h.begun i

at-none_done : (n i : ℕ) → at false (none_done n) i ≡ false
at-none_done zero i = refl
at-none_done (suc n) zero = refl
at-none_done (suc n) (suc i) = at-none_done n i

pub Holds-new_checkpoint :
    (want : ChunkCheckpoint) (bytes : Bytes) → Holds want bytes (new_checkpoint want)
unfolding new_checkpoint partial_bytes lookup
Holds-new_checkpoint want bytes = record {
  of = record { valid = new_checkpoint-IsValid want; size = refl; chunk_size = refl };
  complete = λ i e. absurd (grind (arith, at-none_done));
  begun = λ i. Below-zero bytes i;
}

-- A document of such a record, loaded again.
pub Holds-load_checkpoint :
    (k : Codec) (d : Decimal) (want : ChunkCheckpoint) (bytes : Bytes) (left c : CheckpointFile)
    → IsCodec k
    → IsDecimal d
    → Holds want bytes left
    → load_checkpoint k d (some (document k d left)) want ≡ some c
    → Holds want bytes c
unfolding partial_bytes
Holds-load_checkpoint k d want bytes left c codec decimal h l =
    let same = load_checkpoint-same k d (document k d left) want c l in
    let (r, read_r, done, offsets, of) =
      load_checkpoint-document k d codec decimal left want h.of same in
    let it : r ≡ c = ground arith in
    subst (Holds want bytes) it record {
      of = of;
      complete = λ i e. h.complete i (ap (λ x. at false x i) (sym done) ∙ e);
      begun = λ i. subst (Below bytes i) (sym (offsets i)) (h.begun i);
    }
