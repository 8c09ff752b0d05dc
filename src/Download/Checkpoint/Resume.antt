-- ===== src/Download/Checkpoint/Resume.antt =====
-- A sidecar's life: the records a download can hold, and what a later run reads from the stored document.
use tdrive_aliyunpan.Base.{
  ℕ, zero, suc, ◌+◌, ◌/◌, ◌≡◌, refl, sym, ap, ◌∙◌, subst, Bool, true, List, [], ◌∷◌, Option, none,
  some, ℤ, pos, eqb_ℤ, eq_of_parts, Text, text_eq, text_eq_iff, is_empty, length, All, ◌==◌, arith,
  Bool-cases, inl, inr, ◌⊎◌, if◌then◌else◌, ==_iff,
}
use tdrive_aliyunpan.Base.Table.{lookup, lookup-insert}
use tdrive_aliyunpan.Download.Chunks.{chunk_count}
use tdrive_aliyunpan.Download.Bitmap.{
  Codec, IsCodec, decode_chunk_bitmap, decode_chunk_bitmap-encode_chunk_bitmap, decode_bytes,
  tabulate, length-tabulate, bit_at,
}
use tdrive_aliyunpan.Download.Checkpoint.{
  ChunkCheckpoint, CheckpointFile, Decimal, new_checkpoint, decode_partial, encode_partial,
  is_same_file, loaded, load_checkpoint, set_partials, mark_done, document, offset_of,
  partial_bytes, chunk_checkpoint_version,
}
use tdrive_aliyunpan.Download.Checkpoint.Valid.{
  IsOffset, IsPartial, IsValid, new_checkpoint-IsValid, set_partials-IsValid, mark_done-IsValid,
  decode_partial-IsPartial,
}

-- `strconv.Atoi` reads what `strconv.Itoa` prints.
pub record IsDecimal (d : Decimal) : Type 0 where
  pub atoi-itoa : (n : ℕ) → d.atoi (d.itoa n) ≡ some (pos n)

-- The records that a download of `want` can hold.
pub data IsRecord (k : Codec) (d : Decimal) (want : ChunkCheckpoint) : CheckpointFile → Type 0 where
  started : IsRecord k d want (new_checkpoint want)
  resumed :
      (stored : Option ChunkCheckpoint) (c : CheckpointFile)
      → load_checkpoint k d stored want ≡ some c
      → IsRecord k d want c
  flushed :
      (c : CheckpointFile) (offsets : List (ℕ × ℤ))
      → IsRecord k d want c
      → IsRecord k d want (set_partials offsets c)
  marked :
      (c c' : CheckpointFile) (index : ℕ)
      → IsRecord k d want c
      → mark_done index c ≡ some c'
      → IsRecord k d want c'

-- What every such record has.
pub record IsOf (want : ChunkCheckpoint) (c : CheckpointFile) : Type 0 where
  pub valid : IsValid c
  pub size : c.meta.size ≡ want.size
  pub chunk_size : c.meta.chunk_size ≡ want.chunk_size

length-decode_bytes :
    (total : ℕ) (raw : Option (List ℕ)) (done : List Bool)
    → decode_bytes total raw ≡ some done
    → length done ≡ total
unfolding decode_bytes
length-decode_bytes total none done h = absurd (ground arith)
length-decode_bytes total (some raw) done h = elim (Bool-cases (length raw == (total + 7) / 8)) [
  | inl b ↦ rw (sym (made b)) (length-tabulate total 0 (bit_at raw))
  | inr b ↦ absurd (ground arith)
]
  where
    made : (length raw == (total + 7) / 8) ≡ true → tabulate total 0 (bit_at raw) ≡ done
    made b = ground arith

length-decode_chunk_bitmap :
    (k : Codec) (encoded : Text) (total : ℕ) (done : List Bool)
    → decode_chunk_bitmap k encoded total ≡ some done
    → length done ≡ total
unfolding decode_chunk_bitmap
length-decode_chunk_bitmap k encoded zero done h = ground arith
length-decode_chunk_bitmap k encoded (suc n) done h =
    length-decode_bytes (suc n) (k.decode_string encoded) done h

-- The parts of the identity test.
is_same_file_parts :
    (stored want : ChunkCheckpoint)
    → is_same_file stored want ≡ true
    → (text_eq stored.drive_id want.drive_id ≡ true)
      × (text_eq stored.file_id want.file_id ≡ true)
      × (eqb_ℤ stored.size want.size ≡ true)
      × (eqb_ℤ stored.chunk_size want.chunk_size ≡ true)
      × ((is_empty stored.hash ≡ true)
          ⊎ (is_empty want.hash ≡ true)
          ⊎ (text_eq stored.hash want.hash ≡ true))
unfolding is_same_file
is_same_file_parts stored want h = ground arith

eqb_ℤ→≡ : (a b : ℤ) → eqb_ℤ a b ≡ true → a ≡ b
eqb_ℤ→≡ a b h = eq_of_parts a b ((==_iff _ _).0 h)

loaded-IsOf :
    (d : Decimal) (stored want : ChunkCheckpoint) (bits : Option (List Bool)) (c : CheckpointFile)
    → is_same_file stored want ≡ true
    → ((done : List Bool) → bits ≡ some done → length done ≡ chunk_count want.size want.chunk_size)
    → loaded d stored want bits ≡ some c
    → IsOf want c
loaded-IsOf d stored want none c same l h = absurd (ground arith)
loaded-IsOf d stored want (some done) c same l h = subst (IsOf want) made record {
  valid = record {
    count = l done refl ∙ rw (size, chunk_size) refl;
    offsets = kept.0;
    keyed = kept.1;
  };
  size = size;
  chunk_size = chunk_size;
}
  where
    size : stored.size ≡ want.size
    size = eqb_ℤ→≡ _ _ (is_same_file_parts stored want same).2

    chunk_size : stored.chunk_size ≡ want.chunk_size
    chunk_size = eqb_ℤ→≡ _ _ (is_same_file_parts stored want same).3

    partial : List (ℕ × ℤ)
    partial = decode_partial d stored.partial done want.size want.chunk_size

    kept : IsPartial done stored.size stored.chunk_size partial
    kept =
        rw (size, chunk_size)
          (decode_partial-IsPartial done want.size want.chunk_size d stored.partial)

    made :
        record {
          done = done;
          partial = partial;
          meta = record stored { hash = want.hash; version = chunk_checkpoint_version };
        }
        ≡ c
    made = ground arith

load_checkpoint-IsOf :
    (k : Codec) (d : Decimal) (stored : Option ChunkCheckpoint) (want : ChunkCheckpoint)
    (c : CheckpointFile)
    → load_checkpoint k d stored want ≡ some c
    → IsOf want c
unfolding load_checkpoint
load_checkpoint-IsOf k d none want c h = absurd (ground arith)
load_checkpoint-IsOf k d (some stored) want c h = elim (Bool-cases (is_same_file stored want)) [
  | inl same ↦
      loaded-IsOf d stored want _ c same
        (λ done.
          length-decode_chunk_bitmap k stored.done (chunk_count want.size want.chunk_size) done)
        (sym (rw same refl) ∙ h)
  | inr other ↦ absurd (ground arith)
]

pub mark_done-meta :
    (index : ℕ) (c c' : CheckpointFile) → mark_done index c ≡ some c' → c'.meta ≡ c.meta
unfolding mark_done
mark_done-meta index c c' h = ground arith

pub load_checkpoint-same :
    (k : Codec) (d : Decimal) (stored want : ChunkCheckpoint) (c : CheckpointFile)
    → load_checkpoint k d (some stored) want ≡ some c
    → is_same_file stored want ≡ true
unfolding load_checkpoint
load_checkpoint-same k d stored want c h = elim (Bool-cases (is_same_file stored want)) [
  | inl same ↦ same
  | inr other ↦ absurd (ground arith)
]

-- A record whose document names the file that is wanted, by its drive, its ID, its size and its chunks.
pub record IsOfFile (want : ChunkCheckpoint) (c : CheckpointFile) : Type 0 where
  pub of : IsOf want c
  pub drive_id : c.meta.drive_id ≡ want.drive_id
  pub file_id : c.meta.file_id ≡ want.file_id

load_checkpoint-meta :
    (k : Codec) (d : Decimal) (stored want : ChunkCheckpoint) (c : CheckpointFile)
    → load_checkpoint k d (some stored) want ≡ some c
    → (c.meta.drive_id ≡ stored.drive_id) × (c.meta.file_id ≡ stored.file_id)
unfolding load_checkpoint
load_checkpoint-meta k d stored want c h = elim (Bool-cases (is_same_file stored want)) [
  | inl same ↦ by_bits (decode_chunk_bitmap k stored.done _) (rw same at h)
  | inr other ↦ absurd (ground arith)
]
  where
    by_bits :
        (bits : Option (List Bool))
        → loaded d stored want bits ≡ some c
        → (c.meta.drive_id ≡ stored.drive_id) × (c.meta.file_id ≡ stored.file_id)
    by_bits none l = absurd (ground arith)
    by_bits (some done) l = (ground arith, ground arith)

load_checkpoint-IsOfFile :
    (k : Codec) (d : Decimal) (stored : Option ChunkCheckpoint) (want : ChunkCheckpoint)
    (c : CheckpointFile)
    → load_checkpoint k d stored want ≡ some c
    → IsOfFile want c
load_checkpoint-IsOfFile k d none want c h = absurd (unfold load_checkpoint in ground arith)
load_checkpoint-IsOfFile k d (some stored) want c h =
    let same = is_same_file_parts stored want (load_checkpoint-same k d stored want c h) in
    let meta = load_checkpoint-meta k d stored want c h in
    record {
      of = load_checkpoint-IsOf k d (some stored) want c h;
      drive_id = meta.0 ∙ (text_eq_iff stored.drive_id want.drive_id).0 same.0;
      file_id = meta.1 ∙ (text_eq_iff stored.file_id want.file_id).0 same.1;
    }

-- Every record that a download can hold, by whatever steps, is consistent and is of the file that
-- the download is for: of its drive, its file ID, its size and its chunk size.
pub IsRecord-IsOf :
    (k : Codec) (d : Decimal) (want : ChunkCheckpoint) (c : CheckpointFile)
    → IsRecord k d want c
    → IsOfFile want c
unfolding new_checkpoint set_partials
IsRecord-IsOf k d want _ started = record {
  of = record { valid = new_checkpoint-IsValid want; size = refl; chunk_size = refl };
  drive_id = refl;
  file_id = refl;
}
IsRecord-IsOf k d want _ (resumed stored c h) = load_checkpoint-IsOfFile k d stored want c h
IsRecord-IsOf k d want _ (flushed c offsets r) =
    let h = IsRecord-IsOf k d want c r in
    record {
      of = record {
        valid = set_partials-IsValid offsets c h.of.valid;
        size = h.of.size;
        chunk_size = h.of.chunk_size;
      };
      drive_id = h.drive_id;
      file_id = h.file_id;
    }
IsRecord-IsOf k d want _ (marked c c' index r m) =
    let h = IsRecord-IsOf k d want c r in
    let same = mark_done-meta index c c' m in
    record {
      of = record {
        valid = mark_done-IsValid index c c' h.of.valid m;
        size = ap (λ m. m.size) same ∙ h.of.size;
        chunk_size = ap (λ m. m.chunk_size) same ∙ h.of.chunk_size;
      };
      drive_id = ap (λ m. m.drive_id) same ∙ h.drive_id;
      file_id = ap (λ m. m.file_id) same ∙ h.file_id;
    }

-- Decoding the printed offsets finds each where it was.
lookup-decode_partial :
    (d : Decimal)
    → IsDecimal d
    → (done : List Bool) (size chunk_size : ℤ) (m : List (ℕ × ℤ))
    → All (IsOffset done size chunk_size) m
    → (j : ℕ) → lookup j (decode_partial d (encode_partial d m) done size chunk_size) ≡ lookup j m
unfolding decode_partial encode_partial lookup
lookup-decode_partial d laws done size chunk_size [] h j = refl
lookup-decode_partial d laws done size chunk_size ((i, offset) ∷ m) h j =
    rw (laws.atoi-itoa i, h.0)
      (lookup-insert i j offset (decode_partial d (encode_partial d m) done size chunk_size)
        ∙ ap (λ o. if i == j then some offset else o)
            (lookup-decode_partial d laws done size chunk_size m h.1 j))

-- The document of a consistent record of version 2, read for the same file, is accepted. The record
-- it gives has the same complete chunks, and each chunk resumes where the stored offset says; it is a record of the file that is wanted. The hash may be new, if either is empty.
pub load_checkpoint-document :
    (k : Codec) (d : Decimal)
    → IsCodec k
    → IsDecimal d
    → (c : CheckpointFile) (want : ChunkCheckpoint) → IsOf want c
    → is_same_file (document k d c) want ≡ true
    → (r : CheckpointFile) × (load_checkpoint k d (some (document k d c)) want ≡ some r)
      × (r.done ≡ c.done)
      × ((index : ℕ) → partial_bytes r index ≡ partial_bytes c index)
      × IsOf want r
unfolding load_checkpoint document partial_bytes
load_checkpoint-document k d codec decimal c want of same = (
  again,
  read,
  refl,
  (λ index. ap offset_of (offsets index)),
  load_checkpoint-IsOf k d (some (document k d c)) want again read,
)
  where
    again : CheckpointFile
    again = record {
      done = c.done;
      partial = decode_partial d (encode_partial d c.partial) c.done want.size want.chunk_size;
      meta = record (document k d c) { hash = want.hash; version = chunk_checkpoint_version };
    }

    count : length c.done ≡ chunk_count want.size want.chunk_size
    count = of.valid.count ∙ rw (of.size, of.chunk_size) refl

    read : load_checkpoint k d (some (document k d c)) want ≡ some again
    read = rw (same, sym count, decode_chunk_bitmap-encode_chunk_bitmap k codec c.done) refl

    offsets : (index : ℕ) → lookup index again.partial ≡ lookup index c.partial
    offsets index =
        lookup-decode_partial d decimal c.done want.size want.chunk_size c.partial
          (rw (sym of.size, sym of.chunk_size) of.valid.offsets) index
