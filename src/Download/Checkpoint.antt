-- ===== src/Download/Checkpoint.antt =====
-- The sidecar of a partial download (internal/aliyunpan/source_checkpoint.go): `chunkCheckpoint` is the
-- stored document, `checkpointFile` the record in memory. Reading the file and its JSON is the
-- argument `read`, the document if there is one. Sizes are far from the bounds of an int64. A Go map
-- is an association list; where two stored keys stand for one index the later one wins here.
pub mod Valid
pub mod Resume
pub mod Bytes
use tdrive_aliyunpan.Base.{
  ℕ, zero, suc, ◌+◌, Bool, true, false, not, ◌&&◌, ◌||◌, List, [], ◌∷◌, Option, none, some, ℤ, pos,
  negsuc, ◌+ℤ◌, leb_ℤ, ltb_ℤ, eqb_ℤ, Text, text_eq, is_empty, length, ltb, leb, if◌then◌else◌,
}
use tdrive_aliyunpan.Base.Table.{lookup, insert, delete}
use tdrive_aliyunpan.Download.Chunks.{chunk_count, chunk_length}
use tdrive_aliyunpan.Download.Bitmap.{Codec, at, encode_chunk_bitmap, decode_chunk_bitmap}

abbrev pub chunk_checkpoint_version : ℤ
chunk_checkpoint_version = pos 2

-- `chunkCheckpoint`
pub record ChunkCheckpoint : Type 0 where
  pub version : ℤ
  pub drive_id : Text
  pub file_id : Text
  pub size : ℤ
  pub hash : Text
  pub chunk_size : ℤ
  pub done : Text
  pub partial : List (Text × ℤ)

-- `checkpointFile`
pub record CheckpointFile : Type 0 where
  pub done : List Bool
  pub partial : List (ℕ × ℤ)
  pub meta : ChunkCheckpoint

-- `strconv.Itoa` and `strconv.Atoi` on indices.
pub record Decimal : Type 0 where
  pub itoa : ℕ → Text
  pub atoi : Text → Option ℤ

abbrev pub none_done : ℕ → List Bool
none_done zero = []
none_done (suc n) = false ∷ none_done n

-- `newCheckpoint`
unfoldable pub new_checkpoint : ChunkCheckpoint → CheckpointFile
new_checkpoint meta = record {
  done = none_done (chunk_count meta.size meta.chunk_size);
  partial = [];
  meta = record meta { version = chunk_checkpoint_version };
}

-- The tests that `decodePartial` and `setPartials` make of an offset.
unfoldable pub is_partial : List Bool → ℤ → ℤ → ℕ → ℤ → Bool
is_partial done size chunk_size index offset =
    ltb index (length done)
    && (not (at false done index)
        && (ltb_ℤ (pos 0) offset && ltb_ℤ offset (chunk_length index size chunk_size)))

abbrev pub decode_entry : List Bool → ℤ → ℤ → Option ℤ → ℤ → List (ℕ × ℤ) → List (ℕ × ℤ)
decode_entry done size chunk_size none offset m = m
decode_entry done size chunk_size (some (negsuc n)) offset m = m
decode_entry done size chunk_size (some (pos index)) offset m =
    if is_partial done size chunk_size index offset then insert index offset m else m

-- `decodePartial`
unfoldable pub decode_partial : Decimal → List (Text × ℤ) → List Bool → ℤ → ℤ → List (ℕ × ℤ)
decode_partial d [] done size chunk_size = []
decode_partial d ((key, offset) ∷ stored) done size chunk_size =
    decode_entry done size chunk_size (d.atoi key) offset
      (decode_partial d stored done size chunk_size)

-- `encodePartial`
unfoldable pub encode_partial : Decimal → List (ℕ × ℤ) → List (Text × ℤ)
encode_partial d [] = []
encode_partial d ((index, offset) ∷ partial) = (d.itoa index, offset) ∷ encode_partial d partial

-- The identity tests of `loadCheckpoint`.
unfoldable pub is_same_file : ChunkCheckpoint → ChunkCheckpoint → Bool
is_same_file stored want =
    not (
      ltb_ℤ stored.version (pos 1)
      || (ltb_ℤ chunk_checkpoint_version stored.version
          || (not (text_eq stored.drive_id want.drive_id)
              || (not (text_eq stored.file_id want.file_id)
                  || (not (eqb_ℤ stored.size want.size)
                      || not (eqb_ℤ stored.chunk_size want.chunk_size))))))
    && not (
        not (is_empty stored.hash)
        && (not (is_empty want.hash) && not (text_eq stored.hash want.hash)))

abbrev pub loaded :
    Decimal → ChunkCheckpoint → ChunkCheckpoint → Option (List Bool) → Option CheckpointFile
loaded d stored want none = none
loaded d stored want (some done) = some (record {
  done = done;
  partial = decode_partial d stored.partial done want.size want.chunk_size;
  meta = record stored { hash = want.hash; version = chunk_checkpoint_version };
})

-- `loadCheckpoint`; none means to start over.
unfoldable pub load_checkpoint :
    Codec → Decimal → Option ChunkCheckpoint → ChunkCheckpoint → Option CheckpointFile
load_checkpoint k d none want = none
load_checkpoint k d (some stored) want =
    if is_same_file stored want
    then loaded d stored want
        (decode_chunk_bitmap k stored.done (chunk_count want.size want.chunk_size))
    else none

-- What a loop over the chunks from an index adds up.
pub done_chunks : List Bool → ℕ
done_chunks [] = 0
done_chunks (b ∷ done) = (if b then 1 else 0) + done_chunks done

pub done_bytes : ℤ → ℤ → ℕ → List Bool → ℤ
done_bytes size chunk_size index [] = pos 0
done_bytes size chunk_size index (b ∷ done) =
    (if b then chunk_length index size chunk_size else pos 0)
    +ℤ done_bytes size chunk_size (suc index) done

pub partial_total : List (ℕ × ℤ) → ℤ
partial_total [] = pos 0
partial_total ((index, offset) ∷ partial) = offset +ℤ partial_total partial

-- `completed`: the chunks, the bytes in them, and the bytes in the chunks that are part-way done.
pub completed : CheckpointFile → ℕ × ℤ × ℤ
completed c =
    (done_chunks c.done, done_bytes c.meta.size c.meta.chunk_size 0 c.done, partial_total c.partial)

abbrev pub counted_bytes : Decimal → ChunkCheckpoint → ℤ → Option (List Bool) → ℤ
counted_bytes d stored size none = pos 0
counted_bytes d stored size (some done) =
    done_bytes size stored.chunk_size 0 done
    +ℤ partial_total (decode_partial d stored.partial done size stored.chunk_size)

-- `checkpointBytesForSize`
pub checkpoint_bytes_for_size : Codec → Decimal → Option ChunkCheckpoint → ℤ → ℤ
checkpoint_bytes_for_size k d none size = pos 0
checkpoint_bytes_for_size k d (some stored) size =
    if ltb_ℤ stored.version (pos 1)
      || (ltb_ℤ chunk_checkpoint_version stored.version
          || (not (eqb_ℤ stored.size size) || leb_ℤ stored.chunk_size (pos 0)))
    then pos 0
    else counted_bytes d stored size
        (decode_chunk_bitmap k stored.done (chunk_count size stored.chunk_size))

unfoldable pub pending_from : ℕ → List Bool → List ℕ
pending_from index [] = []
pending_from index (b ∷ done) =
    let rest = pending_from (suc index) done in if b then rest else index ∷ rest

-- `pending`
unfoldable pub pending : CheckpointFile → List ℕ
pending c = pending_from 0 c.done

abbrev pub offset_of : Option ℤ → ℤ
offset_of none = pos 0
offset_of (some offset) = offset

-- `partialBytes`
unfoldable pub partial_bytes : CheckpointFile → ℕ → ℤ
partial_bytes c index = offset_of (lookup index c.partial)

unfoldable pub keep_partials : List Bool → ℤ → ℤ → List (ℕ × ℤ) → List (ℕ × ℤ)
keep_partials done size chunk_size [] = []
keep_partials done size chunk_size ((index, offset) ∷ offsets) =
    let rest = keep_partials done size chunk_size offsets in
    if is_partial done size chunk_size index offset then insert index offset rest else rest

-- `setPartials`, up to the write of the document.
unfoldable pub set_partials : List (ℕ × ℤ) → CheckpointFile → CheckpointFile
set_partials offsets c = record c {
  partial = keep_partials c.done c.meta.size c.meta.chunk_size offsets;
}

abbrev pub mark : ℕ → List Bool → List Bool
mark i [] = []
mark zero (b ∷ done) = true ∷ done
mark (suc i) (b ∷ done) = b ∷ mark i done

-- `markDone`, up to the write of the document; none is its error.
unfoldable pub mark_done : ℕ → CheckpointFile → Option CheckpointFile
mark_done index c =
    if leb (length c.done) index
    then none
    else some (record c { done = mark index c.done; partial = delete index c.partial })

-- The document that `writeLocked` writes.
unfoldable pub document : Codec → Decimal → CheckpointFile → ChunkCheckpoint
document k d c = record (c.meta) {
  done = encode_chunk_bitmap k c.done;
  partial = encode_partial d c.partial;
}
