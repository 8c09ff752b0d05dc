-- ===== src/Download/Checkpoint/Valid.antt =====
-- A sidecar's record is consistent, and never counts more bytes than the file has.
use tdrive_aliyunpan.Base.{
  ℕ, zero, suc, ◌≡◌, refl, ap, ◌∙◌, subst, Bool, true, false, List, [], ◌∷◌, Option, none, some, ℤ,
  pos, negsuc, Text, length, All, leb, ◌==◌, arith, Bool-cases, inl, inr, if◌then◌else◌,
}
use tdrive_aliyunpan.Base.Table.{
  insert, delete, IsKeyed, IsKeyed-insert, IsKeyed-delete, All-insert,
}
use tdrive_aliyunpan.Download.Chunks.{chunk_count}
use tdrive_aliyunpan.Download.Bitmap.{at}
use tdrive_aliyunpan.Download.Checkpoint.{
  ChunkCheckpoint, CheckpointFile, Decimal, none_done, new_checkpoint, is_partial, decode_entry,
  decode_partial, keep_partials, set_partials, mark, mark_done,
}

-- Part-way offsets belong to chunks that are in the file and not complete, and lie inside them.
abbrev pub IsOffset : List Bool → ℤ → ℤ → ℕ × ℤ → Type 0
IsOffset done size chunk_size (index, offset) = is_partial done size chunk_size index offset ≡ true

pub record IsValid (c : CheckpointFile) : Type 0 where
  pub count : length c.done ≡ chunk_count c.meta.size c.meta.chunk_size
  pub offsets : All (IsOffset c.done c.meta.size c.meta.chunk_size) c.partial
  pub keyed : IsKeyed c.partial

length-none_done : (n : ℕ) → length (none_done n) ≡ n
length-none_done zero = refl
length-none_done (suc n) = ap suc (length-none_done n)

pub length-mark : (i : ℕ) (done : List Bool) → length (mark i done) ≡ length done
length-mark i [] = refl
length-mark zero (b ∷ done) = refl
length-mark (suc i) (b ∷ done) = ap suc (length-mark i done)

at-mark :
    (i j : ℕ) (done : List Bool) → (i == j) ≡ false → at false (mark i done) j ≡ at false done j
at-mark i j [] h = refl
at-mark zero zero (b ∷ done) h = cc
at-mark zero (suc j) (b ∷ done) h = refl
at-mark (suc i) zero (b ∷ done) h = refl
at-mark (suc i) (suc j) (b ∷ done) h = at-mark i j done (ground arith)

pub new_checkpoint-IsValid : (meta : ChunkCheckpoint) → IsValid (new_checkpoint meta)
unfolding new_checkpoint
new_checkpoint-IsValid meta = record {
  count = length-none_done (chunk_count meta.size meta.chunk_size);
  offsets = tt;
  keyed = tt;
}

-- A map that holds only such offsets, each once.
abbrev pub IsPartial : List Bool → ℤ → ℤ → List (ℕ × ℤ) → Type 0
IsPartial done size chunk_size m = All (IsOffset done size chunk_size) m × IsKeyed m

module _ (done : List Bool) (size chunk_size : ℤ) where
  insert-IsPartial :
      (b : Bool) (index : ℕ) (offset : ℤ) (m : List (ℕ × ℤ))
      → is_partial done size chunk_size index offset ≡ b
      → IsPartial done size chunk_size m
      → IsPartial done size chunk_size (if b then insert index offset m else m)
  insert-IsPartial true index offset m e h = (
    All-insert (IsOffset done size chunk_size) index offset m e h.0,
    IsKeyed-insert index offset m h.1,
  )
  insert-IsPartial false index offset m e h = h

  keep_partials-IsPartial :
      (offsets : List (ℕ × ℤ))
      → IsPartial done size chunk_size (keep_partials done size chunk_size offsets)
  unfolding keep_partials
  keep_partials-IsPartial [] = (tt, tt)
  keep_partials-IsPartial ((index, offset) ∷ offsets) =
      insert-IsPartial _ index offset _ refl (keep_partials-IsPartial offsets)

  decode_entry-IsPartial :
      (key : Option ℤ) (offset : ℤ) (m : List (ℕ × ℤ))
      → IsPartial done size chunk_size m
      → IsPartial done size chunk_size (decode_entry done size chunk_size key offset m)
  decode_entry-IsPartial none offset m h = h
  decode_entry-IsPartial (some (negsuc n)) offset m h = h
  decode_entry-IsPartial (some (pos index)) offset m h = insert-IsPartial _ index offset m refl h

  pub decode_partial-IsPartial :
      (d : Decimal) (stored : List (Text × ℤ))
      → IsPartial done size chunk_size (decode_partial d stored done size chunk_size)
  unfolding decode_partial
  decode_partial-IsPartial d [] = (tt, tt)
  decode_partial-IsPartial d ((key, offset) ∷ stored) =
      decode_entry-IsPartial (d.atoi key) offset _ (decode_partial-IsPartial d stored)

pub set_partials-IsValid :
    (offsets : List (ℕ × ℤ)) (c : CheckpointFile) → IsValid c → IsValid (set_partials offsets c)
unfolding set_partials
set_partials-IsValid offsets c v =
    let kept = keep_partials-IsPartial c.done c.meta.size c.meta.chunk_size offsets in
    record { count = v.count; offsets = kept.0; keyed = kept.1 }

-- The other chunks' offsets stay valid when a chunk is marked.
pub marked_offsets :
    (index : ℕ) (done : List Bool) (size chunk_size : ℤ) (m : List (ℕ × ℤ))
    → All (IsOffset done size chunk_size) m
    → All (IsOffset (mark index done) size chunk_size) (delete index m)
unfolding delete is_partial
marked_offsets index done size chunk_size [] h = tt
marked_offsets index done size chunk_size ((j, offset) ∷ m) h = elim (Bool-cases (j == index)) [
  | inl e ↦ rw e (marked_offsets index done size chunk_size m h.1)
  | inr e ↦ rw e (
    rw (length-mark index done, at-mark index j done (flip e)) h.0,
    marked_offsets index done size chunk_size m h.1,
  )
]
  where
    flip : (j == index) ≡ false → (index == j) ≡ false
    flip e = ground arith

pub mark_done-IsValid :
    (index : ℕ) (c c' : CheckpointFile) → IsValid c → mark_done index c ≡ some c' → IsValid c'
unfolding mark_done
mark_done-IsValid index c c' v h = elim (Bool-cases (leb (length c.done) index)) [
  | inl e ↦ impossible e
  | inr e ↦ subst IsValid (made e) after
]
  where
    impossible : leb (length c.done) index ≡ true → IsValid c'
    impossible e = ground arith

    made :
        leb (length c.done) index ≡ false
        → record c { done = mark index c.done; partial = delete index c.partial } ≡ c'
    made e = ground arith

    after : IsValid (record c { done = mark index c.done; partial = delete index c.partial })
    after = record {
      count = length-mark index c.done ∙ v.count;
      offsets = marked_offsets index c.done c.meta.size c.meta.chunk_size c.partial v.offsets;
      keyed = IsKeyed-delete index c.partial v.keyed;
    }
