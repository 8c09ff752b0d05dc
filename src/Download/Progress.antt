-- ===== src/Download/Progress.antt =====
-- `downloadProgress` and `partialFlusher` of internal/aliyunpan/source_download.go: the bytes shown to the
-- user, and the offsets that wait to be stored. The `report` callback is the list of what it was
-- given, the newest first, or none if there is no callback. Each operation runs under its lock.
use tdrive_aliyunpan.Base.{
  ℕ, Bool, true, false, List, [], ◌∷◌, Option, none, some, ℤ, pos, ◌+ℤ◌, ltb_ℤ, eqb_ℤ,
  if◌then◌else◌,
}
use tdrive_aliyunpan.Base.Table.{lookup, insert, delete}
use tdrive_aliyunpan.Download.Checkpoint.{CheckpointFile, offset_of, partial_bytes, partial_total}

-- `downloadProgress`
pub record DownloadProgress : Type 0 where
  pub base : ℤ
  pub chunks : List (ℕ × ℤ)
  pub total : ℤ
  pub report : Option (List ℤ)

-- A Go map read at a missing key gives 0.
abbrev pub read : ℕ → List (ℕ × ℤ) → ℤ
read index m = offset_of (lookup index m)

-- `newDownloadProgress`
pub new_download_progress : ℤ → ℤ → List (ℕ × ℤ) → Option (List ℤ) → DownloadProgress
new_download_progress base total chunks report = record {
  base = base;
  chunks = chunks;
  total = total;
  report = report;
}

abbrev at_least_zero : ℤ → ℤ
at_least_zero value = if ltb_ℤ value (pos 0) then pos 0 else value

abbrev at_most : ℤ → ℤ → ℤ
at_most total value = if ltb_ℤ total value then total else value

-- `currentLocked`
unfoldable pub current_locked : DownloadProgress → ℤ
current_locked p = at_least_zero (at_most p.total (p.base +ℤ partial_total p.chunks))

-- `emitLocked`
unfoldable pub emit_locked : DownloadProgress → DownloadProgress
emit_locked p = record p {
  report = elim p.report [ none ↦ none | some values ↦ some (current_locked p ∷ values) ];
}

-- `setChunk`
unfoldable pub set_chunk : ℕ → ℤ → DownloadProgress → DownloadProgress
set_chunk index offset p =
    if eqb_ℤ (read index p.chunks) offset
    then p
    else emit_locked (record p { chunks = insert index offset p.chunks })

-- `complete`
unfoldable pub complete : ℕ → ℤ → DownloadProgress → DownloadProgress
complete index size p =
    emit_locked (record p { chunks = delete index p.chunks; base = p.base +ℤ size })

-- `partialFlusher`; the file and the checkpoint that it holds are those of the run.
pub record PartialFlusher : Type 0 where
  pub offsets : List (ℕ × ℤ)
  pub changed : Bool

-- `newPartialFlusher`
unfoldable pub new_partial_flusher : List (ℕ × ℤ) → PartialFlusher
new_partial_flusher seed = record { offsets = seed; changed = false }

-- `note`
unfoldable pub note : ℕ → ℤ → PartialFlusher → PartialFlusher
note index offset f =
    if eqb_ℤ (read index f.offsets) offset
    then f
    else record { offsets = insert index offset f.offsets; changed = true }

-- `forget`
unfoldable pub forget : ℕ → PartialFlusher → PartialFlusher
forget index f = elim (lookup index f.offsets) [
  | none ↦ f
  | some offset ↦ record { offsets = delete index f.offsets; changed = true }
]

-- `resumeOffsets` of `downloadChunks`
unfoldable pub resume_offsets : CheckpointFile → List ℕ → List (ℕ × ℤ)
resume_offsets c [] = []
resume_offsets c (index ∷ pending) =
    let rest = resume_offsets c pending in
    if ltb_ℤ (pos 0) (partial_bytes c index)
    then insert index (partial_bytes c index) rest
    else rest
