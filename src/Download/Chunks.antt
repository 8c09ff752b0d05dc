-- ===== src/Download/Chunks.antt =====
-- `chunkCount` and `chunkBounds` of internal/aliyunpan/source_checkpoint.go: how a file is cut.
use native.Mathlib.Nat.{le-div_iff_mul-le, lt-div-mul-add, div-eq_of_lt}
use tdrive_aliyunpan.Base.{
  lt_cases, inl, inr, ◌⊎◌, ℕ, zero, suc, ◌+◌, ◌-◌, ◌*◌, ◌/◌, ◌≤◌, ◌<◌, min, ◌≡◌, refl, ap, ℤ, pos,
  negsuc, ◌+ℤ◌, ◌-ℤ◌, ◌<ℤ◌, ltb_ℤ, sub_ℕ, arith, if◌then◌else◌,
}

-- A size or a chunk size that is not positive gives no chunk.
unfoldable pub chunk_count : ℤ → ℤ → ℕ
chunk_count (pos zero) chunk_size = 0
chunk_count (negsuc n) chunk_size = 0
chunk_count (pos (suc s)) (pos zero) = 0
chunk_count (pos (suc s)) (negsuc n) = 0
chunk_count (pos (suc s)) (pos (suc c)) = (suc s + c) / suc c

abbrev pub times : ℕ → ℤ → ℤ
times k (pos n) = pos (k * n)
times k (negsuc n) = sub_ℕ 0 (k * (n + 1))

-- The half-open range of a chunk.
unfoldable pub chunk_bounds : ℕ → ℤ → ℤ → ℤ × ℤ
chunk_bounds index size chunk_size =
    let begin = times index chunk_size in
    let end = begin +ℤ chunk_size in (begin, if ltb_ℤ size end then size else end)

-- `end - begin`
unfoldable pub chunk_length : ℕ → ℤ → ℤ → ℤ
unfolding chunk_bounds
chunk_length index size chunk_size =
    let (begin, end) = chunk_bounds index size chunk_size in end -ℤ begin

count_lem : (s c : ℕ) → 0 < c → chunk_count (pos s) (pos c) ≡ (s + c - 1) / c
unfolding chunk_count
count_lem s zero h = absurd (omega arith)
count_lem zero (suc c) h =
    let same : 0 + suc c - 1 ≡ c = omega arith in
    rw (same, div-eq_of_lt {n = c} {m = suc c} (omega arith)) refl
count_lem (suc s) (suc c) h = ap (λ n. n / suc c) (omega arith)

module _ (s c : ℕ) (positive : 0 < c) where
  pub chunk_length_lem :
      (i : ℕ) → i * c ≤ s → chunk_length i (pos s) (pos c) ≡ pos (min c (s - i * c))
  unfolding chunk_length chunk_bounds ◌+ℤ◌ ◌-ℤ◌
  chunk_length_lem i h = ground arith

  -- An index in range begins before the end of the file.
  pub begin-lt : (i : ℕ) → i < chunk_count (pos s) (pos c) → i * c < s
  begin-lt i h =
      let fits : (i + 1) * c ≤ s + c - 1 =
        (le-div_iff_mul-le positive).0 (omega (arith, h, count_lem s c positive)) in
      let step : (i + 1) * c ≡ i * c + c = grind arith in omega (arith, positive, fits, step)

  -- The chunks reach the end of the file.
  pub count-le : s ≤ chunk_count (pos s) (pos c) * c
  count-le = rw (count_lem s c positive) (omega (arith, lt-div-mul-add {a = s + c - 1} positive))

  -- The chunks of a file cut it without a gap and without an overlap: the first begins at 0, each
  -- holds at least a byte, each ends where the next begins, and the last ends with the file.
  pub chunk_bounds-tile :
      (i : ℕ)
      → i < chunk_count (pos s) (pos c)
      → ((chunk_bounds 0 (pos s) (pos c)).0 ≡ pos 0)
        × ((chunk_bounds i (pos s) (pos c)).0 <ℤ (chunk_bounds i (pos s) (pos c)).1)
        × (((i + 1 < chunk_count (pos s) (pos c))
              × ((chunk_bounds i (pos s) (pos c)).1 ≡ (chunk_bounds (i + 1) (pos s) (pos c)).0))
            ⊎ ((i + 1 ≡ chunk_count (pos s) (pos c))
                × ((chunk_bounds i (pos s) (pos c)).1 ≡ pos s)))
  unfolding chunk_bounds ◌+ℤ◌
  chunk_bounds-tile i h = (ground arith, ground (arith, begin-lt i h, step), last)
    where
      step : (i + 1) * c ≡ i * c + c
      step = grind arith

      last :
          ((i + 1 < chunk_count (pos s) (pos c))
            × ((chunk_bounds i (pos s) (pos c)).1 ≡ (chunk_bounds (i + 1) (pos s) (pos c)).0))
          ⊎ ((i + 1 ≡ chunk_count (pos s) (pos c)) × ((chunk_bounds i (pos s) (pos c)).1 ≡ pos s))
      last = elim (lt_cases (i + 1) (chunk_count (pos s) (pos c))) [
        | inl more ↦ inl (more, ground (arith, begin-lt (i + 1) more, step))
        | inr (inl end) ↦ inr (end, ground (arith, ends end, step))
        | inr (inr over) ↦ absurd (omega (arith, h, over))
      ]
        where
          ends : i + 1 ≡ chunk_count (pos s) (pos c) → s ≤ (i + 1) * c
          ends e = rw e count-le
