-- ===== src/Sync/Upload/Cover.antt =====
-- The segments that are sent are those of the file.
use tdrive_aliyunpan.Base.{
  ℕ, zero, suc, ◌+◌, ◌-◌, ◌*◌, ◌<◌, ◌≤◌, min, ◌≡◌, refl, ap, false, List, [], ◌∷◌, none, ℤ, pos,
  ◌-ℤ◌, ltb_ℤ, leb_ℤ, eqb_ℤ, All, arith,
}
use tdrive_aliyunpan.Download.Chunks.{
  chunk_count, chunk_bounds, chunk_length, chunk_length_lem, begin-lt, times,
}
use tdrive_aliyunpan.Sync.Item.{Item}
use tdrive_aliyunpan.Sync.Upload.{
  UploadJob, Host, Call, put, Session, put_segment, segment_length, send_segment, send_loop,
  send_segments, indices_from,
}

-- The calls for the given segments, the newest first: each sends the bytes of its chunk.
abbrev pub sent : ℤ → ℤ → List ℕ → List Call → List Call
sent total size [] calls = calls
sent total size (index ∷ indices) calls = sent total size indices (
    put index (chunk_bounds (index - 1) total size).0 (chunk_length (index - 1) total size) ∷ calls)

abbrev pub IsSegment : ℤ → ℤ → ℕ → Type 0
IsSegment total size index = (1 ≤ index) × (index ≤ chunk_count total size)

module _ (s c : ℕ) (positive : 0 < c) where
  segment_length_lem :
      (k : ℕ)
      → k * c < s
      → segment_length (pos s) (pos (k * c)) (pos c) ≡ chunk_length k (pos s) (pos c)
  unfolding ◌-ℤ◌
  segment_length_lem k h = rw (chunk_length_lem s c positive k (omega (arith, h))) (ground arith)

  module _ (h : Host) (item : Item) (job : UploadJob) (es : item.size ≡ pos s)
      (ec : job.segment_size ≡ pos c) where
    send_segment_lem :
        (k : ℕ) (z : Session)
        → suc k ≤ chunk_count (pos s) (pos c)
        → send_segment h item job (suc k) z
          ≡ put_segment h item.id
              (suc k)
              (chunk_bounds k (pos s) (pos c)).0
              (chunk_length k (pos s) (pos c))
              z
    unfolding send_segment chunk_bounds
    send_segment_lem k z l =
        let starts = begin-lt s c positive k l in
        let size = chunk_length_lem s c positive k (omega (arith, starts)) in
        let some_bytes : leb_ℤ (pos (min c (s - k * c))) (pos 0) ≡ false =
          ground (arith, starts, positive) in
        let inside : ltb_ℤ (times k (pos c)) (pos 0) ≡ false = ground arith in
        rw (es, ec, segment_length_lem k starts, size) (rw (some_bytes, inside) refl)

    send_loop_lem :
        (indices : List ℕ) (z : Session)
        → ((n : ℕ) → h.put_segment n ≡ none)
        → ((n : ℕ) → h.context_error n ≡ none)
        → All (IsSegment (pos s) (pos c)) indices
        → ((send_loop h item job indices z).0 ≡ none)
          × ((send_loop h item job indices z).1.calls ≡ sent (pos s) (pos c) indices z.calls)
    unfolding send_loop put_segment
    send_loop_lem [] z taken alive a = (refl, refl)
    send_loop_lem (zero ∷ indices) z taken alive a = absurd (omega (arith, a.0))
    send_loop_lem (suc k ∷ indices) z taken alive a =
        let same : suc k - 1 ≡ k = omega arith in
        rw (alive z.asked, send_segment_lem k z a.0.1, taken z.asked, same)
          (send_loop_lem indices _ taken alive a.1)

    indices_from-IsSegment :
        (n index : ℕ)
        → 1 ≤ index
        → index + n ≤ suc (chunk_count (pos s) (pos c))
        → All (IsSegment (pos s) (pos c)) (indices_from n index)
    indices_from-IsSegment zero index l b = tt
    indices_from-IsSegment (suc n) index l b = (
      (l, omega (arith, b)),
      indices_from-IsSegment n (suc index) (omega arith) (omega (arith, b)),
    )

    -- The first round for a file of s bytes that the host cuts into segments of c: when the host takes
    -- every segment and the context stays alive, there is no error, and the calls are one for
    -- each chunk of the file, in order, with the chunk's start and length.
    pub send_segments-covers :
        (z : Session)
        → 0 < s
        → job.segment_count ≡ chunk_count (pos s) (pos c)
        → ((n : ℕ) → h.put_segment n ≡ none)
        → ((n : ℕ) → h.context_error n ≡ none)
        → ((send_segments h item job (indices_from job.segment_count 1) z).0 ≡ none)
          × ((send_segments h item job (indices_from job.segment_count 1) z).1.calls
              ≡ sent (pos s) (pos c) (indices_from (chunk_count (pos s) (pos c)) 1) z.calls)
    unfolding send_segments
    send_segments-covers z more segments taken alive =
        let some_bytes : eqb_ℤ item.size (pos 0) ≡ false = rw es (ground (arith, more)) in
        let listed : indices_from job.segment_count 1
            ≡ indices_from (chunk_count (pos s) (pos c)) 1 =
          ap (λ n. indices_from n 1) segments in
        rw (listed, some_bytes)
          (send_loop_lem (indices_from (chunk_count (pos s) (pos c)) 1) z taken alive
            (indices_from-IsSegment (chunk_count (pos s) (pos c)) 1 (omega arith) (omega arith)))
