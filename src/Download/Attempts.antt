-- ===== src/Download/Attempts.antt =====
-- `downloadChunkWithRetry` and `waitBeforeNextAttempt` of internal/aliyunpan/source_download.go: the attempts
-- to fetch one chunk, each from the offset that the sidecar holds by then. What the context, the
-- other goroutines, the server and the disk answer in an attempt is a `Round`.
pub mod Laws
use tdrive_aliyunpan.Base.{
  ℕ, zero, suc, ◌+◌, ◌-◌, Bool, true, false, List, [], ◌∷◌, Option, none, some, ℤ, pos, Text, leb,
  if◌then◌else◌,
}
use tdrive_aliyunpan.Download.Range.{Content, Turn, Answer, FetchError, Copied, download_range}
use tdrive_aliyunpan.Download.Link.{Links, current, invalidate}
use tdrive_aliyunpan.Download.Progress.{DownloadProgress, PartialFlusher, set_chunk, note}

-- `stored` is what the flusher and the sidecar have made of the offsets that were noted: one of them,
-- counted from the newest, or none. `others` is what other workers do to the link, `fetched` what
-- `getDownloadURL` answers, and `cut` whether the context ends in the wait after the attempt.
pub record Round : Type 0 where
  pub ended : Bool
  pub stored : Option ℕ
  pub others : Text → Text
  pub now : ℤ
  pub fetched : Option Text
  pub answer : ℕ → ℕ → Answer
  pub turns : ℕ → Turn
  pub cut : Bool

-- `noted` are the offsets that the flusher was given, the newest first, and the one resumed from.
pub record Worker : Type 0 where
  pub file : Content
  pub tracker : DownloadProgress
  pub flusher : PartialFlusher
  pub noted : List ℕ
  pub url : Text
  pub requests : List (ℕ × ℕ)

abbrev pub nth : ℕ → List ℕ → ℕ
nth n [] = 0
nth zero (x ∷ xs) = x
nth (suc n) (x ∷ xs) = nth n xs

-- `partialBytes` at an attempt.
abbrev pub stored_offset : Option ℕ → List ℕ → ℕ
stored_offset none noted = 0
stored_offset (some n) noted = nth n noted

-- The callback of `downloadRange`, for each of its calls.
unfoldable pub report_calls : ℕ → ℕ → List ℕ → Worker → Worker
report_calls index written [] w = w
report_calls index written (delta ∷ calls) w =
    report_calls index (written + delta) calls (record w {
      tracker = set_chunk index (pos (written + delta)) w.tracker;
      flusher = note index (pos (written + delta)) w.flusher;
      noted = (written + delta) ∷ w.noted;
    })

-- `waitBeforeNextAttempt`
abbrev pub wait_before_next_attempt : Bool → ℕ → ℕ → Option FetchError
wait_before_next_attempt cut attempt retry =
    if leb retry (attempt + 1) then none else if cut then some FetchError.context_ended else none

abbrev pub Again : Type 0
Again = Option FetchError → Worker → Option FetchError × Worker

abbrev pub next_attempt :
    Again → Option FetchError → FetchError → Worker → Option FetchError × Worker
next_attempt again (some ended) error w = (some ended, w)
next_attempt again none error w = again (some error) w

abbrev pub without_link : Text → FetchError → Worker → Worker
without_link stale FetchError.url_expired w = record w { url = invalidate stale w.url }
without_link stale _ w = w

abbrev pub after_range :
    Again → Option FetchError → Text → Option FetchError → Worker → Option FetchError × Worker
after_range again waited link none w = (none, w)
after_range again waited link (some FetchError.source_changed) w =
    (some FetchError.source_changed, w)
after_range again waited link (some error) w =
    next_attempt again waited error (without_link link error w)

-- The chunk, and the file's size.
pub record Wanted : Type 0 where
  pub index : ℕ
  pub begin : ℕ
  pub end : ℕ
  pub total : ℤ
  pub retry : ℕ

abbrev pub after_copy : Wanted → ℕ → Copied → Worker → Worker
after_copy c offset copied w =
    report_calls c.index offset copied.calls
      (record w { file = copied.file; requests = (c.begin + offset, c.end) ∷ w.requests })

abbrev pub with_link :
    Again → Wanted → Round → ℕ → ℕ → Option Text × Text → Worker → Option FetchError × Worker
with_link again c r attempt offset (none, url) w =
    next_attempt again (wait_before_next_attempt r.cut attempt c.retry) FetchError.no_link
      (record w { url = url })
with_link again c r attempt offset (some link, url) w =
    let copied =
      download_range r.turns (r.answer (c.begin + offset) c.end) (c.begin + offset) c.end c.total
        w.file in
    after_range again (wait_before_next_attempt r.cut attempt c.retry) link copied.error
      (after_copy c offset copied (record w { url = url }))

-- One attempt that goes on.
abbrev pub attempt_from :
    Again → Links → Wanted → Round → ℕ → ℕ → Worker → Option FetchError × Worker
attempt_from again l c r attempt offset w =
    if leb (c.end - c.begin) offset
    then (none, w)
    else with_link again c r attempt offset (current l r.now r.fetched (r.others w.url)) w

abbrev pub one_attempt : Again → Links → Wanted → Round → ℕ → Worker → Option FetchError × Worker
one_attempt again l c r attempt w =
    let offset = stored_offset r.stored w.noted in
    if r.ended
    then (some FetchError.context_ended, w)
    else attempt_from again l c r attempt offset
        (record w { tracker = set_chunk c.index (pos offset) w.tracker })

-- The loop, on the attempts that are left.
unfoldable pub attempts_left :
    Links → Wanted → (ℕ → Round) → ℕ → ℕ → Option FetchError → Worker → Option FetchError × Worker
attempts_left l c rounds zero attempt last w = (last, w)
attempts_left l c rounds (suc left) attempt last w =
    one_attempt (attempts_left l c rounds left (suc attempt)) l c (rounds attempt) attempt w

-- `downloadChunkWithRetry`
unfoldable pub download_chunk_with_retry :
    Links → Wanted → (ℕ → Round) → Worker → Option FetchError × Worker
unfolding attempts_left
download_chunk_with_retry l c rounds w = attempts_left l c rounds c.retry 0 none w
