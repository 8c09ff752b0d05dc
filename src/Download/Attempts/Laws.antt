-- ===== src/Download/Attempts/Laws.antt =====
-- What the attempts to fetch a chunk leave in the partial file (`downloadChunkWithRetry` of
-- internal/aliyunpan/source_download.go).
use tdrive_aliyunpan.Base.{
  if_elim, ℕ, zero, suc, ◌+◌, ◌-◌, ◌<◌, ◌≤◌, ◌≡◌, ◌≢◌, refl, ◌∙◌, ◌⊎◌, inl, inr, lt_cases, true,
  false, All, Text, List, [], ◌∷◌, Option, none, some, length, leb, pos, arith, if◌then◌else◌,
}
use tdrive_aliyunpan.Download.Range.{Content, FetchError, Copied, download_range}
use tdrive_aliyunpan.Download.Range.Copy.{total_of}
use tdrive_aliyunpan.Download.Range.Served.{
  Serves, download_range-outside, download_range-source, download_range-Writes,
}
use tdrive_aliyunpan.Download.Link.{Links, current}
use tdrive_aliyunpan.Download.Progress.{set_chunk}
use tdrive_aliyunpan.Download.Attempts.{
  Round, Worker, nth, stored_offset, report_calls, wait_before_next_attempt, Again, next_attempt,
  after_range, Wanted, after_copy, with_link, attempt_from, one_attempt, attempts_left,
  download_chunk_with_retry,
}

-- The bytes of a file from a place on are the source's.
abbrev pub Agrees : Content → ℕ → ℕ → Content → Type 0
Agrees source begin count file =
    (place : ℕ) → begin ≤ place → place < begin + count → file place ≡ source place

-- Each noted offset is one below which the file has the source's bytes.
abbrev pub NotedAgree : Content → ℕ → Worker → Type 0
NotedAgree source begin w = All (λ n. Agrees source begin n w.file) w.noted

-- The bytes outside the chunk are those of another file.
abbrev pub SameOutside : Content → ℕ → ℕ → Content → Type 0
SameOutside old begin end file =
    (place : ℕ) → (place < begin) ⊎ (end ≤ place) → file place ≡ old place

module _ (source : Content) (begin : ℕ) where
  nth-Agrees :
      (n : ℕ) (xs : List ℕ) (file : Content)
      → All (λ k. Agrees source begin k file) xs
      → Agrees source begin (nth n xs) file
  nth-Agrees zero [] file h = λ place a b. absurd (omega arith)
  nth-Agrees (suc n) [] file h = λ place a b. absurd (omega arith)
  nth-Agrees zero (x ∷ xs) file h = h.0
  nth-Agrees (suc n) (x ∷ xs) file h = nth-Agrees n xs file h.1

  stored-Agrees :
      (stored : Option ℕ) (w : Worker)
      → NotedAgree source begin w
      → Agrees source begin (stored_offset stored w.noted) w.file
  stored-Agrees none w h = λ place a b. absurd (omega arith)
  stored-Agrees (some n) w h = nth-Agrees n w.noted w.file h

  -- The calls keep the file, and note offsets up to which it agrees.
  report_calls-Agree :
      (index written : ℕ) (calls : List ℕ) (w : Worker)
      → Agrees source begin (written + total_of calls) w.file
      → NotedAgree source begin w
      → NotedAgree source begin (report_calls index written calls w)
        × ((report_calls index written calls w).file ≡ w.file)
        × ((report_calls index written calls w).requests ≡ w.requests)
  unfolding report_calls
  report_calls-Agree index written [] w h k = (k, refl, refl)
  report_calls-Agree index written (delta ∷ calls) w h k =
      report_calls-Agree index (written + delta) calls _ (λ place a b. h place a (omega arith))
        ((λ place a b. h place a (omega arith)), k)

module _ (source old : Content) (l : Links) (c : Wanted) (ordered : c.begin ≤ c.end) where
  -- What holds between attempts.
  record IsKept (w : Worker) : Type 0 where
    noted_agree : NotedAgree source c.begin w
    same_outside : SameOutside old c.begin c.end w.file

  -- What holds of an outcome: the file is kept, holds the chunk if there is no error, and as many
  -- requests were made as the bound allows.
  record Outcome (bound : ℕ) (o : Option FetchError × Worker) : Type 0 where
    kept : IsKept o.1
    whole : o.0 ≡ none → Agrees source c.begin (c.end - c.begin) o.1.file
    few : length o.1.requests ≤ bound

  -- What the attempts that are left do.
  abbrev Continues : ℕ → Again → Type 0
  Continues left again =
      (last : Option FetchError) (w : Worker)
      → last ≢ none
      → IsKept w
      → Outcome (length w.requests + left) (again last w)

  ended_early :
      (bound : ℕ) (error : FetchError) (w : Worker)
      → IsKept w
      → length w.requests ≤ bound
      → Outcome bound (some error, w)
  ended_early bound error w k h = record { kept = k; whole = λ e. absurd (cc); few = h }

  widened :
      (bound wider : ℕ) (o : Option FetchError × Worker)
      → Outcome bound o
      → bound ≤ wider
      → Outcome wider o
  widened bound wider o p h = record { kept = p.kept; whole = p.whole; few = omega (arith, p.few) }

  kept_url : (url : Text) (w : Worker) → IsKept w → IsKept (record w { url = url })
  kept_url url w k = record { noted_agree = k.noted_agree; same_outside = k.same_outside }

  module _ (left : ℕ) (again : Again) (continues : Continues left again) where
    next_attempt-Outcome :
        (waited : Option FetchError) (error : FetchError) (w : Worker)
        → IsKept w
        → Outcome (length w.requests + left) (next_attempt again waited error w)
    next_attempt-Outcome none error w k = continues (some error) w (λ e. cc) k
    next_attempt-Outcome (some ended) error w k = ended_early _ ended w k (omega arith)

    after_range-Outcome :
        (waited : Option FetchError) (link : Text) (error : Option FetchError) (w : Worker)
        → IsKept w
        → (error ≡ none → Agrees source c.begin (c.end - c.begin) w.file)
        → Outcome (length w.requests + left) (after_range again waited link error w)
    after_range-Outcome waited link none w k h = record { kept = k; whole = h; few = omega arith }
    after_range-Outcome waited link (some FetchError.source_changed) w k h =
        ended_early _ FetchError.source_changed w k (omega arith)
    after_range-Outcome waited link (some FetchError.url_expired) w k h =
        next_attempt-Outcome waited FetchError.url_expired _
          (record { noted_agree = k.noted_agree; same_outside = k.same_outside })
    after_range-Outcome waited link (some error) w k h = next_attempt-Outcome waited error w k

  All-map : (xs : List ℕ) (P Q : ℕ → Type 0) → ((n : ℕ) → P n → Q n) → All P xs → All Q xs
  All-map [] P Q f h = tt
  All-map (x ∷ xs) P Q f h = (f x h.0, All-map xs P Q f h.1)

  module _ (r : Round) (serves : (lo hi : ℕ) → Serves source (r.answer lo hi)) where
    -- The range request of an attempt, from an offset up to which the file agrees.
    abbrev ranged : ℕ → Worker → Copied
    ranged offset w =
        download_range r.turns (r.answer (c.begin + offset) c.end) (c.begin + offset) c.end c.total
          w.file

    module _ (offset : ℕ) (w : Worker) (k : IsKept w) (agrees : Agrees source c.begin offset w.file)
        (within : offset < c.end - c.begin) where
      -- What agreed before still does, and the bytes that were counted do too.
      kept_count :
          (n : ℕ) → Agrees source c.begin n w.file → Agrees source c.begin n (ranged offset w).file
      kept_count n h place a b =
          download_range-Writes source r.turns (c.begin + offset) c.end c.total w.file
            (r.answer (c.begin + offset) c.end) (serves (c.begin + offset) c.end) place
            (inl (h place a b))

      counted :
          Agrees source c.begin (offset + total_of (ranged offset w).calls) (ranged offset w).file
      counted place a b = elim (lt_cases place (c.begin + offset)) [
        | inl before ↦ kept_count offset agrees place a before
        | inr after ↦
            download_range-Writes source r.turns (c.begin + offset) c.end c.total w.file
              (r.answer (c.begin + offset) c.end) (serves (c.begin + offset) c.end) place
              (inr (omega arith, omega arith))
      ]

      copied_whole :
          (ranged offset w).error ≡ none
          → Agrees source c.begin (c.end - c.begin) (ranged offset w).file
      copied_whole e place a b = elim (lt_cases place (c.begin + offset)) [
        | inl before ↦ kept_count offset agrees place a before
        | inr after ↦
            download_range-source source r.turns (c.begin + offset) c.end c.total w.file
              (r.answer (c.begin + offset) c.end) (serves (c.begin + offset) c.end) e place
              (omega arith) (omega arith)
      ]

      copied_outside : SameOutside old c.begin c.end (ranged offset w).file
      copied_outside place out =
          download_range-outside source r.turns (c.begin + offset) c.end c.total w.file
            (r.answer (c.begin + offset) c.end) place (omega arith) (omega arith)
          ∙ k.same_outside place out

      reported :
          (NotedAgree source c.begin (after_copy c offset (ranged offset w) w))
          × ((after_copy c offset (ranged offset w) w).file ≡ (ranged offset w).file)
          × ((after_copy c offset (ranged offset w) w).requests
              ≡ (c.begin + offset, c.end) ∷ w.requests)
      reported =
          report_calls-Agree source c.begin c.index offset (ranged offset w).calls
            (record w {
              file = (ranged offset w).file;
              requests = (c.begin + offset, c.end) ∷ w.requests;
            })
            counted (All-map w.noted _ _ kept_count k.noted_agree)

      after_copy-IsKept : IsKept (after_copy c offset (ranged offset w) w)
      after_copy-IsKept = record {
        noted_agree = reported.0;
        same_outside = λ place out. (λ i. reported.1 i place) ∙ copied_outside place out;
      }

    module _ (left : ℕ) (again : Again) (continues : Continues left again) (attempt : ℕ) where
      with_link-Outcome :
          (offset : ℕ) (found : Option Text × Text) (w : Worker)
          → IsKept w
          → Agrees source c.begin offset w.file
          → offset < c.end - c.begin
          → Outcome (length w.requests + suc left) (with_link again c r attempt offset found w)
      with_link-Outcome offset (none, url) w k h within =
          widened _ _ _
            (next_attempt-Outcome left again continues _ FetchError.no_link (record w { url = url })
              (kept_url url w k))
            (omega arith)
      with_link-Outcome offset (some link, url) w k h within =
          let w1 = record w { url = url } in
          let k1 = kept_url url w k in
          widened _ _ _
            (after_range-Outcome left again continues
              (wait_before_next_attempt r.cut attempt c.retry) link (ranged offset w1).error
              (after_copy c offset (ranged offset w1) w1) (after_copy-IsKept offset w1 k1 h within)
              (λ e place a b.
                (λ i. (reported offset w1 k1 h within).1 i place)
                ∙ copied_whole offset w1 k1 h within e place a b))
            (rw ((reported offset w1 k1 h within).2) (omega arith))

      attempt_from-Outcome :
          (offset : ℕ) (w : Worker)
          → IsKept w
          → Agrees source c.begin offset w.file
          → Outcome (length w.requests + suc left) (attempt_from again l c r attempt offset w)
      attempt_from-Outcome offset w k h =
          if_elim (Outcome (length w.requests + suc left)) (leb (c.end - c.begin) offset)
            (λ all. record {
              kept = k;
              whole = λ _ place a b. h place a (ground (arith, all));
              few = omega arith;
            })
            (λ more.
              with_link-Outcome offset (current l r.now r.fetched (r.others w.url)) w k h
                (ground (arith, more)))

      one_attempt-Outcome :
          (w : Worker)
          → IsKept w
          → Outcome (length w.requests + suc left) (one_attempt again l c r attempt w)
      one_attempt-Outcome w k =
          let offset = stored_offset r.stored w.noted in
          let h = stored-Agrees source c.begin r.stored w k.noted_agree in
          elim r.ended
            as (λ b. Outcome (length w.requests + suc left) (
              if b
              then (some FetchError.context_ended, w)
              else attempt_from again l c r attempt offset
                  (record w { tracker = set_chunk c.index (pos offset) w.tracker }))) [
                    | true ↦ ended_early _ FetchError.context_ended w k (omega arith)
                    | false ↦
                        attempt_from-Outcome offset _
                          (record { noted_agree = k.noted_agree; same_outside = k.same_outside }) h
                  ]

  attempts_left-Outcome :
      (rounds : ℕ → Round)
      → ((k lo hi : ℕ) → Serves source ((rounds k).answer lo hi))
      → (left attempt : ℕ) (last : Option FetchError) (w : Worker) → (left ≡ 0 → last ≢ none)
      → IsKept w
      → Outcome (length w.requests + left) (attempts_left l c rounds left attempt last w)
  unfolding attempts_left
  attempts_left-Outcome rounds serves zero attempt last w tried k = record {
    kept = k;
    whole = λ e. absurd (tried refl e);
    few = omega arith;
  }
  attempts_left-Outcome rounds serves (suc left) attempt last w tried k =
      one_attempt-Outcome (rounds attempt) (serves attempt) left
        (attempts_left l c rounds left (suc attempt))
        (λ error w1 failed k1.
          attempts_left-Outcome rounds serves left (suc attempt) error w1 (λ _. failed) k1)
        attempt w k

-- The fetch of a chunk from a resumed offset, up to which the partial file has the source's bytes: with
-- at least one attempt and a server that answers ranges by the source, it makes at most as many
-- requests as there are attempts and changes no byte outside the chunk; without an error the file has
-- all the chunk's bytes, and whatever the outcome it has the source's bytes up to each noted offset.
pub download_chunk_with_retry-Agrees :
    (source : Content) (l : Links) (c : Wanted) (rounds : ℕ → Round) (w : Worker) (start : ℕ)
    → c.begin ≤ c.end
    → 0 < c.retry
    → ((k lo hi : ℕ) → Serves source ((rounds k).answer lo hi))
    → w.noted ≡ start ∷ []
    → w.requests ≡ []
    → Agrees source c.begin start w.file
    → let (error, after) = download_chunk_with_retry l c rounds w in
      (error ≡ none → Agrees source c.begin (c.end - c.begin) after.file)
      × NotedAgree source c.begin after
      × SameOutside w.file c.begin c.end after.file
      × (length after.requests ≤ c.retry)
unfolding download_chunk_with_retry
download_chunk_with_retry-Agrees source l c rounds w start ordered tries serves noted fresh agrees =
    let first : IsKept source w.file l c ordered w = record {
      noted_agree = rw noted (agrees, tt);
      same_outside = λ place out. refl;
    } in
    let o =
      attempts_left-Outcome source w.file l c ordered rounds serves c.retry 0 none w
        (λ e. absurd (omega arith)) first in
    let none_made : length w.requests ≡ 0 = rw fresh refl in
    (o.whole, o.kept.noted_agree, o.kept.same_outside, omega (arith, o.few, none_made))
