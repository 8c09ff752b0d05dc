-- ===== src/Download/Range/Served.antt =====
-- What a range request leaves in the partial file (`downloadRange` of internal/aliyunpan/source_download.go).
use tdrive_aliyunpan.Base.{
  ℕ, ◌+◌, ◌-◌, ◌<◌, ◌≤◌, ◌≡◌, refl, ◌∙◌, ap, pos, eq_of_parts, Text, ◌⊎◌, Bool, Option, none, some,
  ℤ, lt_cases, inl, inr, arith, if◌then◌else◌,
}
use tdrive_aliyunpan.Settings.Paths.{trim_space}
use tdrive_aliyunpan.Download.Range.{
  Content, Turn, FetchError, Answer, answered, failed, Response, copy_body, after_tests, body_bytes,
  download_range, refused, scan_range, validate_content_range, check_range,
}
use tdrive_aliyunpan.Download.Range.Copy.{
  total_of, copy_body-outside, copy_body-Copies, copy_body-Writes,
}

-- What a server answers about a file: a full answer is the file, and the range that a partial answer's
-- header names is what its body holds.
abbrev pub Serves : Content → Answer → Type 0
Serves source (failed ended) = Unit
Serves source (answered r) =
    (r.status ≡ 200 → (i : ℕ) → r.body i ≡ source i)
    × (r.status ≡ 206
        → (first : ℕ) (last : ℤ) (word : Text)
        → scan_range (trim_space r.content_range) ≡ some (pos first, last, word)
        → (i : ℕ) → r.body i ≡ source (first + i))

check_range-none :
    (begin end : ℕ) (total : ℤ) (scanned : Option (ℤ × ℤ × Text))
    → check_range begin end total scanned ≡ none
    → (last : ℤ) × (word : Text) × (scanned ≡ some (pos begin, last, word))
check_range-none begin end total none h = absurd (cc)
check_range-none begin end total (some (first, last, word)) h =
    (last, word, ground (arith, eq_of_parts first (pos begin)))

validate-none :
    (value : Text) (begin end : ℕ) (total : ℤ)
    → validate_content_range value begin end total ≡ none
    → (last : ℤ) × (word : Text) × (scan_range (trim_space value) ≡ some (pos begin, last, word))
unfolding validate_content_range
validate-none value begin end total h =
    check_range-none begin end total (scan_range (trim_space value)) (ground arith)

refused-none :
    (r : Response) (begin end : ℕ) (total : ℤ)
    → refused r begin end total ≡ none
    → ((r.status ≡ 200) × (begin ≡ 0))
      ⊎ ((r.status ≡ 206) × (validate_content_range r.content_range begin end total ≡ none))
unfolding refused
refused-none r begin end total h = ground arith

none_of_stopped :
    (turns : ℕ → Turn) (r : Response) (begin end : ℕ) (file : Content) (tested : Option FetchError)
    → (after_tests turns r begin end file tested).error ≡ none
    → tested ≡ none
none_of_stopped turns r begin end file none h = refl
none_of_stopped turns r begin end file (some error) h = h

failure-some :
    (ended : Bool)
    → some (if ended then FetchError.context_ended else FetchError.request_failed) ≡ none
    → ⊥
failure-some ended h = cc

module _ (source : Content) (turns : ℕ → Turn) (begin end : ℕ) (total : ℤ) (file : Content) where
  -- An accepted body holds the source's bytes from the range's beginning.
  accepted-source :
      (r : Response)
      → Serves source (answered r)
      → refused r begin end total ≡ none
      → (place : ℕ) → begin ≤ place
      → body_bytes begin r.body place ≡ source place
  accepted-source r s h place le = elim (refused-none r begin end total h) [
    | inl (full, zero_begin) ↦ s.0 full (place - begin) ∙ ap source (omega arith)
    | inr (part, valid) ↦
        let (last, word, named) = validate-none r.content_range begin end total valid in
        s.1 part begin last word named (place - begin) ∙ ap source (omega arith)
  ]

  -- A range request changes no byte outside its range.
  pub download_range-outside :
      (answer : Answer) (place : ℕ)
      → begin ≤ end
      → (place < begin) ⊎ (end ≤ place)
      → (download_range turns answer begin end total file).file place ≡ file place
  unfolding download_range
  download_range-outside (failed ended) place h k = refl
  download_range-outside (answered r) place h k =
      elim (refused r begin end total)
        as (λ v. (after_tests turns r begin end file v).file place ≡ file place) [
          | some error ↦ refl
          | none ↦
              copy_body-outside turns (body_bytes begin r.body) (end - begin) begin (end - begin)
                r.arrives file place (omega arith)
        ]

  pub download_range-source :
      (answer : Answer)
      → Serves source answer
      → (download_range turns answer begin end total file).error ≡ none
      → (place : ℕ) → begin ≤ place
      → place < end
      → (download_range turns answer begin end total file).file place ≡ source place
  unfolding download_range
  download_range-source (failed ended) s e place from to = absurd (failure-some ended e)
  download_range-source (answered r) s e place from to =
      let tests = none_of_stopped turns r begin end file (refused r begin end total) e in
      rw tests (
        (copy_body-Copies turns (body_bytes begin r.body) (end - begin) begin (end - begin)
            r.arrives file (omega arith) (rw tests at e)).0
          place from (omega arith)
        ∙ accepted-source r s tests place from)

  body-Writes :
      (r : Response)
      → Serves source (answered r)
      → refused r begin end total ≡ none
      → (rounds remaining place : ℕ)
      → (file place ≡ source place)
        ⊎ ((begin ≤ place)
            × (place
                < begin
                  + total_of
                      (copy_body turns
                        (body_bytes begin r.body)
                        rounds
                        begin
                        remaining
                        r.arrives
                        file).calls))
      → (copy_body turns (body_bytes begin r.body) rounds begin remaining r.arrives file).file place
        ≡ source place
  body-Writes r s h rounds remaining place k = elim (lt_cases place begin) [
    | inl before ↦
        copy_body-outside turns (body_bytes begin r.body) rounds begin remaining r.arrives file
          place (inl before)
        ∙ old before k
    | inr after ↦
        let same = accepted-source r s h place (omega arith) in
        copy_body-Writes turns (body_bytes begin r.body) rounds begin remaining r.arrives file place
          (ground (arith, same))
        ∙ same
  ]
    where
      old :
          {P : Type 0}
          → place < begin
          → (file place ≡ source place) ⊎ ((begin ≤ place) × P)
          → file place ≡ source place
      old b (inl e) = e
      old b (inr (le, p)) = absurd (omega arith)

  -- Whatever the outcome, places that have the source's bytes keep them, and those that the calls of
  -- `progress` count have them.
  pub download_range-Writes :
      (answer : Answer)
      → Serves source answer
      → (place : ℕ)
      → (file place ≡ source place)
        ⊎ ((begin ≤ place)
            × (place < begin + total_of (download_range turns answer begin end total file).calls))
      → (download_range turns answer begin end total file).file place ≡ source place
  unfolding download_range
  download_range-Writes (failed ended) s place k = ground arith
  download_range-Writes (answered r) s place k = tested (refused r begin end total) refl k
    where
      tested :
          (v : Option FetchError)
          → refused r begin end total ≡ v
          → (file place ≡ source place)
            ⊎ ((begin ≤ place)
                × (place < begin + total_of (after_tests turns r begin end file v).calls))
          → (after_tests turns r begin end file v).file place ≡ source place
      tested (some error) h k = ground arith
      tested none h k = body-Writes r s h (end - begin) (end - begin) place k
