-- ===== src/Download/Range/Header.antt =====
-- Which `Content-Range` headers `validateContentRange` accepts (internal/aliyunpan/source_download.go).
use tdrive_aliyunpan.Base.{
  ◌≤ℤ◌, ◌<ℤ◌, ◌↔◌, ◌⊎◌, ◌≢◌, ℕ, ◌+◌, ◌-◌, ◌<◌, ◌≡◌, refl, ◌∙◌, true, false, not, ◌&&◌, List, [],
  ◌∷◌, ◌++◌, Option, none, some, ℤ, pos, ◌-ℤ◌, ltb_ℤ, eqb_ℤ, Text, codes, All, ◌==◌, lt→ltb, arith,
  eq_of_parts,
}
use tdrive_aliyunpan.Base.Decimals.{
  is_digit, IsDigit, print_digits, value_from, IsNumeral, scan_digits-print_digits, parse_int,
  parse_int-print_digits,
}
use tdrive_aliyunpan.Settings.Paths.{is_space, trim_right, trim_space}
use tdrive_aliyunpan.Download.Range.{
  FetchError, scan_begin, literal, skip_blanks, scan_int, scan_word, until_blank, scan_range,
  check_range, validate_content_range,
}

-- A text without blanks.
abbrev IsSolid : Text → Type 0
IsSolid = All (λ c. is_space c ≡ false)

digit-IsSolid : (d : ℕ) → d < 10 → is_space (b'0' + d) ≡ false
digit-IsSolid d h = ground arith

print_digits-IsSolid : (ds : List ℕ) → All IsDigit ds → IsSolid (print_digits ds)
print_digits-IsSolid [] h = tt
print_digits-IsSolid (d ∷ ds) h = (digit-IsSolid d h.0, print_digits-IsSolid ds h.1)

append-IsSolid : (s t : Text) → IsSolid s → IsSolid t → IsSolid (s ++ t)
append-IsSolid [] t h k = k
append-IsSolid (c ∷ s) t h k = (h.0, append-IsSolid s t h.1 k)

trim_right-IsSolid : (s : Text) → IsSolid s → trim_right s ≡ s
unfolding trim_right
trim_right-IsSolid [] h = refl
trim_right-IsSolid (c ∷ s) h = rw (h.0, trim_right-IsSolid s h.1) refl

until_blank-IsSolid : (s : Text) → IsSolid s → until_blank s ≡ s
unfolding until_blank
until_blank-IsSolid [] h = refl
until_blank-IsSolid (c ∷ s) h = rw (h.0, until_blank-IsSolid s h.1) refl

skip_blanks-digit :
    (d : ℕ) (s : Text) → d < 10 → skip_blanks ((b'0' + d) ∷ s) ≡ some ((b'0' + d) ∷ s)
unfolding skip_blanks
skip_blanks-digit d s h =
    let line : (b'0' + d == 10) ≡ false = ground arith in rw (line, digit-IsSolid d h) refl

scan_int-print_digits :
    (d : ℕ) (ds : List ℕ) (c : ℕ) (rest : Text)
    → IsNumeral (d ∷ ds)
    → is_digit c ≡ false
    → scan_int (print_digits (d ∷ ds) ++ c ∷ rest) ≡ some (pos (value_from 0 (d ∷ ds)), c ∷ rest)
unfolding scan_int
scan_int-print_digits d ds c rest h k =
    let line : (b'0' + d == 10) ≡ false = ground arith in
    let no_minus : (b'0' + d == b'-') ≡ false = ground arith in
    let no_plus : (b'0' + d == b'+') ≡ false = ground arith in
    let digit : is_digit (b'0' + d) ≡ true = ground (arith, h.0.0) in
    let value : 0 + ((b'0' + d) - b'0') ≡ 0 + d = omega arith in
    rw
      (
        line,
        digit-IsSolid d h.0.0,
        no_minus,
        no_plus,
        digit,
        value,
        scan_digits-print_digits (0 + d) ds (c ∷ rest) h.0.1 k,
        lt→ltb _ _ h.1,
      )
      refl

-- The header's text.
abbrev pub header : List ℕ → List ℕ → List ℕ → Text
header first last total =
    codes "bytes "
    ++ (print_digits first ++ b'-' ∷ (print_digits last ++ b'/' ∷ print_digits total))

abbrev pub value : List ℕ → ℕ
value ds = value_from 0 ds

trim_space-header :
    (d : ℕ) (ds last total : List ℕ)
    → All IsDigit (d ∷ ds)
    → All IsDigit last
    → All IsDigit total
    → trim_space (header (d ∷ ds) last total) ≡ header (d ∷ ds) last total
unfolding trim_space trim_right
trim_space-header d ds last total h k l =
    let tail : Text = print_digits ds ++ b'-' ∷ (print_digits last ++ b'/' ∷ print_digits total) in
    let solid : IsSolid tail =
      append-IsSolid (print_digits ds) (b'-' ∷ (print_digits last ++ b'/' ∷ print_digits total))
        (print_digits-IsSolid ds h.1)
        (
          refl,
          append-IsSolid (print_digits last) (b'/' ∷ print_digits total)
              (print_digits-IsSolid last k) (refl, print_digits-IsSolid total l),
        ) in
    rw (digit-IsSolid d h.0, trim_right-IsSolid tail solid) refl

scan_word-print_digits :
    (d : ℕ) (ds : List ℕ)
    → All IsDigit (d ∷ ds)
    → scan_word (print_digits (d ∷ ds)) ≡ some (print_digits (d ∷ ds))
unfolding scan_word
scan_word-print_digits d ds h =
    let line : (b'0' + d == 10) ≡ false = ground arith in
    rw (line, digit-IsSolid d h.0)
      (rw (digit-IsSolid d h.0, until_blank-IsSolid (print_digits ds) (print_digits-IsSolid ds h.1))
        refl)

scan_range-bytes :
    (d : ℕ) (ds rest : Text)
    → d < 10
    → scan_range (codes "bytes " ++ (print_digits (d ∷ ds) ++ rest))
      ≡ scan_begin (print_digits (d ∷ ds) ++ rest)
unfolding scan_range
scan_range-bytes d ds rest h =
    let line : (b'0' + d == 10) ≡ false = ground arith in rw (line, digit-IsSolid d h) refl

scan_range-header :
    (d : ℕ) (ds : List ℕ) (e : ℕ) (es : List ℕ) (t : ℕ) (ts : List ℕ)
    → IsNumeral (d ∷ ds)
    → IsNumeral (e ∷ es)
    → All IsDigit (t ∷ ts)
    → scan_range (header (d ∷ ds) (e ∷ es) (t ∷ ts))
      ≡ some (pos (value (d ∷ ds)), pos (value (e ∷ es)), print_digits (t ∷ ts))
scan_range-header d ds e es t ts h k l =
    let after_first : Text = print_digits (e ∷ es) ++ b'/' ∷ print_digits (t ∷ ts) in
    let start : scan_range (header (d ∷ ds) (e ∷ es) (t ∷ ts))
        ≡ scan_begin (print_digits (d ∷ ds) ++ b'-' ∷ after_first) =
      scan_range-bytes d ds (b'-' ∷ after_first) h.0.0 in
    start
    ∙ rw (scan_int-print_digits d ds b'-' after_first h refl) (
        unfold literal in
        rw (scan_int-print_digits e es b'/' (print_digits (t ∷ ts)) k refl)
          (rw (scan_word-print_digits t ts l) refl))

validate-header :
    (d : ℕ) (ds : List ℕ) (e : ℕ) (es : List ℕ) (t : ℕ) (ts : List ℕ) (begin end : ℕ) (total : ℤ)
    → IsNumeral (d ∷ ds)
    → IsNumeral (e ∷ es)
    → IsNumeral (t ∷ ts)
    → validate_content_range (header (d ∷ ds) (e ∷ es) (t ∷ ts)) begin end total
      ≡ check_range begin end total
          (some (pos (value (d ∷ ds)), pos (value (e ∷ es)), print_digits (t ∷ ts)))
unfolding validate_content_range
validate-header d ds e es t ts begin end total h k l =
    rw
      (
        trim_space-header d ds (e ∷ es) (t ∷ ts) h.0 k.0 l.0,
        scan_range-header d ds e es t ts h k l.0,
      )
      refl

-- What a header that says the bytes `first` to `last` of `size` means for a request of the bytes
-- from `begin` below `end` of a file of `total`, where `total` is not positive if it is not known.
abbrev pub Verdict : Option FetchError → ℕ → ℕ → ℕ → ℕ → ℕ → ℤ → Type 0
Verdict answer first last size begin end total =
    ((answer ≡ none)
      ↔ ((first ≡ begin) × (last + 1 ≡ end) × ((total ≤ℤ pos 0) ⊎ (pos size ≡ total))))
    × ((answer ≡ some FetchError.source_changed)
        ↔ ((first ≡ begin) × (last + 1 ≡ end) × (pos 0 <ℤ total) × (pos size ≢ total)))

-- The last byte of a range that ends before `end`.
last_lem : (last end : ℕ) → (eqb_ℤ (pos last) (pos end -ℤ pos 1) ≡ true) ↔ (last + 1 ≡ end)
unfolding ◌-ℤ◌
last_lem last end = (λ h. ground (arith, h), λ h. ground (arith, h))

total_lem :
    (size : ℕ) (total : ℤ)
    → ((ltb_ℤ (pos 0) total && not (eqb_ℤ (pos size) total)) ≡ false)
      ↔ ((total ≤ℤ pos 0) ⊎ (pos size ≡ total))
total_lem size total = (λ h. ground (arith, eq_of_parts (pos size) total), λ h. ground arith)

check-Verdict :
    (first last size begin end : ℕ) (total : ℤ) (word : Text)
    → parse_int word ≡ some (pos size)
    → Verdict
        (check_range begin end total (some (pos first, pos last, word)))
        first
        last
        size
        begin
        end
        total
check-Verdict first last size begin end total word h = rw h (
  (
    λ e. ground (arith, e, (last_lem last end).0, (total_lem size total).0),
    λ e. ground (arith, e, (last_lem last end).1, (total_lem size total).1),
  ),
  (
    λ e. ground (arith, e, (last_lem last end).0),
    λ e. ground (arith, e, (last_lem last end).1, eq_of_parts (pos size) total),
  ),
)

-- A header that prints a range and a size, each an int64, is accepted exactly if it is the range that was
-- asked for and the size is the file's, where that is known; with that range and another size it
-- says that the source has changed.
pub validate_content_range-header :
    (first last size : List ℕ) (begin end : ℕ) (total : ℤ)
    → IsNumeral first
    → IsNumeral last
    → IsNumeral size
    → Verdict
        (validate_content_range (header first last size) begin end total)
        (value first)
        (value last)
        (value size)
        begin
        end
        total
validate_content_range-header (d ∷ ds) (e ∷ es) (t ∷ ts) begin end total h k l =
    rw (validate-header d ds e es t ts begin end total h k l)
      (check-Verdict _ _ _ begin end total (print_digits (t ∷ ts)) (parse_int-print_digits t ts l))
validate_content_range-header [] last size begin end total h k l = absurd h
validate_content_range-header (d ∷ ds) [] size begin end total h k l = absurd k
validate_content_range-header (d ∷ ds) (e ∷ es) [] begin end total h k l = absurd l
