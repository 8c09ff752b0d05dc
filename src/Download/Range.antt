-- ===== src/Download/Range.antt =====
-- `downloadRange` and `validateContentRange` of internal/aliyunpan/source_download.go: one request for the
-- bytes of a chunk from an offset, and the copy of its body into the partial file.
pub mod Header
pub mod Copy
pub mod Served
use tdrive_aliyunpan.Base.{
  ℕ, zero, suc, ◌+◌, ◌-◌, Bool, true, false, not, ◌&&◌, ◌||◌, List, [], ◌∷◌, ◌++◌, Option, none,
  some, ℤ, pos, ◌-ℤ◌, ltb_ℤ, eqb_ℤ, Text, codes, is_empty, has_prefix, length, take, min, ltb, leb,
  ◌==◌, if◌then◌else◌,
}
use tdrive_aliyunpan.Base.Decimals.{is_digit, scan_digits, signed, parse_int, and_then}
use tdrive_aliyunpan.Settings.Paths.{is_space, trim_space}

abbrev pub download_buffer_size : ℕ
download_buffer_size = 262144

-- The errors of a chunk's download; `context_ended` is the context's own.
pub data FetchError : Type 0 where
  context_ended request_failed url_expired source_changed bad_status unexpected_status : FetchError
  range_ignored no_range malformed_range other_range malformed_total : FetchError
  rate_refused write_failed short_write incomplete no_link : FetchError

-- The rest of a text after a literal of the format.
unfoldable pub literal : Text → Text → Option Text
literal [] s = some s
literal (c ∷ p) [] = none
literal (c ∷ p) (d ∷ s) = if c == d then literal p s else none

-- Blanks before a value; a line's end is none.
unfoldable pub skip_blanks : Text → Option Text
skip_blanks [] = some []
skip_blanks (c ∷ s) =
    let rest = skip_blanks s in if c == 10 then none else if is_space c then rest else some (c ∷ s)

-- A blank of the format: at least one blank, or the end.
abbrev format_blank : Text → Option Text
format_blank [] = some []
format_blank (c ∷ s) = if is_space c then skip_blanks (c ∷ s) else none

abbrev with_rest : Text → Option ℤ → Option (ℤ × Text)
with_rest rest none = none
with_rest rest (some value) = some (value, rest)

abbrev scanned : Bool → ℕ × Text → Option (ℤ × Text)
scanned negative (n, rest) = with_rest rest (signed negative n)

abbrev some_digits : Bool → Text → Option (ℤ × Text)
some_digits negative [] = none
some_digits negative (c ∷ s) = if is_digit c then scanned negative (scan_digits 0 (c ∷ s)) else none

abbrev sign : Text → Option (ℤ × Text)
sign [] = none
sign (c ∷ s) =
    if c == b'-'
    then some_digits true s
    else if c == b'+'
    then some_digits false s
    else some_digits false (c ∷ s)

-- `%d` of `fmt.Sscanf`.
unfoldable pub scan_int : Text → Option (ℤ × Text)
unfolding skip_blanks scan_digits
scan_int s = and_then (skip_blanks s) sign

unfoldable pub until_blank : Text → Text
until_blank [] = []
until_blank (c ∷ s) = if is_space c then [] else c ∷ until_blank s

abbrev some_word : Text → Option Text
some_word [] = none
some_word (c ∷ s) = some (until_blank (c ∷ s))

-- `%s` of `fmt.Sscanf`.
unfoldable pub scan_word : Text → Option Text
unfolding skip_blanks until_blank
scan_word s = and_then (skip_blanks s) some_word

abbrev pub scan_total : ℤ → ℤ → Text → Option (ℤ × ℤ × Text)
scan_total begin last s = and_then (scan_word s) λ total. some (begin, last, total)

abbrev pub scan_last : ℤ → Text → Option (ℤ × ℤ × Text)
scan_last begin s =
    and_then (scan_int s)
      λ (last, rest). and_then (literal (codes "/") rest) (scan_total begin last)

abbrev pub scan_begin : Text → Option (ℤ × ℤ × Text)
scan_begin s =
    and_then (scan_int s) λ (begin, rest). and_then (literal (codes "-") rest) (scan_last begin)

-- `fmt.Sscanf(value, "bytes %d-%d/%s", …)`; what follows is left over.
unfoldable pub scan_range : Text → Option (ℤ × ℤ × Text)
unfolding literal skip_blanks
scan_range s = and_then (and_then (literal (codes "bytes") s) format_blank) scan_begin

abbrev pub check_total : ℤ → Option ℤ → Option FetchError
check_total expected none = some FetchError.malformed_total
check_total expected (some reported) =
    if ltb_ℤ (pos 0) expected && not (eqb_ℤ reported expected)
    then some FetchError.source_changed
    else none

abbrev pub check_range : ℕ → ℕ → ℤ → Option (ℤ × ℤ × Text) → Option FetchError
check_range begin end total none = some FetchError.malformed_range
check_range begin end total (some (first, last, word)) =
    if not (eqb_ℤ first (pos begin)) || not (eqb_ℤ last (pos end -ℤ pos 1))
    then some FetchError.other_range
    else check_total total (parse_int word)

-- `validateContentRange`
unfoldable pub validate_content_range : Text → ℕ → ℕ → ℤ → Option FetchError
validate_content_range value begin end total =
    let value = trim_space value in
    if is_empty value
    then some FetchError.no_range
    else check_range begin end total (scan_range value)

-- Bytes of a file by their place.
abbrev pub Content : Type 0
Content = ℕ → ℕ

-- The answer to a request, or the client's error: `ended` is whether the context had ended by then.
-- `arrives` bytes of the body arrive before it ends or breaks; of an error's body, the first 4096
-- bytes in lower case are `message`.
pub record Response : Type 0 where
  pub status : ℕ
  pub content_range : Text
  pub message : Text
  pub body : Content
  pub arrives : ℕ

pub data Answer : Type 0 where
  answered : Response → Answer
  failed : (ended : Bool) → Answer

-- What the disk answers to a write: a broken or a short one leaves some bytes.
pub data Write : Type 0 where
  whole : Write
  broken : ℕ → Write
  short : ℕ → Write

-- What the rate limiter and the disk answer to one buffer.
pub record Turn : Type 0 where
  pub refuses : Bool
  pub write : Write

-- A file after bytes were written from an offset.
abbrev pub write_range : Content → ℕ → ℕ → Content → Content
write_range bytes offset count file place =
    if leb offset place && ltb place (offset + count) then bytes place else file place

-- `strings.Contains`
unfoldable pub has_part : Text → Text → Bool
has_part part [] = is_empty part
has_part part (c ∷ s) = has_prefix part (c ∷ s) || has_part part s

-- The tests before the body is read: none to read it.
unfoldable pub refused : Response → ℕ → ℕ → ℤ → Option FetchError
unfolding has_part
refused r begin end total =
    if r.status == 401 || (r.status == 403 || r.status == 410)
    then some FetchError.url_expired
    else if ltb r.status 200 || leb 300 r.status
    then some (
        if has_part (codes "expired") r.message
          || (has_part (codes "accessdenied") r.message
              || has_part (codes "signaturedoesnotmatch") r.message)
        then FetchError.url_expired
        else FetchError.bad_status)
    else if not (r.status == 200) && not (r.status == 206)
    then some FetchError.unexpected_status
    else if r.status == 200 && not (begin == 0)
    then some FetchError.range_ignored
    else if r.status == 206
    then validate_content_range r.content_range begin end total
    else none

-- An error, the file, and the calls of `progress` in order.
pub record Copied : Type 0 where
  pub error : Option FetchError
  pub file : Content
  pub calls : List ℕ

abbrev pub stopped : Option FetchError → Content → Copied
stopped error file = record { error = error; file = file; calls = [] }

abbrev pub called : ℕ → Copied → Copied
called count c = record c { calls = count ∷ c.calls }

-- After a read of some bytes, with what follows if they are all written.
abbrev pub written : Write → Content → ℕ → ℕ → Content → Copied → Copied
written (broken n) bytes offset count file next =
    stopped (some FetchError.write_failed) (write_range bytes offset (min n count) file)
written (short n) bytes offset count file next =
    stopped (some FetchError.short_write) (write_range bytes offset (min n count) file)
written whole bytes offset count file next = called count next

-- The loop that copies the body, on as many rounds as bytes remain: each round that goes on has read at
-- least one. `bytes` gives the body's byte for a place in the file.
unfoldable pub copy_body : (ℕ → Turn) → Content → ℕ → ℕ → ℕ → ℕ → Content → Copied
copy_body turns bytes zero offset remaining arrives file = stopped none file
copy_body turns bytes (suc rounds) offset remaining arrives file =
    let want = min download_buffer_size remaining in
    let count = min want arrives in
    let filled = write_range bytes offset count file in
    let rest =
      copy_body turns bytes rounds (offset + count) (remaining - count) (arrives - count) filled in
    if remaining == 0
    then stopped none file
    else if count == 0
    then stopped (some FetchError.incomplete) file
    else if (turns rounds).refuses
    then stopped (some FetchError.rate_refused) file
    else written (turns rounds).write bytes offset count file
        (if ltb count want then stopped (some FetchError.incomplete) filled else rest)

abbrev pub body_bytes : ℕ → Content → Content
body_bytes begin body place = body (place - begin)

abbrev pub after_tests : (ℕ → Turn) → Response → ℕ → ℕ → Content → Option FetchError → Copied
after_tests turns r begin end file (some error) = stopped (some error) file
after_tests turns r begin end file none =
    copy_body turns (body_bytes begin r.body) (end - begin) begin (end - begin) r.arrives file

-- `downloadRange`
unfoldable pub download_range : (ℕ → Turn) → Answer → ℕ → ℕ → ℤ → Content → Copied
download_range turns (failed ended) begin end total file =
    stopped (some (if ended then FetchError.context_ended else FetchError.request_failed)) file
download_range turns (answered r) begin end total file =
    after_tests turns r begin end file (refused r begin end total)
