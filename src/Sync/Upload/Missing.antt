-- ===== src/Sync/Upload/Missing.antt =====
-- `parseMissingSegments` of internal/sync/transfer.go with its pattern: the host's refusal names the
-- segments that it lacks. `regexp`, `strings.Fields` and `strconv.Atoi` are written out for the pattern's alphabet.
use tdrive_aliyunpan.Base.{
  ℕ, ◌+◌, ◌-◌, ◌*◌, ◌≡◌, ◌≢◌, ◌^◌, refl, sym, ap, ◌∙◌, true, false, ◌||◌, List, [], ◌∷◌, ◌++◌,
  Option, none, some, Text, codes, All, ltb, ◌==◌, lt→ltb, arith, if◌then◌else◌,
}
use tdrive_aliyunpan.Base.Decimals.{
  is_digit, IsDigit, print_digits, value_from, IsNumeral, append_nil,
}

abbrev pattern_prefix : Text
pattern_prefix = codes "missing segments ["

-- The rest of a text after a prefix.
unfoldable pub strip : Text → Text → Option Text
strip [] s = some s
strip (c ∷ p) [] = none
strip (c ∷ p) (d ∷ s) = if c == d then strip p s else none

abbrev prepend : ℕ → Option Text → Option Text
prepend c none = none
prepend c (some s) = some (c ∷ s)

-- `([0-9 ]*)\]`, the group.
unfoldable pub group : Text → Option Text
group [] = none
group (c ∷ s) =
    let rest = prepend c (group s) in
    if c == b']' then some [] else if is_digit c || c == b' ' then rest else none

abbrev group_of : Option Text → Option Text
group_of none = none
group_of (some s) = group s

abbrev or_later : Option Text → Option Text → Option Text
or_later (some s) later = some s
or_later none later = later

-- `FindStringSubmatch`: the group of the first match.
unfoldable pub find_group : Text → Option Text
find_group [] = none
find_group (c ∷ s) = or_later (group_of (strip pattern_prefix (c ∷ s))) (find_group s)

-- `Atoi` of the digits so far; a number that is no int is skipped.
abbrev add_number : Option ℕ → List ℕ → List ℕ
add_number none rest = rest
add_number (some n) rest = if ltb n (2 ^ 63) then n ∷ rest else rest

abbrev number_so_far : Option ℕ → ℕ
number_so_far none = 0
number_so_far (some n) = n

unfoldable pub numbers : Option ℕ → Text → List ℕ
numbers read [] = add_number read []
numbers read (c ∷ s) =
    if c == b' '
    then add_number read (numbers none s)
    else numbers (some (10 * number_so_far read + (c - b'0'))) s

abbrev numbers_of : Option Text → List ℕ
numbers_of none = []
numbers_of (some s) = numbers none s

-- `parseMissingSegments`
unfoldable pub parse_missing_segments : Text → List ℕ
parse_missing_segments message = numbers_of (find_group message)

-- `%v` of a slice, after its bracket.
abbrev pub print_numbers : List (List ℕ) → Text
print_numbers [] = []
print_numbers (ds ∷ []) = print_digits ds
print_numbers (ds ∷ es ∷ more) = print_digits ds ++ b' ' ∷ print_numbers (es ∷ more)

abbrev pub values : List (List ℕ) → List ℕ
values [] = []
values (ds ∷ more) = value_from 0 ds ∷ values more

numbers-print_digits :
    (n : ℕ) (ds : List ℕ) (rest : Text)
    → All IsDigit ds
    → numbers (some n) (print_digits ds ++ rest) ≡ numbers (some (value_from n ds)) rest
unfolding numbers
numbers-print_digits n [] rest h = refl
numbers-print_digits n (d ∷ ds) rest h =
    let digit : (b'0' + d) - b'0' ≡ d = omega arith in
    let other : (b'0' + d == b' ') ≡ false = ground arith in
    rw (other, digit) (numbers-print_digits (10 * n + d) ds rest h.1)

numeral_read :
    (d : ℕ) (ds : List ℕ) (rest : Text)
    → IsNumeral (d ∷ ds)
    → numbers none (print_digits (d ∷ ds) ++ rest) ≡ numbers (some (value_from 0 (d ∷ ds))) rest
unfolding numbers
numeral_read d ds rest h =
    let digit : 0 + (b'0' + d - b'0') ≡ 0 + d = omega arith in
    let other : (b'0' + d == b' ') ≡ false = ground arith in
    rw (other, digit) (numbers-print_digits (0 + d) ds rest h.0.1)

numbers-print_numbers :
    (nums : List (List ℕ)) → All IsNumeral nums → numbers none (print_numbers nums) ≡ values nums
unfolding numbers
numbers-print_numbers [] h = refl
numbers-print_numbers ([] ∷ more) h = absurd h.0
numbers-print_numbers ((d ∷ ds) ∷ []) h =
    ap (numbers none) (sym (append_nil (print_digits (d ∷ ds))))
    ∙ numeral_read d ds [] h.0
    ∙ rw (lt→ltb _ _ h.0.1) refl
numbers-print_numbers ((d ∷ ds) ∷ es ∷ more) h =
    numeral_read d ds (b' ' ∷ print_numbers (es ∷ more)) h.0
    ∙ rw (lt→ltb _ _ h.0.1)
        (ap (◌∷◌ (value_from 0 (d ∷ ds))) (numbers-print_numbers (es ∷ more) h.1))

-- A text of digits and spaces.
abbrev IsListed : ℕ → Type 0
IsListed c = (is_digit c || c == b' ') ≡ true

group_lem : (s rest : Text) → All IsListed s → group (s ++ b']' ∷ rest) ≡ some s
unfolding group
group_lem [] rest h = refl
group_lem (c ∷ s) rest h =
    let inner : (c == b']') ≡ false = ground arith in rw (inner, group_lem s rest h.1, h.0) refl

print_digits-IsListed : (ds : List ℕ) → All IsDigit ds → All IsListed (print_digits ds)
print_digits-IsListed [] h = tt
print_digits-IsListed (d ∷ ds) h = (ground (arith, h.0), print_digits-IsListed ds h.1)

append-IsListed : (s t : Text) → All IsListed s → All IsListed t → All IsListed (s ++ t)
append-IsListed [] t h k = k
append-IsListed (c ∷ s) t h k = (h.0, append-IsListed s t h.1 k)

print_numbers-IsListed :
    (nums : List (List ℕ)) → All IsNumeral nums → All IsListed (print_numbers nums)
print_numbers-IsListed [] h = tt
print_numbers-IsListed ([] ∷ more) h = absurd h.0
print_numbers-IsListed ((d ∷ ds) ∷ []) h = print_digits-IsListed (d ∷ ds) h.0.0
print_numbers-IsListed ((d ∷ ds) ∷ es ∷ more) h =
    append-IsListed (print_digits (d ∷ ds)) (b' ' ∷ print_numbers (es ∷ more))
      (print_digits-IsListed (d ∷ ds) h.0.0) (refl, print_numbers-IsListed (es ∷ more) h.1)

-- Text without an `m` has no match.
find_group-append :
    (before s : Text) → All (λ c. c ≢ b'm') before → find_group (before ++ s) ≡ find_group s
unfolding find_group strip
find_group-append [] s h = refl
find_group-append (c ∷ before) s h =
    let other : (b'm' == c) ≡ false = ground (arith, h.0) in
    rw other (find_group-append before s h.1)

-- A message that lists numbers after `missing segments [`, as `%v` prints a slice, is read as those
-- numbers, in order; each is below 2 ^ 63, and the text before has no letter m.
pub parse_missing_segments-print_numbers :
    (before after : Text) (nums : List (List ℕ))
    → All (λ c. c ≢ b'm') before
    → All IsNumeral nums
    → parse_missing_segments
        (before ++ (codes "missing segments [" ++ (print_numbers nums ++ b']' ∷ after)))
      ≡ values nums
unfolding parse_missing_segments find_group strip
parse_missing_segments-print_numbers before after nums h n =
    let rest : Text = codes "missing segments [" ++ (print_numbers nums ++ b']' ∷ after) in
    let group_found : find_group rest ≡ some (print_numbers nums) =
      rw (group_lem (print_numbers nums) after (print_numbers-IsListed nums n)) refl in
    ap numbers_of (find_group-append before rest h ∙ group_found) ∙ numbers-print_numbers nums n
