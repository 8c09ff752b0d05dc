-- ===== src/Base/Decimals.antt =====
-- Decimal numbers in texts: `strconv.ParseInt` at base 10 and 64 bits, and printed digits.
use Prim.Native.Nat.{ℕ, ◌+◌, ◌-◌, ◌*◌, ◌^◌, ◌<◌}
use mathlib.Core.Path.{◌≡◌, refl, sym, ap, ◌∙◌}
use mathlib.Core.Bool.{Bool, true, false, ◌&&◌}
use mathlib.Core.Option.{Option, none, some}
use mathlib.Core.List.{List, [], ◌∷◌, ◌++◌}
use native.Mathlib.Omega.{arith}
use tdrive_aliyunpan.Base.Tests.{ltb, leb, ◌==◌, lt→ltb, if◌then◌else◌}
use tdrive_aliyunpan.Base.Lists.{All}
use tdrive_aliyunpan.Base.Int.{ℤ, pos, ◌-ℤ◌}
use tdrive_aliyunpan.Base.Texts.{Text}

abbrev pub is_digit : ℕ → Bool
is_digit c = leb b'0' c && leb c b'9'

-- A number as it is printed: digits, the highest first.
abbrev pub IsDigit : ℕ → Type 0
IsDigit d = d < 10

abbrev pub print_digits : List ℕ → Text
print_digits [] = []
print_digits (d ∷ ds) = (b'0' + d) ∷ print_digits ds

abbrev pub value_from : ℕ → List ℕ → ℕ
value_from n [] = n
value_from n (d ∷ ds) = value_from (10 * n + d) ds

-- The printed number has a digit and is an int.
abbrev pub IsNumeral : List ℕ → Type 0
IsNumeral [] = ⊥
IsNumeral (d ∷ ds) = All IsDigit (d ∷ ds) × (value_from 0 (d ∷ ds) < 2 ^ 63)

abbrev pub and_then {ℓ κ} : {A : Type ℓ} {B : Type κ} → Option A → (A → Option B) → Option B
and_then none f = none
and_then (some a) f = f a

-- The digits at a text's start, as the number that they continue, and the rest.
unfoldable pub scan_digits : ℕ → Text → ℕ × Text
scan_digits n [] = (n, [])
scan_digits n (c ∷ s) = if is_digit c then scan_digits (10 * n + (c - b'0')) s else (n, c ∷ s)

-- An int64 from its sign and its size.
abbrev pub signed : Bool → ℕ → Option ℤ
signed true n = if leb n (2 ^ 63) then some (pos 0 -ℤ pos n) else none
signed false n = if ltb n (2 ^ 63) then some (pos n) else none

abbrev whole : Bool → ℕ × Text → Option ℤ
whole negative (n, []) = signed negative n
whole negative (n, c ∷ s) = none

abbrev starts_with_digit : Text → Bool
starts_with_digit [] = false
starts_with_digit (c ∷ s) = is_digit c

abbrev unsigned : Bool → Text → Option ℤ
unsigned negative s = if starts_with_digit s then whole negative (scan_digits 0 s) else none

-- `strconv.ParseInt(s, 10, 64)`
unfoldable pub parse_int : Text → Option ℤ
unfolding scan_digits
parse_int [] = none
parse_int (c ∷ s) =
    if c == b'-'
    then unsigned true s
    else if c == b'+'
    then unsigned false s
    else unsigned false (c ∷ s)

-- What may follow digits.
abbrev pub EndsDigits : Text → Type 0
EndsDigits [] = Unit
EndsDigits (c ∷ s) = is_digit c ≡ false

pub scan_digits-print_digits :
    (n : ℕ) (ds : List ℕ) (rest : Text)
    → All IsDigit ds
    → EndsDigits rest
    → scan_digits n (print_digits ds ++ rest) ≡ (value_from n ds, rest)
unfolding scan_digits
scan_digits-print_digits n [] [] h k = refl
scan_digits-print_digits n [] (c ∷ rest) h k = rw k refl
scan_digits-print_digits n (d ∷ ds) rest h k =
    let digit : is_digit (b'0' + d) ≡ true = ground (arith, h.0) in
    let value : (b'0' + d) - b'0' ≡ d = omega arith in
    rw (digit, value) (scan_digits-print_digits (10 * n + d) ds rest h.1 k)

pub append_nil : (t : Text) → t ++ [] ≡ t
append_nil [] = refl
append_nil (c ∷ t) = rw (append_nil t) refl

-- A printed number is read back.
pub parse_int-print_digits :
    (d : ℕ) (ds : List ℕ)
    → IsNumeral (d ∷ ds)
    → parse_int (print_digits (d ∷ ds)) ≡ some (pos (value_from 0 (d ∷ ds)))
unfolding parse_int
parse_int-print_digits d ds h =
    let digit : is_digit (b'0' + d) ≡ true = ground (arith, h.0.0) in
    let no_minus : (b'0' + d == b'-') ≡ false = ground arith in
    let no_plus : (b'0' + d == b'+') ≡ false = ground arith in
    let value : 0 + ((b'0' + d) - b'0') ≡ 0 + d = omega arith in
    let scanned : scan_digits (0 + d) (print_digits ds) ≡ (value_from (0 + d) ds, []) =
      ap (scan_digits (0 + d)) (sym (append_nil (print_digits ds)))
      ∙ scan_digits-print_digits (0 + d) ds [] h.0.1 tt in
    rw (no_minus, no_plus, digit, value, scanned, lt→ltb _ _ h.1) refl
