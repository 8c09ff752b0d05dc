-- ===== src/Settings/Paths.antt =====
-- Path texts: `CleanCloudPath` and `checkPathText` of internal/settings/settings.go, with the calls
-- of Go's `strings` package that they make.
pub mod Split
pub mod Clean
pub mod Unstable
use tdrive_aliyunpan.Base.{
  ℕ, Bool, true, false, ◌&&◌, ◌||◌, not, List, [], ◌∷◌, ◌++◌, reverse, Text, codes, is_empty,
  text_eq, leb, ◌==◌, any, if◌then◌else◌,
}

-- `unicode.IsSpace`.
abbrev pub is_space : ℕ → Bool
is_space c =
    (leb 9 c && leb c 13)
    || (c == 32
        || (c == 0x85
            || (c == 0xA0
                || (c == 0x1680
                    || ((leb 0x2000 c && leb c 0x200a)
                        || (c == 0x2028
                            || (c == 0x2029 || (c == 0x202f || (c == 0x205f || c == 0x3000)))))))))

unfoldable pub trim_left : Text → Text
trim_left [] = []
trim_left (c ∷ s) = if is_space c then trim_left s else c ∷ s

-- Trailing spaces go with the part that is nothing else.
unfoldable pub trim_right : Text → Text
trim_right [] = []
trim_right (c ∷ s) = let rest = trim_right s in if is_space c && is_empty rest then [] else c ∷ rest

-- `strings.TrimSpace`.
unfoldable pub trim_space : Text → Text
unfolding trim_left trim_right
trim_space s = trim_right (trim_left s)

abbrev cons_head : ℕ → List Text → List Text
cons_head c [] = (c ∷ []) ∷ []
cons_head c (part ∷ parts) = (c ∷ part) ∷ parts

-- `strings.Split(s, "/")`.
unfoldable pub split_slash : Text → List Text
split_slash [] = [] ∷ []
split_slash (c ∷ s) =
    let parts = split_slash s in if c == b'/' then [] ∷ parts else cons_head c parts

-- `strings.Join(parts, "/")`.
unfoldable pub join_slash : List Text → Text
join_slash [] = []
join_slash (part ∷ []) = part
join_slash (part ∷ next ∷ parts) = part ++ b'/' ∷ join_slash (next ∷ parts)

abbrev tail_of : List Text → List Text
tail_of [] = []
tail_of (part ∷ parts) = parts

-- What one part does to the cleaned parts, which are kept with the last one first.
unfoldable pub clean_step : List Text → Text → List Text
clean_step cleaned part =
    if is_empty part || text_eq part (codes ".")
    then cleaned
    else if text_eq part (codes "..")
    then tail_of cleaned
    else part ∷ cleaned

unfoldable pub clean_parts : List Text → List Text → List Text
clean_parts cleaned [] = reverse cleaned
clean_parts cleaned (part ∷ parts) = clean_parts (clean_step cleaned part) parts

abbrev clean_trimmed : Text → Text
clean_trimmed [] = []
clean_trimmed (c ∷ s) = b'/' ∷ join_slash (clean_parts [] (split_slash (c ∷ s)))

unfoldable pub clean_cloud_path : Text → Text
unfolding trim_space split_slash join_slash clean_step clean_parts
clean_cloud_path path = clean_trimmed (trim_space path)

-- `checkPathText`: whether the text is accepted.
unfoldable pub check_path_text : Text → Bool
check_path_text value = not (any (λ c. c == 0 || (c == 13 || c == 10)) value)
