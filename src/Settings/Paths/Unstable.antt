-- ===== src/Settings/Paths/Unstable.antt =====
-- `clean_cloud_path` trims the whole path before it drops a trailing slash, so a name that ends in a
-- blank survives one cleaning and loses the blank in the next.
use mathlib.Core.List.{append_assoc}
use tdrive_aliyunpan.Base.{ℕ, ◌≡◌, refl, sym, ◌≢◌, [], ◌∷◌, ◌++◌, arith, Text, codes}
use tdrive_aliyunpan.Settings.Paths.{trim_left, trim_right, trim_space, clean_cloud_path}
use tdrive_aliyunpan.Settings.Paths.Split.{IsPart, split_slash-append}
use tdrive_aliyunpan.Settings.Paths.Clean.{IsName, clean_step_name, clean_trimmed_of_names}

trim_right-slash : (s : Text) → trim_right (s ++ b'/' ∷ []) ≡ s ++ b'/' ∷ []
unfolding trim_right
trim_right-slash [] = refl
trim_right-slash (c ∷ []) = ground arith
trim_right-slash (c ∷ d ∷ s) = ground (arith, trim_right-slash (d ∷ s))

trim_right-blank : (s : Text) → trim_right (s ++ 32 ∷ []) ≡ trim_right s
unfolding trim_right
trim_right-blank [] = refl
trim_right-blank (c ∷ s) = ground (arith, trim_right-blank s)

blank-IsPart : (n : Text) → IsPart n → IsPart (n ++ 32 ∷ [])
blank-IsPart [] h = (omega arith, tt)
blank-IsPart (c ∷ n) h = (h.0, blank-IsPart n h.1)

blank-IsName : (n : Text) → IsName n → IsName (n ++ 32 ∷ [])
blank-IsName [] h = absurd (h.1 refl)
blank-IsName (c ∷ []) h = (blank-IsPart (c ∷ []) h.0, (λ e. cc), (λ e. cc), (λ e. ground arith))
blank-IsName (c ∷ d ∷ n) h =
    (blank-IsPart (c ∷ d ∷ n) h.0, (λ e. cc), (λ e. cc), (λ e. ends d n (ground arith)))
  where
    ends : (d : ℕ) (n : Text) → d ∷ n ++ 32 ∷ [] ≢ b'.' ∷ []
    ends d [] e = cc
    ends d (x ∷ n) e = cc

-- The directory `/<name> /`, for a name that does not itself end in a blank, is cleaned to
-- `/<name> ` with the blank, and that to `/<name>`, which is another directory.
pub clean_cloud_path_unstable :
    (n : Text)
    → IsName n
    → trim_right n ≡ n
    → (clean_cloud_path (b'/' ∷ n ++ codes " /") ≡ b'/' ∷ n ++ codes " ")
      × (clean_cloud_path (b'/' ∷ n ++ codes " ") ≡ b'/' ∷ n)
unfolding clean_cloud_path trim_space trim_left trim_right
clean_cloud_path_unstable n h e = (
  rw (
    sym (append_assoc n (32 ∷ []) (b'/' ∷ [])),
    trim_right-slash (n ++ 32 ∷ []),
    split_slash-append (n ++ 32 ∷ []) [] (blank-IsPart n h.0),
    clean_step_name [] (n ++ 32 ∷ []) (blank-IsName n h),
  ),
  rw (trim_right-blank n, e) (clean_trimmed_of_names (n ∷ []) (h, tt)),
)
