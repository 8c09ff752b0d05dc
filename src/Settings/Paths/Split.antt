-- ===== src/Settings/Paths/Split.antt =====
-- Splitting and joining at slashes.
use tdrive_aliyunpan.Base.{ℕ, ◌≡◌, refl, ap, ◌∙◌, ◌≢◌, List, [], ◌∷◌, ◌++◌, arith, Text, All}
use tdrive_aliyunpan.Settings.Paths.{cons_head, split_slash, join_slash}

-- A part holds no slash.
abbrev pub IsPart : Text → Type 0
IsPart part = All (λ c. c ≢ b'/') part

cons_head-parts : (c : ℕ) (ps : List Text) → c ≢ b'/' → All IsPart ps → All IsPart (cons_head c ps)
cons_head-parts c [] h a = ((h, tt), tt)
cons_head-parts c (p ∷ ps) h a = ((h, a.0), a.1)

-- No part that a text is split into holds a slash.
pub split_slash-parts : (s : Text) → All IsPart (split_slash s)
unfolding split_slash
split_slash-parts [] = (tt, tt)
split_slash-parts (c ∷ s) = ground (arith, cons_head-parts c (split_slash s), split_slash-parts s)

split_slash-part : (p : Text) → IsPart p → split_slash p ≡ p ∷ []
unfolding split_slash
split_slash-part [] h = refl
split_slash-part (c ∷ p) h = ground (arith, split_slash-part p h.1)

pub split_slash-append : (p s : Text) → IsPart p → split_slash (p ++ b'/' ∷ s) ≡ p ∷ split_slash s
unfolding split_slash
split_slash-append [] s h = refl
split_slash-append (c ∷ p) s h = ground (arith, split_slash-append p s h.1)

-- Splitting gives back any parts that were joined, if there is one and none holds a slash.
pub split_slash-join_slash :
    (p : Text) (ps : List Text) → All IsPart (p ∷ ps) → split_slash (join_slash (p ∷ ps)) ≡ p ∷ ps
unfolding join_slash
split_slash-join_slash p [] h = split_slash-part p h.0
split_slash-join_slash p (q ∷ ps) h =
    split_slash-append p (join_slash (q ∷ ps)) h.0 ∙ ap (◌∷◌ p) (split_slash-join_slash q ps h.1)
