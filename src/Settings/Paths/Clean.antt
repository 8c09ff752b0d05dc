-- ===== src/Settings/Paths/Clean.antt =====
-- What `clean_cloud_path` returns.
use mathlib.Core.List.{reverse-cons, append-nil, append_assoc}
use tdrive_aliyunpan.Base.{
  ◌≡◌, refl, sym, ap, ◌∙◌, ◌≢◌, ◌⊎◌, inl, inr, List, [], ◌∷◌, ◌++◌, reverse, arith, Text, All,
  codes, text_eq_iff,
}
use tdrive_aliyunpan.Settings.Paths.{
  trim_space, split_slash, join_slash, tail_of, clean_step, clean_parts, clean_trimmed,
  clean_cloud_path,
}
use tdrive_aliyunpan.Settings.Paths.Split.{IsPart, split_slash-parts, split_slash-join_slash}

-- A directory or file name in a clean path.
abbrev pub IsName : Text → Type 0
IsName part = IsPart part × (part ≢ []) × (part ≢ codes ".") × (part ≢ codes "..")

tail_of-names : (cleaned : List Text) → All IsName cleaned → All IsName (tail_of cleaned)
tail_of-names [] h = tt
tail_of-names (part ∷ cleaned) h = h.1

clean_step-names :
    (cleaned : List Text) (part : Text)
    → All IsName cleaned
    → IsPart part
    → All IsName (clean_step cleaned part)
unfolding clean_step
clean_step-names cleaned part h p =
    ground
      (arith, text_eq_iff part (codes "."), text_eq_iff part (codes ".."), tail_of-names cleaned h)

-- A name is kept.
pub clean_step_name :
    (cleaned : List Text) (part : Text) → IsName part → clean_step cleaned part ≡ part ∷ cleaned
unfolding clean_step
clean_step_name cleaned part h =
    ground (arith, text_eq_iff part (codes "."), text_eq_iff part (codes ".."))

pub All-append {ℓ κ} :
    {A : Type ℓ} (P : A → Type κ) (xs ys : List A) → All P xs → All P ys → All P (xs ++ ys)
All-append P [] ys hx hy = hy
All-append P (x ∷ xs) ys hx hy = (hx.0, All-append P xs ys hx.1 hy)

All-reverse {ℓ κ} : {A : Type ℓ} (P : A → Type κ) (xs : List A) → All P xs → All P (reverse xs)
All-reverse P [] h = tt
All-reverse P (x ∷ xs) h =
    rw (reverse-cons x xs) (All-append P (reverse xs) (x ∷ []) (All-reverse P xs h.1) (h.0, tt))

pub clean_parts-names :
    (cleaned parts : List Text)
    → All IsName cleaned
    → All IsPart parts
    → All IsName (clean_parts cleaned parts)
unfolding clean_parts
clean_parts-names cleaned [] h p = All-reverse IsName cleaned h
clean_parts-names cleaned (part ∷ parts) h p =
    clean_parts-names (clean_step cleaned part) parts (clean_step-names cleaned part h p.0) p.1

pub clean_parts_of_names :
    (cleaned parts : List Text)
    → All IsName parts
    → clean_parts cleaned parts ≡ reverse cleaned ++ parts
unfolding clean_parts
clean_parts_of_names cleaned [] h = sym (append-nil (reverse cleaned))
clean_parts_of_names cleaned (part ∷ parts) h = rw (clean_step_name cleaned part h.0) (
    clean_parts_of_names (part ∷ cleaned) parts h.1
    ∙ (rw (reverse-cons part cleaned) (append_assoc (reverse cleaned) (part ∷ []) parts)))

-- A cleaned path is empty exactly if the text is blank; else it is a slash and names joined by
-- slashes: no empty part, no `.`, no `..` and no trailing slash.
pub clean_cloud_path-names :
    (path : Text)
    → ((clean_cloud_path path ≡ []) × (trim_space path ≡ []))
      ⊎ ((names : List Text) × All IsName names
          × (clean_cloud_path path ≡ b'/' ∷ join_slash names)
          × (trim_space path ≢ []))
unfolding clean_cloud_path
clean_cloud_path-names path = shape (trim_space path)
  where
    shape :
        (t : Text)
        → ((clean_trimmed t ≡ []) × (t ≡ []))
          ⊎ ((names : List Text) × All IsName names
              × (clean_trimmed t ≡ b'/' ∷ join_slash names)
              × (t ≢ []))
    shape [] = inl (refl, refl)
    shape (c ∷ s) = inr (
      clean_parts [] (split_slash (c ∷ s)),
      clean_parts-names [] (split_slash (c ∷ s)) tt (split_slash-parts (c ∷ s)),
      refl,
      λ e. cc,
    )

pub names-parts : (names : List Text) → All IsName names → All IsPart names
names-parts [] h = tt
names-parts (n ∷ ns) h = (h.0.0, names-parts ns h.1)

pub clean_trimmed_of_names :
    (names : List Text)
    → All IsName names
    → clean_trimmed (b'/' ∷ join_slash names) ≡ b'/' ∷ join_slash names
unfolding split_slash join_slash clean_parts clean_step
clean_trimmed_of_names [] h = refl
clean_trimmed_of_names (n ∷ ns) h =
    rw (split_slash-join_slash n ns (names-parts (n ∷ ns) h), clean_parts_of_names [] (n ∷ ns) h)

clean_trimmed_fixed : (path : Text) → clean_trimmed (clean_cloud_path path) ≡ clean_cloud_path path
clean_trimmed_fixed path = elim (clean_cloud_path-names path) [
  | inl (e, _) ↦ rw e
  | inr (names, h, e, _) ↦ rw e (clean_trimmed_of_names names h)
]

-- Cleaning again changes nothing but trailing blanks: a clean path that does not end in one is fixed.
pub clean_cloud_path_fixed :
    (path : Text)
    → trim_space (clean_cloud_path path) ≡ clean_cloud_path path
    → clean_cloud_path (clean_cloud_path path) ≡ clean_cloud_path path
clean_cloud_path_fixed path h =
    unfold clean_cloud_path in (ap clean_trimmed h ∙ clean_trimmed_fixed path)
