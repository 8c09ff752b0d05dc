-- ===== src/Download/Path/Below.antt =====
-- Where a staged file is: what `cleanDownloadPath` accepts and where `StagedPath` puts it
-- (internal/aliyunpan/source_download.go).
use mathlib.Core.List.{append-nil, append_assoc}
use tdrive_aliyunpan.Base.{
  ◌≡◌, ◌≢◌, refl, sym, ap, ◌∙◌, Bool, false, List, [], ◌∷◌, ◌++◌, Text, codes, All, ◌==◌,
  Bool-cases, inl, inr, is_empty, text_eq, text_eq_iff, contains, any, ok, err, arith,
  if◌then◌else◌,
}
use tdrive_aliyunpan.Settings.Paths.{trim_space, split_slash, join_slash, clean_step, clean_parts}
use tdrive_aliyunpan.Settings.Paths.Split.{
  split_slash-parts, split_slash-append, split_slash-join_slash,
}
use tdrive_aliyunpan.Settings.Paths.Clean.{
  IsName, clean_parts-names, clean_parts_of_names, names-parts, All-append,
}
use tdrive_aliyunpan.Download.Path.{
  PathFault, clean_names, rooted, unsafe_windows_name, is_unsafe_part, checked_parts,
  clean_download_path, join_path, staged_path,
}

clean_names-IsName : (s : Text) → All IsName (clean_names s)
unfolding clean_names
clean_names-IsName s = clean_parts-names [] (split_slash s) tt (split_slash-parts s)

-- Empty parts are skipped.
clean_parts-empty : (parts : List Text) → clean_parts [] ([] ∷ parts) ≡ clean_parts [] parts
unfolding clean_parts clean_step
clean_parts-empty parts = refl

split_join :
    (names : List Text) → All IsName names → clean_parts [] (split_slash (join_slash names)) ≡ names
split_join [] h = unfold clean_parts clean_step split_slash join_slash in refl
split_join (n ∷ ns) h =
    rw (split_slash-join_slash n ns (names-parts (n ∷ ns) h)) (clean_parts_of_names [] (n ∷ ns) h)

split_append :
    (d : Text) (ds : List Text) (s : Text)
    → All IsName (d ∷ ds)
    → split_slash (join_slash (d ∷ ds) ++ b'/' ∷ s) ≡ (d ∷ ds) ++ split_slash s
unfolding join_slash
split_append d [] s h = split_slash-append d s h.0.0
split_append d (e ∷ ds) s h =
    ap split_slash (append_assoc d (b'/' ∷ join_slash (e ∷ ds)) (b'/' ∷ s))
    ∙ split_slash-append d (join_slash (e ∷ ds) ++ b'/' ∷ s) h.0.0
    ∙ ap (◌∷◌ d) (split_append e ds s h.1)

split_slash-slash : (s : Text) → split_slash (b'/' ∷ s) ≡ [] ∷ split_slash s
unfolding split_slash
split_slash-slash s = refl

-- A rooted path's names are its own.
clean_names-rooted : (names : List Text) → All IsName names → clean_names (rooted names) ≡ names
unfolding clean_names
clean_names-rooted names h =
    rw (split_slash-slash (join_slash names), clean_parts-empty (split_slash (join_slash names)))
      (split_join names h)

clean_names-joined :
    (dir : List Text) (n : Text) (names : List Text)
    → All IsName dir
    → All IsName (n ∷ names)
    → clean_names (rooted dir ++ b'/' ∷ join_slash (n ∷ names)) ≡ dir ++ n ∷ names
unfolding clean_names
clean_names-joined [] n names h k =
    unfold join_slash in
    rw
      (
        split_slash-slash (b'/' ∷ join_slash (n ∷ names)),
        clean_parts-empty (split_slash (b'/' ∷ join_slash (n ∷ names))),
      )
      (clean_names-rooted (n ∷ names) k)
clean_names-joined (d ∷ dir) n names h k =
    rw
      (
        split_slash-slash (join_slash (d ∷ dir) ++ b'/' ∷ join_slash (n ∷ names)),
        clean_parts-empty (split_slash (join_slash (d ∷ dir) ++ b'/' ∷ join_slash (n ∷ names))),
        split_append d dir (join_slash (n ∷ names)) h,
        split_slash-join_slash n names (names-parts (n ∷ names) k),
      )
      (clean_parts_of_names [] (d ∷ dir ++ n ∷ names) (All-append IsName (d ∷ dir) (n ∷ names) h k))

is_empty-join : (n : Text) (names : List Text) → n ≢ [] → is_empty (join_slash (n ∷ names)) ≡ false
unfolding join_slash
is_empty-join [] names h = absurd (h refl)
is_empty-join (c ∷ n) [] h = refl
is_empty-join (c ∷ n) (m ∷ names) h = refl

join_path-names :
    (dir names : List Text)
    → All IsName dir
    → All IsName names
    → join_path (rooted dir) (join_slash names) ≡ rooted (dir ++ names)
unfolding join_path
join_path-names dir [] h k =
    unfold join_slash in (ap rooted (clean_names-rooted dir h ∙ sym (append-nil dir)))
join_path-names dir (n ∷ names) h k =
    rw (is_empty-join n names k.0.1) (ap rooted (clean_names-joined dir n names h k))

-- A staged path is its directory's with the cleaned names of the cloud path.
pub staged_path-names :
    (dir : List Text) (cloud_path : Text)
    → All IsName dir
    → staged_path (rooted dir) cloud_path ≡ rooted (dir ++ clean_names (trim_space cloud_path))
unfolding staged_path
staged_path-names dir cloud_path h =
    join_path-names dir (clean_names (trim_space cloud_path)) h
      (clean_names-IsName (trim_space cloud_path))

any-false : (p : Text → Bool) (xs : List Text) → any p xs ≡ false → All (λ x. p x ≡ false) xs
any-false p [] h = tt
any-false p (x ∷ xs) h = (ground (arith, h), any-false p xs (ground (arith, h)))

nonempty : (s : Text) → s ≢ [] → is_empty s ≡ false
nonempty [] h = absurd (h refl)
nonempty (c ∷ s) h = refl

text_eq-nil : (s : Text) → text_eq s [] ≡ is_empty s
text_eq-nil [] = refl
text_eq-nil (c ∷ s) = refl

unsafe_part :
    (to_upper : Text → Text) (n : Text)
    → IsName n
    → is_unsafe_part to_upper n ≡ unsafe_windows_name to_upper n
unsafe_part to_upper n h =
    ground (arith, nonempty n h.1, text_eq_iff n (codes "."), text_eq_iff n (codes ".."))

unsafe_parts :
    (to_upper : Text → Text) (names : List Text)
    → All IsName names
    → any (is_unsafe_part to_upper) names ≡ any (unsafe_windows_name to_upper) names
unsafe_parts to_upper [] h = refl
unsafe_parts to_upper (n ∷ names) h =
    rw (unsafe_part to_upper n h.0, unsafe_parts to_upper names h.1) refl

no_parent : (names : List Text) → All IsName names → contains names (codes "..") ≡ false
no_parent [] h = refl
no_parent (n ∷ names) h = ground (arith, text_eq_iff n (codes ".."), no_parent names h.1)

checked_names :
    (to_upper : Text → Text) (n : Text) (names : List Text)
    → All IsName (n ∷ names)
    → checked_parts to_upper (rooted (n ∷ names)) ≡ (
        if any (unsafe_windows_name to_upper) (n ∷ names)
        then err PathFault.unsafe_part
        else ok (rooted (n ∷ names)))
checked_names to_upper n names h =
    rw
      (
        clean_names-rooted (n ∷ names) h,
        split_slash-join_slash n names (names-parts (n ∷ names) h),
        no_parent (n ∷ names) h,
        unsafe_parts to_upper (n ∷ names) h,
        text_eq-nil (join_slash (n ∷ names)),
        is_empty-join n names h.0.1,
      )
      refl

accepted_parts :
    (to_upper : Text → Text) (raw p : Text) (names : List Text)
    → clean_names raw ≡ names
    → All IsName names
    → checked_parts to_upper raw ≡ ok p
    → (p ≡ rooted names) × (names ≢ []) × All (λ n. unsafe_windows_name to_upper n ≡ false) names
accepted_parts to_upper raw p [] e h k = absurd (not_ok (unfold join_slash in rw e at k))
  where
    not_ok : err PathFault.drive_root ≡ ok p → ⊥
    not_ok q = cc
accepted_parts to_upper raw p (n ∷ names) e h k =
    let tests =
      rw
        (
          e,
          split_slash-join_slash n names (names-parts (n ∷ names) h),
          unsafe_parts to_upper (n ∷ names) h,
        )
        at k in
    (
      ground (arith, tests),
      (λ q. cc),
      any-false (unsafe_windows_name to_upper) (n ∷ names) (ground (arith, tests)),
    )

accepted_text :
    (to_upper : Text → Text) (raw p : Text)
    → clean_download_path to_upper raw ≡ ok p
    → checked_parts to_upper (trim_space raw) ≡ ok p
unfolding clean_download_path
accepted_text to_upper raw p h = elim (Bool-cases (is_empty (trim_space raw))) [
  | inl e ↦ absurd (not_ok PathFault.empty_path (rw e at h))
  | inr e ↦ elim (Bool-cases (any (λ c. c == 0) (trim_space raw))) [
    | inl f ↦ absurd (not_ok PathFault.nul_character (rw (e, f) at h))
    | inr f ↦ rw (e, f) at h
  ]
]
  where
    not_ok : (fault : PathFault) → err fault ≡ ok p → ⊥
    not_ok fault q = cc

-- An accepted download path is a slash and names joined by slashes, at least one; none is empty, `.`, `..`
-- or unsafe. Its staged path lies at or below the staging directory, never outside: it continues the
-- directory's names by clean ones, which are the path's own, so at least one, if the path does not end in
-- a blank.
pub staged_path-IsBelow :
    (to_upper : Text → Text) (dir : List Text) (raw p : Text)
    → All IsName dir
    → clean_download_path to_upper raw ≡ ok p
    → (names : List Text) × (p ≡ rooted names)
      × (names ≢ [])
      × All IsName names
      × All (λ n. unsafe_windows_name to_upper n ≡ false) names
      × ((below : List Text) × All IsName below
          × (staged_path (rooted dir) p ≡ rooted (dir ++ below))
          × (trim_space p ≡ p → below ≡ names))
staged_path-IsBelow to_upper dir raw p h k =
    let names = clean_names (trim_space raw) in
    let clean = clean_names-IsName (trim_space raw) in
    let accepted =
      accepted_parts to_upper (trim_space raw) p names refl clean
        (accepted_text to_upper raw p k) in
    (
      names,
      accepted.0,
      accepted.1,
      clean,
      accepted.2,
      (
        clean_names (trim_space p),
        clean_names-IsName (trim_space p),
        staged_path-names dir p h,
        λ e. ap clean_names (e ∙ accepted.0) ∙ clean_names-rooted names clean,
      ),
    )

-- A path of proper names, without a NUL and without a blank at its end, is refused exactly if one of its
-- names, a directory's or the file's, is unsafe, and is otherwise accepted as it stands.
pub clean_download_path-rooted :
    (to_upper : Text → Text) (n : Text) (names : List Text)
    → All IsName (n ∷ names)
    → any (λ c. c == 0) (rooted (n ∷ names)) ≡ false
    → trim_space (rooted (n ∷ names)) ≡ rooted (n ∷ names)
    → clean_download_path to_upper (rooted (n ∷ names)) ≡ (
        if any (unsafe_windows_name to_upper) (n ∷ names)
        then err PathFault.unsafe_part
        else ok (rooted (n ∷ names)))
unfolding clean_download_path
clean_download_path-rooted to_upper n names h k t = rw (t, k) (checked_names to_upper n names h)
