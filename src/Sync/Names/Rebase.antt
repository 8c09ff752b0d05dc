-- ===== src/Sync/Names/Rebase.antt =====
-- Where a cloud directory arrives in tdrive.
use tdrive_aliyunpan.Base.{
  ℕ, ◌≡◌, refl, true, false, [], ◌∷◌, ◌++◌, Text, codes, text_eq, text_eq_iff, text_eq_refl,
  is_empty, has_prefix, arith, Bool-cases, inl, inr, if◌then◌else◌, ◌==◌,
}
use tdrive_aliyunpan.Sync.Names.{drop_slashes, drop_last_slashes, drop_prefix, under_root, map_path}

-- The path of something below a directory.
abbrev pub child : Text → Text → Text
child dir name = if text_eq dir (codes "/") then b'/' ∷ name else dir ++ b'/' ∷ name

-- A path below a directory, with no slash at its ends.
pub record IsRelative (name : Text) : Type 0 where
  pub some_text : is_empty name ≡ false
  pub no_first : drop_slashes name ≡ name
  pub no_last : drop_last_slashes name ≡ name

has_prefix_append : (r s : Text) → has_prefix (r ++ b'/' ∷ []) (r ++ b'/' ∷ s) ≡ true
has_prefix_append [] s = ground arith
has_prefix_append (c ∷ r) s = ground (arith, has_prefix_append r s)

drop_prefix_append : (r s : Text) → drop_prefix r (r ++ s) ≡ s
unfolding drop_prefix
drop_prefix_append [] s = refl
drop_prefix_append (c ∷ r) s = drop_prefix_append r s

text_eq_longer : (r s : Text) → text_eq (r ++ b'/' ∷ s) r ≡ false
text_eq_longer [] s = refl
text_eq_longer (c ∷ r) s = ground (arith, text_eq_longer r s)

under_root-child :
    (target name : Text) → is_empty name ≡ false → under_root target name ≡ child target name
under_root-child target [] h = cc
under_root-child target (c ∷ s) h = refl

trimmed : (name : Text) → IsRelative name → drop_last_slashes (drop_slashes (b'/' ∷ name)) ≡ name
unfolding drop_slashes
trimmed name h = rw h.no_first h.no_last

below :
    (remote target name : Text)
    → IsRelative name
    → map_path remote target (remote ++ b'/' ∷ name) ≡ child target name
unfolding map_path
below remote target name h =
    rw
      (
        text_eq_longer remote name,
        has_prefix_append remote name,
        drop_prefix_append remote (b'/' ∷ name),
        trimmed name h,
      )
      (under_root-child target name h.some_text)

no_slash : (s t : Text) (c : ℕ) → drop_slashes s ≡ c ∷ t → (b'/' == c) ≡ false
unfolding drop_slashes
no_slash [] t c h = cc
no_slash (d ∷ s) t c h = elim (Bool-cases (d == b'/')) [
  | inl e ↦ no_slash s t c (ground arith)
  | inr e ↦ ground arith
]

below_top :
    (target name : Text)
    → IsRelative name
    → map_path (codes "/") target (b'/' ∷ name) ≡ child target name
unfolding map_path
below_top target [] h = unlike h.some_text
  where
    unlike : true ≡ false → map_path (codes "/") target (b'/' ∷ []) ≡ child target []
    unlike e = cc
below_top target (c ∷ s) h =
    rw (no_slash (c ∷ s) s c h.no_first, trimmed (c ∷ s) h)
      (under_root-child target (c ∷ s) h.some_text)

-- What lies below a job's cloud directory arrives below the job's target under the same path, and the
-- directory itself arrives as the target. The path below has no slash at its ends.
pub map_path-child :
    (remote target name : Text)
    → IsRelative name
    → (map_path remote target (child remote name) ≡ child target name)
      × (map_path remote target remote ≡ target)
map_path-child remote target name h = (
  elim (Bool-cases (text_eq remote (codes "/"))) [
    | inl e ↦ rw (e, (text_eq_iff remote (codes "/")).0 e) (below_top target name h)
    | inr e ↦ rw e (below remote target name h)
  ],
  root remote target,
)
  where
    root : (r t : Text) → map_path r t r ≡ t
    root r t = unfold map_path drop_slashes drop_last_slashes in rw (text_eq_refl r) refl
