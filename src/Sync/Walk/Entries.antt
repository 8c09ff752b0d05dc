-- ===== src/Sync/Walk/Entries.antt =====
-- What a listing has for a walk, said of its entries one by one (`walkCloudDir` of internal/sync/scan.go).
use tdrive_aliyunpan.Base.{
  ◌≡◌, refl, ap, ◌⊎◌, inl, inr, Bool, true, false, List, [], ◌∷◌, ◌++◌, ℤ, pos, ◌≤ℤ◌, ◌<ℤ◌, Text,
  arith, if_elim, if◌then◌else◌,
}
use tdrive_aliyunpan.Settings.{Job}
use tdrive_aliyunpan.Sync.Names.{map_path}
use tdrive_aliyunpan.Sync.Walk.{Node, CloudTree, Found, fits, is_wanted, dirs_of, files_of}

module _ {A : Type 0} where
  abbrev pub IsIn : A → List A → Type 0
  IsIn x [] = ⊥
  IsIn x (y ∷ ys) = (x ≡ y) ⊎ IsIn x ys

  pub IsIn-left : (x : A) (xs ys : List A) → IsIn x xs → IsIn x (xs ++ ys)
  IsIn-left x [] ys h = absurd h
  IsIn-left x (y ∷ xs) ys (inl e) = inl e
  IsIn-left x (y ∷ xs) ys (inr h) = inr (IsIn-left x xs ys h)

  pub IsIn-right : (x : A) (xs ys : List A) → IsIn x ys → IsIn x (xs ++ ys)
  IsIn-right x [] ys h = h
  IsIn-right x (y ∷ xs) ys h = inr (IsIn-right x xs ys h)

  pub IsIn-either : (x : A) (xs ys : List A) → IsIn x (xs ++ ys) → IsIn x xs ⊎ IsIn x ys
  IsIn-either x [] ys h = inr h
  IsIn-either x (y ∷ xs) ys (inl e) = inl (inl e)
  IsIn-either x (y ∷ xs) ys (inr h) = elim (IsIn-either x xs ys h) [
    | inl a ↦ inl (inr a)
    | inr b ↦ inr b
  ]

-- A directory that is listed, under a name that no pattern excludes.
abbrev pub IsDirectory : CloudTree → List Node → Text → Type 0
IsDirectory t nodes child =
    (n : Node) × IsIn n nodes
    × (n.is_dir ≡ true)
    × (t.matches_any n.entry.name ≡ false)
    × (child ≡ n.entry.path)

-- A size within the bounds of a job; zero means no bound.
abbrev pub IsWithinBounds : Job → ℤ → Type 0
IsWithinBounds job size =
    (pos 0 <ℤ job.min_size_bytes → job.min_size_bytes ≤ℤ size)
    × (pos 0 <ℤ job.max_size_bytes → size ≤ℤ job.max_size_bytes)

-- A file that is listed, under a name that no pattern excludes, and what is handed on of it.
abbrev pub IsFile : CloudTree → Job → Text → List Node → Found → Type 0
IsFile t job dir nodes f =
    (n : Node) × IsIn n nodes
    × (n.is_dir ≡ false)
    × (t.matches_any n.entry.name ≡ false)
    × IsWithinBounds job n.entry.size
    × (f.entry ≡ n.entry)
    × (f.cloud_dir ≡ dir)
    × (f.target_dir ≡ map_path job.remote_path job.target_path dir)

module _ (t : CloudTree) where
  pub dirs_of-IsDirectory :
      (child : Text) (nodes : List Node) → IsIn child (dirs_of t nodes) → IsDirectory t nodes child
  unfolding dirs_of
  dirs_of-IsDirectory child [] h = absurd h
  dirs_of-IsDirectory child (n ∷ nodes) h =
      listed (λ k. further (dirs_of-IsDirectory child nodes k)) (t.matches_any n.entry.name)
        n.is_dir refl refl h
    where
      further : IsDirectory t nodes child → IsDirectory t (n ∷ nodes) child
      further h = (h.0, inr h.1, h.2, h.3, h.4)

      listed :
          (IsIn child (dirs_of t nodes) → IsDirectory t (n ∷ nodes) child)
          → (m d : Bool) → t.matches_any n.entry.name ≡ m
          → n.is_dir ≡ d
          → IsIn child (
              if m
              then dirs_of t nodes
              else if d
              then n.entry.path ∷ dirs_of t nodes
              else dirs_of t nodes)
          → IsDirectory t (n ∷ nodes) child
      listed later true d a b k = later k
      listed later false true a b (inl e) = (n, inl refl, b, a, e)
      listed later false true a b (inr k) = later k
      listed later false false a b k = later k

  pub IsDirectory-dirs_of :
      (child : Text) (nodes : List Node) → IsDirectory t nodes child → IsIn child (dirs_of t nodes)
  unfolding dirs_of
  IsDirectory-dirs_of child [] (n, i, d, m, e) = absurd i
  IsDirectory-dirs_of child (x ∷ nodes) (n, inl s, d, m, e) = rw (← s, m, d) (inl e)
  IsDirectory-dirs_of child (x ∷ nodes) (n, inr i, d, m, e) =
      let rest = IsDirectory-dirs_of child nodes (n, i, d, m, e) in
      if_elim (IsIn child) (t.matches_any x.entry.name) (λ _. rest)
        (λ _. if_elim (IsIn child) x.is_dir (λ _. inr rest) (λ _. rest))

module _ (t : CloudTree) (job : Job) (dir : Text) where
  fits-bounds : (size : ℤ) → fits job size ≡ true → IsWithinBounds job size
  fits-bounds size h = (λ a. ground arith, λ a. ground arith)

  bounds-fits : (size : ℤ) → IsWithinBounds job size → fits job size ≡ true
  bounds-fits size h = ground (arith, h.0, h.1)

  pub files_of-IsFile :
      (f : Found) (nodes : List Node) → IsIn f (files_of t job dir nodes) → IsFile t job dir nodes f
  unfolding files_of
  files_of-IsFile f [] h = absurd h
  files_of-IsFile f (n ∷ nodes) h =
      listed (λ k. further (files_of-IsFile f nodes k)) (is_wanted t job n) refl h
    where
      further : IsFile t job dir nodes f → IsFile t job dir (n ∷ nodes) f
      further h = (h.0, inr h.1, h.2, h.3, h.4, h.5, h.6, h.7)

      listed :
          (IsIn f (files_of t job dir nodes) → IsFile t job dir (n ∷ nodes) f)
          → (b : Bool) → is_wanted t job n ≡ b
          → IsIn f (
              if b
              then record {
                entry = n.entry;
                cloud_dir = dir;
                target_dir = map_path job.remote_path job.target_path dir;
              }
                ∷ files_of t job dir nodes
              else files_of t job dir nodes)
          → IsFile t job dir (n ∷ nodes) f
      listed later true a (inl e) = (
        n,
        inl refl,
        ground (arith, a),
        ground (arith, a),
        fits-bounds n.entry.size (ground (arith, a)),
        ap (λ x. x.entry) e,
        ap (λ x. x.cloud_dir) e,
        ap (λ x. x.target_dir) e,
      )
      listed later true a (inr k) = later k
      listed later false a k = later k

  pub IsFile-files_of :
      (f : Found) (nodes : List Node) → IsFile t job dir nodes f → IsIn f (files_of t job dir nodes)
  unfolding files_of
  IsFile-files_of f [] h = absurd h.1
  IsFile-files_of f (x ∷ nodes) (n, inl s, d, m, b, e, c, g) =
      rw (← s, m, d, bounds-fits n.entry.size b) (inl same)
    where
      same : f ≡ record {
        entry = n.entry;
        cloud_dir = dir;
        target_dir = map_path job.remote_path job.target_path dir;
      }
      same = λ i. record { entry = e i; cloud_dir = c i; target_dir = g i }
  IsFile-files_of f (x ∷ nodes) (n, inr i, d, m, b, e, c, g) =
      let later = IsFile-files_of f nodes (n, i, d, m, b, e, c, g) in
      if_elim (IsIn f) (is_wanted t job x) (λ _. inr later) (λ _. later)
