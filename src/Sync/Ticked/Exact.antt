-- ===== src/Sync/Ticked/Exact.antt =====
-- What a scan of ticked files hands on and reports is so in the listings (`scanChosenFiles` of internal/sync/scan.go).
use tdrive_aliyunpan.Base.{
  ◌≡◌, ◌≢◌, refl, ◌⊎◌, inl, inr, Bool, true, false, not, ◌&&◌, List, [], ◌∷◌, Option, none, some,
  Text, text_eq, text_eq_iff, length, if_elim, Result, ok, err, arith, if◌then◌else◌,
}
use tdrive_aliyunpan.Settings.{Job}
use tdrive_aliyunpan.Sync.Names.{map_path, parent_cloud_dir}
use tdrive_aliyunpan.Sync.Walk.{
  WalkError, path_not_found, too_many, context_ended, failed, Node, CloudTree, Found, Chosen,
}
use tdrive_aliyunpan.Sync.Walk.Entries.{IsIn, IsIn-either}
use tdrive_aliyunpan.Sync.Ticked.{
  files_in, file_at, or_this, stopped_by, missing_if, look_at, look_for, after_listing,
  scan_directories,
}

-- A file, no directory, that the listing of its directory has, with the target of that directory.
abbrev pub IsListed : CloudTree → Job → Found → Type 0
IsListed t job f =
    (nodes : List Node) × (t.list f.cloud_dir ≡ ok nodes)
    × ((n : Node) × IsIn n nodes × (n.is_dir ≡ false) × (f.entry ≡ n.entry))
    × (f.target_dir ≡ map_path job.remote_path job.target_path f.cloud_dir)

-- No file is at a path: its directory is not there, or its listing has no file of that path.
abbrev pub IsAbsent : CloudTree → Text → Type 0
IsAbsent t path =
    (t.list (parent_cloud_dir path) ≡ err path_not_found)
    ⊎ ((nodes : List Node) × (t.list (parent_cloud_dir path) ≡ ok nodes)
        × ((n : Node) → IsIn n nodes → n.is_dir ≡ false → n.entry.path ≢ path))

pub record IsExact (t : CloudTree) (job : Job) (c : Chosen) : Type 0 where
  pub listed : (f : Found) → IsIn f c.found → IsListed t job f
  pub absent : (path : Text) → IsIn path c.missing → IsAbsent t path

files_in-parent :
    (dir : Text) (files : List Text) (path : Text)
    → IsIn path (files_in dir files)
    → parent_cloud_dir path ≡ dir
unfolding files_in
files_in-parent dir [] path h = absurd h
files_in-parent dir (p ∷ files) path h =
    kept (λ (k : IsIn path (files_in dir files)). files_in-parent dir files path k)
      (text_eq (parent_cloud_dir p) dir) refl h
  where
    kept :
        (IsIn path (files_in dir files) → parent_cloud_dir path ≡ dir)
        → (b : Bool) → text_eq (parent_cloud_dir p) dir ≡ b
        → IsIn path (if b then p ∷ files_in dir files else files_in dir files)
        → parent_cloud_dir path ≡ dir
    kept rest true e (inl q) = rw q ((text_eq_iff (parent_cloud_dir p) dir).0 e)
    kept rest true e (inr k) = rest k
    kept rest false e k = rest k

-- What `file_at` finds, and that it finds a file if there is one.
abbrev FoundAt : Text → List Node → Option Node → Type 0
FoundAt path nodes none = (n : Node) → IsIn n nodes → n.is_dir ≡ false → n.entry.path ≢ path
FoundAt path nodes (some n) = IsIn n nodes × (n.is_dir ≡ false)

file_at-FoundAt : (path : Text) (nodes : List Node) → FoundAt path nodes (file_at path nodes)
unfolding file_at
file_at-FoundAt path [] = λ n k. absurd k
file_at-FoundAt path (m ∷ nodes) = later (file_at path nodes) (file_at-FoundAt path nodes)
  where
    this :
        (d e : Bool)
        → m.is_dir ≡ d
        → text_eq m.entry.path path ≡ e
        → FoundAt path nodes none
        → FoundAt path (m ∷ nodes) (if not d && e then some m else none)
    this false true p q h = (inl refl, p)
    this false false p q h = (λ n k d e. elim k [ inl s ↦ clash (rw (← s) e) | inr j ↦ h n j d e ])
      where
        clash : m.entry.path ≡ path → ⊥
        clash e = ground (arith, q, (text_eq_iff m.entry.path path).1 e)
    this true e p q h = (λ n k d r. elim k [ inl s ↦ clash (rw (← s) d) | inr j ↦ h n j d r ])
      where
        clash : m.is_dir ≡ false → ⊥
        clash d = cc

    later : (o : Option Node) → FoundAt path nodes o → FoundAt path (m ∷ nodes) (or_this o path m)
    later (some n) h = (inr h.0, h.1)
    later none h = this m.is_dir (text_eq m.entry.path path) refl refl h

module _ (t : CloudTree) (job : Job) where
  stopped_by-IsExact : (e : WalkError) → IsExact t job (stopped_by e)
  stopped_by-IsExact e = record { listed = λ f k. absurd k; absent = λ p k. absurd k }

  missing_if-IsExact :
      (e : Option WalkError) (paths : List Text) (c : Chosen)
      → ((path : Text) → IsIn path paths → IsAbsent t path)
      → IsExact t job c
      → IsExact t job (missing_if e paths c)
  missing_if-IsExact (some e) paths c h x = x
  missing_if-IsExact none paths c h x = record {
    listed = x.listed;
    absent = λ p k. elim (IsIn-either p paths c.missing k) [ inl a ↦ h p a | inr b ↦ x.absent p b ];
  }

  module _ (dir : Text) (nodes : List Node) (l : t.list dir ≡ ok nodes) where
    look_at-IsExact :
        (path : Text) (found : Option Node) (c : Chosen)
        → parent_cloud_dir path ≡ dir
        → FoundAt path nodes found
        → IsExact t job c
        → IsExact t job (look_at job dir path found c)
    look_at-IsExact path none c p h x =
        missing_if-IsExact c.error (path ∷ []) c
          (λ q k. elim k [ inl s ↦ rw s (inr (nodes, (rw p l), h)) | inr j ↦ absurd j ]) x
    look_at-IsExact path (some n) c p h x = record { listed = shown; absent = x.absent }
      where
        shown : (f : Found) → IsIn f (look_at job dir path (some n) c).found → IsListed t job f
        shown f (inl s) = rw s (nodes, l, (n, h.0, h.1, refl), refl)
        shown f (inr k) = x.listed f k

    look_for-IsExact :
        (wanted : List Text) (c : Chosen)
        → ((path : Text) → IsIn path wanted → parent_cloud_dir path ≡ dir)
        → IsExact t job c
        → IsExact t job (look_for job dir nodes wanted c)
    unfolding look_for
    look_for-IsExact [] c p x = x
    look_for-IsExact (path ∷ wanted) c p x =
        look_at-IsExact path (file_at path nodes) (look_for job dir nodes wanted c)
          (p path (inl refl)) (file_at-FoundAt path nodes)
          (look_for-IsExact wanted c (λ q k. p q (inr k)) x)

  module _ (files : List Text) where
    after_listing-IsExact :
        (dir : Text) (listing : Result WalkError (List Node)) (rest : Chosen)
        → t.list dir ≡ listing
        → IsExact t job rest
        → IsExact t job (after_listing t job files dir listing rest)
    after_listing-IsExact dir (err path_not_found) rest l x =
        missing_if-IsExact rest.error (files_in dir files) rest
          (λ p k. inl (rw (files_in-parent dir files p k) l)) x
    after_listing-IsExact dir (err too_many) rest l x = stopped_by-IsExact too_many
    after_listing-IsExact dir (err context_ended) rest l x = stopped_by-IsExact context_ended
    after_listing-IsExact dir (err failed) rest l x = stopped_by-IsExact failed
    after_listing-IsExact dir (ok nodes) rest l x =
        indexed (t.index_error (map_path job.remote_path job.target_path dir))
      where
        indexed :
            (e : Option WalkError)
            → IsExact t job (elim e [
              | some f ↦ stopped_by f
              | none ↦ look_for job dir nodes (files_in dir files) rest
            ])
        indexed (some e) = stopped_by-IsExact e
        indexed none =
            look_for-IsExact dir nodes l (files_in dir files) rest (files_in-parent dir files) x

    pub scan_directories-IsExact :
        (dirs : List Text) → IsExact t job (scan_directories t job files dirs)
    unfolding scan_directories
    scan_directories-IsExact [] = record { listed = λ f k. absurd k; absent = λ p k. absurd k }
    scan_directories-IsExact (dir ∷ dirs) =
        if_elim (IsExact t job) (t.context_ended (length (dir ∷ dirs)))
          (λ _. stopped_by-IsExact context_ended)
          (λ _.
            after_listing-IsExact dir (t.list dir) (scan_directories t job files dirs) refl
              (scan_directories-IsExact dirs))
