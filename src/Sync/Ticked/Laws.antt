-- ===== src/Sync/Ticked/Laws.antt =====
-- Every file that a job names is looked at or reported (`scanChosenFiles` of internal/sync/scan.go).
use tdrive_aliyunpan.Base.{
  ◌≡◌, refl, sym, ap, ◌∙◌, ◌⊎◌, inl, inr, Bool, true, false, List, [], ◌∷◌, Option, none, some,
  Text, text_eq, text_eq_iff, contains, length, Bool-cases, if_elim, Result, ok, err, arith,
  if◌then◌else◌,
}
use tdrive_aliyunpan.Settings.{Job}
use tdrive_aliyunpan.Sync.Names.{map_path, parent_cloud_dir}
use tdrive_aliyunpan.Sync.Walk.{
  WalkError, path_not_found, too_many, context_ended, failed, Node, CloudTree, Found, Chosen,
}
use tdrive_aliyunpan.Sync.Walk.Entries.{IsIn, IsIn-left, IsIn-right}
use tdrive_aliyunpan.Sync.Ticked.Exact.{IsExact, scan_directories-IsExact}
use tdrive_aliyunpan.Sync.Ticked.{
  directories, files_in, file_at, stopped_by, missing_if, look_at, look_for, after_listing,
  scan_directories, scan_chosen_files,
}

-- A file is reported as missing, or one of its path is handed on.
abbrev pub IsHandled : Chosen → Text → Type 0
IsHandled c path = IsIn path c.missing ⊎ ((f : Found) × IsIn f c.found × (f.entry.path ≡ path))

-- What is handed on is named by the job.
abbrev pub OnlyNamed : List Text → Chosen → Type 0
OnlyNamed files c = (f : Found) → IsIn f c.found → IsIn f.entry.path files

directories-IsIn :
    (seen files : List Text) (path : Text)
    → contains seen (parent_cloud_dir path) ≡ false
    → IsIn path files
    → IsIn (parent_cloud_dir path) (directories seen files)
unfolding directories
directories-IsIn seen [] path h k = k
directories-IsIn seen (p ∷ files) path h (inl e) = rw (← e, h) (inl refl)
directories-IsIn seen (p ∷ files) path h (inr k) =
    elim (Bool-cases (text_eq (parent_cloud_dir p) (parent_cloud_dir path))) [
      | inl e ↦
          let same = (text_eq_iff (parent_cloud_dir p) (parent_cloud_dir path)).0 e in
          rw (same, h) (inl refl)
      | inr e ↦
          let rest =
            directories-IsIn (parent_cloud_dir p ∷ seen) files path (ground (arith, e, h)) k in
          if_elim (IsIn (parent_cloud_dir path)) (contains seen (parent_cloud_dir p)) (λ _. rest)
            (λ _. inr rest)
    ]

files_in-IsIn :
    (dir : Text) (files : List Text) (path : Text)
    → parent_cloud_dir path ≡ dir
    → IsIn path files
    → IsIn path (files_in dir files)
unfolding files_in
files_in-IsIn dir [] path h k = k
files_in-IsIn dir (p ∷ files) path h (inl e) =
    rw ((text_eq_iff (parent_cloud_dir p) dir).1 (ap parent_cloud_dir (sym e) ∙ h)) (inl e)
files_in-IsIn dir (p ∷ files) path h (inr k) =
    let rest = files_in-IsIn dir files path h k in
    if_elim (IsIn path) (text_eq (parent_cloud_dir p) dir) (λ _. inr rest) (λ _. rest)

files_in-named :
    (dir : Text) (files : List Text) (path : Text)
    → IsIn path (files_in dir files)
    → IsIn path files
unfolding files_in
files_in-named dir [] path h = h
files_in-named dir (p ∷ files) path h =
    kept (λ (k : IsIn path (files_in dir files)). files_in-named dir files path k)
      (text_eq (parent_cloud_dir p) dir) h
  where
    kept :
        (IsIn path (files_in dir files) → IsIn path files)
        → (b : Bool) → IsIn path (if b then p ∷ files_in dir files else files_in dir files)
        → IsIn path (p ∷ files)
    kept rest true (inl e) = inl e
    kept rest true (inr k) = inr (rest k)
    kept rest false k = inr (rest k)

-- The file that is found has the path.
file_at-path :
    (path : Text) (nodes : List Node) (n : Node) → file_at path nodes ≡ some n → n.entry.path ≡ path
unfolding file_at
file_at-path path [] n h = absurd (cc)
file_at-path path (m ∷ nodes) n h =
    ground (arith, file_at-path path nodes n, text_eq_iff m.entry.path path)

missing_if-error :
    (e : Option WalkError) (paths : List Text) (c : Chosen)
    → (missing_if e paths c).error ≡ none
    → c.error ≡ none
missing_if-error none paths c h = h
missing_if-error (some e) paths c h = h

missing_if-same :
    (e : Option WalkError) (paths : List Text) (c : Chosen) → (missing_if e paths c).error ≡ c.error
missing_if-same none paths c = refl
missing_if-same (some e) paths c = refl

module _ (job : Job) (dir : Text) where
  -- Looking at a path keeps what is handled, and handles the path.
  look_at-IsHandled :
      (path other : Text) (found : Option Node) (c : Chosen)
      → c.error ≡ none
      → ((n : Node) → found ≡ some n → n.entry.path ≡ path)
      → (IsHandled c other ⊎ (other ≡ path))
      → IsHandled (look_at job dir path found c) other
  look_at-IsHandled path other none c e h (inl (inl m)) = rw e (inl (inr m))
  look_at-IsHandled path other none c e h (inl (inr f)) = rw e (inr f)
  look_at-IsHandled path other none c e h (inr q) = rw e (inl (inl q))
  look_at-IsHandled path other (some n) c e h (inl (inl m)) = inl m
  look_at-IsHandled path other (some n) c e h (inl (inr (f, k, q))) = inr (f, inr k, q)
  look_at-IsHandled path other (some n) c e h (inr q) = inr (_, inl refl, h n refl ∙ sym q)

  look_at-error :
      (path : Text) (found : Option Node) (c : Chosen)
      → (look_at job dir path found c).error ≡ none
      → c.error ≡ none
  look_at-error path none c h = missing_if-error c.error (path ∷ []) c h
  look_at-error path (some n) c h = h

  look_for-error :
      (nodes : List Node) (wanted : List Text) (c : Chosen)
      → (look_for job dir nodes wanted c).error ≡ none
      → c.error ≡ none
  unfolding look_for
  look_for-error nodes [] c h = h
  look_for-error nodes (path ∷ wanted) c h =
      look_for-error nodes wanted c
        (look_at-error path (file_at path nodes) (look_for job dir nodes wanted c) h)

  look_at-same :
      (path : Text) (found : Option Node) (c : Chosen)
      → (look_at job dir path found c).error ≡ c.error
  look_at-same path none c = missing_if-same c.error (path ∷ []) c
  look_at-same path (some n) c = refl

  look_for-errorless :
      (nodes : List Node) (wanted : List Text) (c : Chosen)
      → c.error ≡ none
      → (look_for job dir nodes wanted c).error ≡ none
  unfolding look_for
  look_for-errorless nodes [] c e = e
  look_for-errorless nodes (path ∷ wanted) c e =
      look_at-same path (file_at path nodes) (look_for job dir nodes wanted c)
      ∙ look_for-errorless nodes wanted c e

  looked :
      (nodes : List Node) (p : Text) (wanted : List Text) (c : Chosen) (path : Text)
      → c.error ≡ none
      → IsHandled (look_for job dir nodes wanted c) path ⊎ (path ≡ p)
      → IsHandled (look_at job dir p (file_at p nodes) (look_for job dir nodes wanted c)) path
  looked nodes p wanted c path e h =
      look_at-IsHandled p path (file_at p nodes) (look_for job dir nodes wanted c)
        (look_for-errorless nodes wanted c e) (file_at-path p nodes) h

  look_for-IsHandled :
      (nodes : List Node) (wanted : List Text) (c : Chosen) (path : Text)
      → c.error ≡ none
      → (IsHandled c path ⊎ IsIn path wanted)
      → IsHandled (look_for job dir nodes wanted c) path
  unfolding look_for
  look_for-IsHandled nodes [] c path e (inl h) = h
  look_for-IsHandled nodes [] c path e (inr k) = absurd k
  look_for-IsHandled nodes (p ∷ wanted) c path e (inl h) =
      looked nodes p wanted c path e (inl (look_for-IsHandled nodes wanted c path e (inl h)))
  look_for-IsHandled nodes (p ∷ wanted) c path e (inr (inl q)) =
      looked nodes p wanted c path e (inr q)
  look_for-IsHandled nodes (p ∷ wanted) c path e (inr (inr k)) =
      looked nodes p wanted c path e (inl (look_for-IsHandled nodes wanted c path e (inr k)))

  look_at-OnlyNamed :
      (files : List Text) (path : Text) (found : Option Node) (c : Chosen)
      → IsIn path files
      → ((n : Node) → found ≡ some n → n.entry.path ≡ path)
      → OnlyNamed files c
      → OnlyNamed files (look_at job dir path found c)
  look_at-OnlyNamed files path none c named h only = by_error c.error
    where
      by_error : (e : Option WalkError) → OnlyNamed files (missing_if e (path ∷ []) c)
      by_error none = only
      by_error (some e) = only
  look_at-OnlyNamed files path (some n) c named h only = λ f. first f
    where
      first : (f : Found) → IsIn f (look_at job dir path (some n) c).found → IsIn f.entry.path files
      first f (inl e) = rw (e, h n refl) named
      first f (inr k) = only f k

  look_for-OnlyNamed :
      (files : List Text) (nodes : List Node) (wanted : List Text) (c : Chosen)
      → ((path : Text) → IsIn path wanted → IsIn path files)
      → OnlyNamed files c
      → OnlyNamed files (look_for job dir nodes wanted c)
  unfolding look_for
  look_for-OnlyNamed files nodes [] c named only = only
  look_for-OnlyNamed files nodes (path ∷ wanted) c named only =
      look_at-OnlyNamed files path (file_at path nodes) (look_for job dir nodes wanted c)
        (named path (inl refl)) (file_at-path path nodes)
        (look_for-OnlyNamed files nodes wanted c (λ p k. named p (inr k)) only)

module _ (t : CloudTree) (job : Job) (files : List Text) where
  -- What a listing adds to what follows.
  record Adds (dir : Text) (rest after : Chosen) : Type 0 where
    clean : after.error ≡ none → rest.error ≡ none
    handles :
        after.error ≡ none
        → (path : Text) → IsHandled rest path ⊎ IsIn path (files_in dir files)
        → IsHandled after path
    only : OnlyNamed files rest → OnlyNamed files after

  stopped_by-Adds : (dir : Text) (e : WalkError) (rest : Chosen) → Adds dir rest (stopped_by e)
  stopped_by-Adds dir e rest = record {
    clean = λ h. absurd (cc);
    handles = λ h. absurd (cc);
    only = λ _ f k. absurd k;
  }

  missing_if-Adds :
      (dir : Text) (e : Option WalkError) (rest : Chosen)
      → rest.error ≡ e
      → Adds dir rest (missing_if e (files_in dir files) rest)
  missing_if-Adds dir (some e) rest h = record {
    clean = λ k. k;
    handles = λ k. absurd (cc);
    only = λ o. o;
  }
  missing_if-Adds dir none rest h = record {
    clean = λ k. k;
    handles = λ k path w. missed path w;
    only = λ o. o;
  }
    where
      missed :
          (path : Text)
          → IsHandled rest path ⊎ IsIn path (files_in dir files)
          → IsHandled (missing_if none (files_in dir files) rest) path
      missed path (inl (inl m)) = inl (IsIn-right path (files_in dir files) rest.missing m)
      missed path (inl (inr f)) = inr f
      missed path (inr k) = inl (IsIn-left path (files_in dir files) rest.missing k)

  looked-Adds :
      (dir : Text) (nodes : List Node) (rest : Chosen) (e : Option WalkError)
      → Adds dir rest (elim e [
        | some f ↦ stopped_by f
        | none ↦ look_for job dir nodes (files_in dir files) rest
      ])
  looked-Adds dir nodes rest (some f) = stopped_by-Adds dir f rest
  looked-Adds dir nodes rest none = record {
    clean = look_for-error job dir nodes (files_in dir files) rest;
    handles = λ h path w.
        look_for-IsHandled job dir nodes (files_in dir files) rest path
          (look_for-error job dir nodes (files_in dir files) rest h) w;
    only =
        look_for-OnlyNamed job dir files nodes (files_in dir files) rest
          (λ path k. files_in-named dir files path k);
  }

  after_listing-Adds :
      (dir : Text) (listing : Result WalkError (List Node)) (rest : Chosen)
      → Adds dir rest (after_listing t job files dir listing rest)
  after_listing-Adds dir (err path_not_found) rest = missing_if-Adds dir rest.error rest refl
  after_listing-Adds dir (err too_many) rest = stopped_by-Adds dir too_many rest
  after_listing-Adds dir (err context_ended) rest = stopped_by-Adds dir context_ended rest
  after_listing-Adds dir (err failed) rest = stopped_by-Adds dir failed rest
  after_listing-Adds dir (ok nodes) rest =
      looked-Adds dir nodes rest (t.index_error (map_path job.remote_path job.target_path dir))

  scan_directories-Adds :
      (dir : Text) (dirs : List Text)
      → Adds dir (scan_directories t job files dirs) (scan_directories t job files (dir ∷ dirs))
  unfolding scan_directories
  scan_directories-Adds dir dirs =
      if_elim (Adds dir (scan_directories t job files dirs)) (t.context_ended (length (dir ∷ dirs)))
        (λ _. stopped_by-Adds dir context_ended (scan_directories t job files dirs))
        (λ _. after_listing-Adds dir (t.list dir) (scan_directories t job files dirs))

  scan_directories-handles :
      (dirs : List Text) (path : Text)
      → IsIn path files
      → (scan_directories t job files dirs).error ≡ none
      → IsIn (parent_cloud_dir path) dirs
      → IsHandled (scan_directories t job files dirs) path
  scan_directories-handles [] path named e k = absurd k
  scan_directories-handles (dir ∷ dirs) path named e (inl q) =
      (scan_directories-Adds dir dirs).handles e path (inr (files_in-IsIn dir files path q named))
  scan_directories-handles (dir ∷ dirs) path named e (inr k) =
      let a = scan_directories-Adds dir dirs in
      a.handles e path (inl (scan_directories-handles dirs path named (a.clean e) k))

  scan_directories-OnlyNamed :
      (dirs : List Text) → OnlyNamed files (scan_directories t job files dirs)
  scan_directories-OnlyNamed [] = unfold scan_directories in λ f k. absurd k
  scan_directories-OnlyNamed (dir ∷ dirs) =
      (scan_directories-Adds dir dirs).only (scan_directories-OnlyNamed dirs)

-- Whatever the cloud answers, a scan of the files that a job names hands on only what has such a path and is
-- listed in its directory as a file, no directory, and sends it to the target of that directory. It
-- reports a path as missing only if its directory is not there, or has no file of that path. And if it
-- ends without an error, each of the paths is reported as missing, or a file of it is handed on.
pub scan_chosen_files-handles :
    (t : CloudTree) (job : Job)
    → OnlyNamed job.include_files (scan_chosen_files t job)
      × IsExact t job (scan_chosen_files t job)
      × ((scan_chosen_files t job).error ≡ none
          → (path : Text) → IsIn path job.include_files
          → IsHandled (scan_chosen_files t job) path)
unfolding scan_chosen_files
scan_chosen_files-handles t job = (
  scan_directories-OnlyNamed t job job.include_files (directories [] job.include_files),
  scan_directories-IsExact t job job.include_files (directories [] job.include_files),
  λ e path named.
      scan_directories-handles t job job.include_files (directories [] job.include_files) path named
        e (directories-IsIn [] job.include_files path refl named),
)
