-- ===== src/Sync/Walk/Laws.antt =====
-- A walk ends within its allowance, and one without an error finds exactly the files under its root.
use tdrive_aliyunpan.Base.{
  ℕ, zero, suc, ◌+◌, ◌≡◌, refl, sym, ap, ◌∙◌, subst, inl, inr, List, [], ◌∷◌, ◌++◌, Option, none,
  some, Text, Result, ok, err, length, Bool-cases, arith,
}
use tdrive_aliyunpan.Settings.{Job}
use tdrive_aliyunpan.Sync.Names.{map_path}
use tdrive_aliyunpan.Sync.Walk.Entries.{
  IsIn, IsIn-left, IsIn-right, IsIn-either, IsDirectory, IsFile, dirs_of-IsDirectory,
  IsDirectory-dirs_of, files_of-IsFile, IsFile-files_of,
}
use tdrive_aliyunpan.Sync.Walk.{
  WalkError, Node, CloudTree, Found, Walked, dirs_of, files_of, is_itself, visited, after_index,
  after_list, walk, walk_cloud_dir,
}

-- The directories at and below a root, as the cloud lists them, less those that a pattern excludes.
pub data Under (t : CloudTree) (root : Text) : Text → Type 0 where
  here : Under t root root
  below :
      (dir child : Text) (nodes : List Node)
      → Under t root dir
      → t.list dir ≡ ok nodes
      → IsDirectory t nodes child
      → Under t root child

-- The files of a directory.
abbrev pub HasFile : CloudTree → Job → Text → Found → Type 0
HasFile t job dir f = (nodes : List Node) × (t.list dir ≡ ok nodes) × IsFile t job dir nodes f

module _ (t : CloudTree) (job : Job) where
  -- A directory whose listing has been worked off.
  abbrev Worked : Walked → Text → Type 0
  Worked w dir =
      (nodes : List Node) × (t.list dir ≡ ok nodes)
      × ((child : Text) → IsIn child (dirs_of t nodes) → IsIn child w.listed)
      × ((f : Found) → IsIn f (files_of t job dir nodes) → IsIn f w.found)

  abbrev Complete : List Text → Walked → Type 0
  Complete dirs w =
      w.error ≡ none
      → ((dir : Text) → IsIn dir dirs → IsIn dir w.listed)
        × ((dir : Text) → IsIn dir w.listed → Worked w dir)

  visited-Complete :
      (dir : Text) (dirs : List Text) (nodes : List Node) (w : Walked)
      → t.list dir ≡ ok nodes
      → Complete (dirs ++ dirs_of t nodes) w
      → Complete (dir ∷ dirs) (visited dir (files_of t job dir nodes) w)
  visited-Complete dir dirs nodes w l c e = (queued, worked)
    where
      queued : (d : Text) → IsIn d (dir ∷ dirs) → IsIn d (dir ∷ w.listed)
      queued d (inl h) = inl h
      queued d (inr h) = inr ((c e).0 d (IsIn-left d dirs (dirs_of t nodes) h))

      worked :
          (d : Text) → IsIn d (dir ∷ w.listed) → Worked (visited dir (files_of t job dir nodes) w) d
      worked d (inl h) = (
        nodes,
        ap t.list h ∙ l,
        (λ child i. inr ((c e).0 child (IsIn-right child dirs (dirs_of t nodes) i))),
        (λ f i.
            IsIn-left f (files_of t job dir nodes) w.found
              (subst (λ x. IsIn f (files_of t job x nodes)) h i)),
      )
      worked d (inr h) =
          let (some_nodes, listed, children, files) = (c e).1 d h in
          (
            some_nodes,
            listed,
            (λ child i. inr (children child i)),
            (λ f i. IsIn-right f (files_of t job dir nodes) w.found (files f i)),
          )

  after_list-Complete :
      (again : List Text → Walked) (left : ℕ) (dir : Text) (dirs : List Text)
      → ((queue : List Text) → Complete queue (again queue))
      → (answer : Result WalkError (List Node)) → t.list dir ≡ answer
      → Complete (dir ∷ dirs) (after_list again left t job dir dirs answer)
  after_list-Complete again left dir dirs c (err e) l = λ h. absurd (ground arith)
  after_list-Complete again left dir dirs c (ok nodes) l = elim (Bool-cases (is_itself dir nodes)) [
    | inl i ↦ rw i (λ h. absurd (ground arith))
    | inr i ↦ rw i (indexed (t.index_error (map_path job.remote_path job.target_path dir)))
  ]
    where
      indexed :
          (o : Option WalkError)
          → Complete (dir ∷ dirs) (after_index again left t job dir dirs nodes o)
      indexed none =
          visited-Complete dir dirs nodes (again (dirs ++ dirs_of t nodes)) l
            (c (dirs ++ dirs_of t nodes))
      indexed (some x) = λ h. absurd (ground arith)

  walk-Complete : (left : ℕ) (dirs : List Text) → Complete dirs (walk t job left dirs)
  unfolding walk
  walk-Complete left [] = λ e. ((λ d h. absurd h), (λ d h. absurd h))
  walk-Complete zero (dir ∷ dirs) = elim (Bool-cases (t.context_ended 0)) [
    | inl e ↦ rw e (λ h. absurd (ground arith))
    | inr e ↦ rw e (λ h. absurd (ground arith))
  ]
  walk-Complete (suc left) (dir ∷ dirs) = elim (Bool-cases (t.context_ended (suc left))) [
    | inl e ↦ rw e (λ h. absurd (ground arith))
    | inr e ↦
        rw e (
          after_list-Complete (walk t job left) left dir dirs (walk-Complete left) (t.list dir)
            refl)
  ]

  -- What is found is under the root.
  abbrev Sound : Text → Walked → Type 0
  Sound root w =
      (f : Found) → IsIn f w.found → (dir : Text) × Under t root dir × HasFile t job dir f

  after_list-Sound :
      (root : Text) (again : List Text → Walked) (left : ℕ) (dir : Text) (dirs : List Text)
      → Under t root dir
      → ((d : Text) → IsIn d dirs → Under t root d)
      → ((queue : List Text)
          → ((d : Text) → IsIn d queue → Under t root d)
          → Sound root (again queue))
      → (answer : Result WalkError (List Node)) → t.list dir ≡ answer
      → Sound root (after_list again left t job dir dirs answer)
  after_list-Sound root again left dir dirs u us c (err e) l = λ f h. absurd h
  after_list-Sound root again left dir dirs u us c (ok nodes) l =
      elim (Bool-cases (is_itself dir nodes)) [
        | inl i ↦ rw i (λ f h. absurd h)
        | inr i ↦ rw i (indexed (t.index_error (map_path job.remote_path job.target_path dir)))
      ]
    where
      queued : (d : Text) → IsIn d (dirs ++ dirs_of t nodes) → Under t root d
      queued d h = elim (IsIn-either d dirs (dirs_of t nodes) h) [
        | inl a ↦ us d a
        | inr b ↦ below dir d nodes u l (dirs_of-IsDirectory t d nodes b)
      ]

      indexed : (o : Option WalkError) → Sound root (after_index again left t job dir dirs nodes o)
      indexed (some x) = λ f h. absurd h
      indexed none = λ f h. elim (IsIn-either f (files_of t job dir nodes) _ h) [
        | inl a ↦ (dir, u, (nodes, l, files_of-IsFile t job dir f nodes a))
        | inr b ↦ c (dirs ++ dirs_of t nodes) queued f b
      ]

  walk-Sound :
      (root : Text) (left : ℕ) (dirs : List Text)
      → ((d : Text) → IsIn d dirs → Under t root d)
      → Sound root (walk t job left dirs)
  unfolding walk
  walk-Sound root left [] us = λ f h. absurd h
  walk-Sound root zero (dir ∷ dirs) us = elim (Bool-cases (t.context_ended 0)) [
    | inl e ↦ rw e (λ f h. absurd h)
    | inr e ↦ rw e (λ f h. absurd h)
  ]
  walk-Sound root (suc left) (dir ∷ dirs) us = elim (Bool-cases (t.context_ended (suc left))) [
    | inl e ↦ rw e (λ f h. absurd h)
    | inr e ↦ rw e (
        after_list-Sound root (walk t job left) left dir dirs (us dir (inl refl))
          (λ d h. us d (inr h)) (walk-Sound root left) (t.list dir) refl)
  ]

same_nodes : {E : Type 0} (r : Result E (List Node)) (m n : List Node) → r ≡ ok m → r ≡ ok n → m ≡ n
same_nodes r m n h k = ground arith

-- Every directory under the root has been listed, if the walk has been complete.
Under-listed :
    (t : CloudTree) (job : Job) (root dir : Text) (w : Walked)
    → IsIn root w.listed
    → ((d : Text) → IsIn d w.listed → Worked t job w d)
    → Under t root dir
    → IsIn dir w.listed
Under-listed t job root _ w r c here = r
Under-listed t job root _ w r c (below dir child nodes u l i) =
    let (others, listed, children, files) = c dir (Under-listed t job root dir w r c u) in
    children child (
      subst (λ x. IsIn child (dirs_of t x)) (same_nodes (t.list dir) nodes others l listed)
        (IsDirectory-dirs_of t child nodes i))

-- The walk implements the set of files under its root: a directory is at or below the root if it is the root,
-- or is listed by such a directory as a directory whose name no pattern excludes. Each file that the walk
-- hands on is listed by such a directory, is no directory, has a name that no pattern excludes and a size
-- within the job's bounds, and is sent to the target of its directory; and if the walk ends without an
-- error, every such file is handed on. The tree may have cycles, and directories may be listed more than once.
pub walk_cloud_dir-files :
    (t : CloudTree) (job : Job) (root : Text) (left : ℕ)
    → ((f : Found)
        → IsIn f (walk_cloud_dir t job root left).found
        → (dir : Text) × Under t root dir × HasFile t job dir f)
      × ((walk_cloud_dir t job root left).error ≡ none
          → (dir : Text) → Under t root dir
          → (f : Found) → HasFile t job dir f
          → IsIn f (walk_cloud_dir t job root left).found)
unfolding walk_cloud_dir
walk_cloud_dir-files t job root left = (walk-Sound t job root left (root ∷ []) at_root, complete)
  where
    at_root : (d : Text) → IsIn d (root ∷ []) → Under t root d
    at_root d (inl e) = subst (Under t root) (sym e) here
    at_root d (inr h) = absurd h

    complete :
        (walk t job left (root ∷ [])).error ≡ none
        → (dir : Text) → Under t root dir
        → (f : Found) → HasFile t job dir f
        → IsIn f (walk t job left (root ∷ [])).found
    complete e dir u f (nodes, l, i) =
        let (queued, worked) = walk-Complete t job left (root ∷ []) e in
        let listed =
          Under-listed t job root dir (walk t job left (root ∷ [])) (queued root (inl refl)) worked
            u in
        let (others, same, children, files) = worked dir listed in
        files f (
          subst (λ x. IsIn f (files_of t job dir x)) (same_nodes (t.list dir) nodes others l same)
            (IsFile-files_of t job dir f nodes i))

visited-length :
    (left : ℕ) (dir : Text) (files : List Found) (w : Walked)
    → length w.listed + w.left ≡ left
    → length (visited dir files w).listed + (visited dir files w).left ≡ suc left
visited-length left dir files w h = omega (arith, h)

after_list-length :
    (t : CloudTree) (job : Job) (again : List Text → Walked) (left : ℕ) (dir : Text)
    (dirs : List Text)
    → ((queue : List Text) → length (again queue).listed + (again queue).left ≡ left)
    → (answer : Result WalkError (List Node))
    → length (after_list again left t job dir dirs answer).listed
        + (after_list again left t job dir dirs answer).left
      ≡ suc left
after_list-length t job again left dir dirs h (err e) = omega arith
after_list-length t job again left dir dirs h (ok nodes) = elim (Bool-cases (is_itself dir nodes)) [
  | inl i ↦ rw i (omega arith)
  | inr i ↦ rw i (indexed (t.index_error (map_path job.remote_path job.target_path dir)))
]
  where
    indexed :
        (o : Option WalkError)
        → length (after_index again left t job dir dirs nodes o).listed
            + (after_index again left t job dir dirs nodes o).left
          ≡ suc left
    indexed (some x) = omega arith
    indexed none =
        visited-length left dir (files_of t job dir nodes) (again (dirs ++ dirs_of t nodes))
          (h (dirs ++ dirs_of t nodes))

-- Whatever the cloud answers, cycles and failures included, the directories that a walk asks the cloud to list,
-- the one whose listing fails included, and the number that it gives back are together exactly the
-- number that it was allowed.
pub walk-ends :
    (t : CloudTree) (job : Job) (left : ℕ) (dirs : List Text)
    → length (walk t job left dirs).listed + (walk t job left dirs).left ≡ left
unfolding walk
walk-ends t job left [] = omega arith
walk-ends t job zero (dir ∷ dirs) = elim (Bool-cases (t.context_ended 0)) [
  | inl e ↦ rw e (omega arith)
  | inr e ↦ rw e (omega arith)
]
walk-ends t job (suc left) (dir ∷ dirs) = elim (Bool-cases (t.context_ended (suc left))) [
  | inl e ↦ rw e (omega arith)
  | inr e ↦
      rw e (
        after_list-length t job (walk t job left) left dir dirs (walk-ends t job left) (t.list dir))
]
