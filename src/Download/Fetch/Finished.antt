-- ===== src/Download/Fetch/Finished.antt =====
-- What a download that succeeds leaves (`Download` of internal/aliyunpan/source_download.go).
use tdrive_aliyunpan.Base.{
  if_elim, ◌≡◌, ◌≢◌, ap, ◌∙◌, subst, Bool, true, text_eq, text_eq_iff, ltb_ℤ, refl, ◌⊎◌, inl, inr,
  false, not, ◌&&◌, List, [], ◌∷◌, Option, none, some, ℤ, pos, ◌<ℤ◌, leb_ℤ, eqb_ℤ, eq_of_parts,
  Text, is_empty, Result, ok, err, arith, Bool-cases, if◌then◌else◌,
}
use tdrive_aliyunpan.Download.Bitmap.{Codec}
use tdrive_aliyunpan.Download.Checkpoint.{
  ChunkCheckpoint, CheckpointFile, Decimal, new_checkpoint, pending,
}
use tdrive_aliyunpan.Download.Fetch.Keeps.{regular_lem}
use tdrive_aliyunpan.Download.Path.{PathFault, clean_download_path, staged_path}
use tdrive_aliyunpan.Download.Fetch.Answers.{
  regular, Staging, is_regular_of, DownloadRequest, Fault, CloudFile, World, Fetched, with_defaults,
  identity, find_file, same_entity, by_id,
}
use tdrive_aliyunpan.Download.Fetch.{
  close_and_rename, after_chunks, fetch_chunks, open_partial, resume_or_start, clear_old,
  fetch_file, found_file, on_drive, drive_of, at_path, download,
}

module _ (k : Codec) (d : Decimal) (w : World) (staged : Text) (size : ℤ) where
  -- A success names the staged file, and a file of the size stands there.
  abbrev Finishes : Fetched → Type 0
  Finishes out =
      (path : Text) → out.outcome ≡ ok path → (path ≡ staged) × (out.files.finished ≡ regular size)

  close_and_rename-Finishes :
      (files : Staging) (progress : List ℤ)
      → files.partial ≡ regular size
      → Finishes (close_and_rename w staged size files progress)
  close_and_rename-Finishes files progress h =
      if_elim Finishes w.close (λ _ path e. absurd (cc))
        (λ _. if_elim Finishes w.rename (λ _ path e. absurd (cc)) (λ _ path e. (cc, h)))

  chunked-Finishes :
      (files : Staging) (progress reported : List ℤ) (error : Option Fault)
      (saved : Option ChunkCheckpoint)
      → files.partial ≡ regular size
      → Finishes (
          after_chunks w staged size files progress
            (record { error = error; saved = saved; reported = reported }))
  chunked-Finishes files progress reported none saved h = close_and_rename-Finishes _ _ h
  chunked-Finishes files progress reported (some fault) saved h = λ path e. absurd (cc)

  fetch_chunks-Finishes :
      (c : CheckpointFile) (files : Staging) (progress : List ℤ)
      → files.partial ≡ regular size
      → Finishes (fetch_chunks w staged size c files progress)
  fetch_chunks-Finishes c files progress h =
      elim (pending c)
        as (λ p. Finishes (elim p [
          | [] ↦ close_and_rename w staged size files progress
          | index ∷ more ↦
              if ltb_ℤ (pos 0) size
              then after_chunks w staged size files progress (w.chunks c (index ∷ more))
              else close_and_rename w staged size files progress
        ])) [
          | [] ↦ close_and_rename-Finishes files progress h
          | index ∷ more ↦
              if_elim Finishes (ltb_ℤ (pos 0) size)
                (λ _.
                  chunked-Finishes files progress (w.chunks c (index ∷ more)).reported
                    (w.chunks c (index ∷ more)).error (w.chunks c (index ∷ more)).saved h)
                (λ _. close_and_rename-Finishes files progress h)
        ]

  open_partial-Finishes :
      (c : CheckpointFile) (files : Staging) → Finishes (open_partial k d w staged size c files)
  open_partial-Finishes c files =
      if_elim Finishes w.open_partial (λ _ path e. absurd (cc))
        (λ _.
          if_elim Finishes w.truncate (λ _ path e. absurd (cc))
            (λ _. fetch_chunks-Finishes c _ _ refl))

size_lem :
    (size expected : ℤ)
    → (leb_ℤ (pos 0) expected && not (eqb_ℤ size expected)) ≡ false
    → (expected <ℤ pos 0) ⊎ (size ≡ expected)
size_lem size expected h = ground (arith, eq_of_parts size expected)

-- The file that a request names: of its ID on the drive, or of the path, where no ID is given, or where nothing has
-- the ID and the entity at the path does not have another.
pub data IsNamed (w : World) (drive path file_id : Text) (f : CloudFile) : Type 0 where
  of_path : file_id ≡ [] → w.file_by_path drive path ≡ ok (some f) → IsNamed w drive path file_id f
  of_id : file_id ≢ [] → w.file_by_id drive file_id ≡ ok (some f) → IsNamed w drive path file_id f
  of_old_path :
      file_id ≢ []
      → w.file_by_id drive file_id ≡ err Fault.not_found
      → w.file_by_path drive path ≡ ok (some f)
      → (f.id ≡ []) ⊎ (f.id ≡ file_id)
      → IsNamed w drive path file_id f

empty_lem : (t : Text) → is_empty t ≡ true → t ≡ []
empty_lem [] h = refl
empty_lem (c ∷ t) h = absurd (cc)

filled_lem : (t : Text) → is_empty t ≡ false → t ≢ []
filled_lem t h e = absurd (ground (arith, h, ap is_empty e))

same_entity_lem :
    (file_id : Text) (answer : Result Fault (Option CloudFile)) (f : CloudFile)
    → same_entity file_id answer ≡ ok (some f)
    → (answer ≡ ok (some f)) × ((f.id ≡ []) ⊎ (f.id ≡ file_id))
same_entity_lem file_id (err e) f h = absurd (cc)
same_entity_lem file_id (ok none) f h = absurd (cc)
same_entity_lem file_id (ok (some g)) f h =
    tested (is_empty g.id) (text_eq g.id file_id) refl refl h
  where
    tested :
        (b c : Bool)
        → is_empty g.id ≡ b
        → text_eq g.id file_id ≡ c
        → (if not b && not c then err Fault.entity_changed else ok (some g)) ≡ ok (some f)
        → ◌≡◌ {A = Result Fault (Option CloudFile)} (ok (some g)) (ok (some f))
          × ((f.id ≡ []) ⊎ (f.id ≡ file_id))
    tested true c p q e =
        (e, inl (let s : g ≡ f = cc in subst (λ (x : CloudFile). x.id ≡ []) s (empty_lem g.id p)))
    tested false true p q e = (
      e,
      inr (
          let s : g ≡ f = cc in
          subst (λ (x : CloudFile). x.id ≡ file_id) s ((text_eq_iff g.id file_id).0 q)),
    )
    tested false false p q e = absurd (cc)

by_id-IsNamed :
    (w : World) (drive path file_id : Text) (f : CloudFile)
    (answer : Result Fault (Option CloudFile))
    → file_id ≢ []
    → w.file_by_id drive file_id ≡ answer
    → by_id file_id (w.file_by_path drive path) answer ≡ ok (some f)
    → IsNamed w drive path file_id f
by_id-IsNamed w drive path file_id f (ok found) n h e = IsNamed.of_id n (h ∙ e)
by_id-IsNamed w drive path file_id f (err Fault.not_found) n h e =
    let s = same_entity_lem file_id (w.file_by_path drive path) f e in
    IsNamed.of_old_path n h s.0 s.1
by_id-IsNamed w drive path file_id f (err other) n h e = absurd (cc)

find_file-IsNamed :
    (w : World) (r : DownloadRequest) (f : CloudFile)
    → find_file w r ≡ ok (some f)
    → IsNamed w r.drive_id r.cloud_path r.file_id f
unfolding find_file
find_file-IsNamed w r f h = elim (Bool-cases (is_empty r.file_id)) [
  | inl e ↦ IsNamed.of_path (empty_lem r.file_id e) (rw e at h)
  | inr e ↦
      by_id-IsNamed w r.drive_id r.cloud_path r.file_id f (w.file_by_id r.drive_id r.file_id)
        (filled_lem r.file_id e) refl (rw e at h)
]

-- The drive of a request: its own, or the one that the cloud resolves.
abbrev pub IsOnDrive : World → Text → Text → Type 0
IsOnDrive w drive_id drive =
    ((drive_id ≢ []) × (drive ≡ drive_id)) ⊎ ((drive_id ≡ []) × (w.resolve_drive ≡ ok drive))

drive_of-IsOnDrive :
    (w : World) (r : DownloadRequest) (drive : Text)
    → drive_of w r ≡ ok drive
    → IsOnDrive w r.drive_id drive
drive_of-IsOnDrive w r drive h = elim (Bool-cases (is_empty r.drive_id)) [
  | inl e ↦ inr (empty_lem r.drive_id e, rw e at h)
  | inr e ↦ inl (filled_lem r.drive_id e, given (rw e at h))
]
  where
    given : ◌≡◌ {A = Result Fault Text} (ok r.drive_id) (ok drive) → drive ≡ r.drive_id
    given q = cc

module _ (k : Codec) (d : Decimal) (w : World) where
  resumed-Finishes :
      (staged : Text) (want : ChunkCheckpoint) (files : Staging) (found : Option CheckpointFile)
      → Finishes k d w staged want.size (resume_or_start k d w staged want files found)
  resumed-Finishes staged want files (some c) = open_partial-Finishes k d w staged want.size c files
  resumed-Finishes staged want files none =
      if_elim (Finishes k d w staged want.size) w.remove_partial (λ _ path e. absurd (cc))
        (λ _. open_partial-Finishes k d w staged want.size (new_checkpoint want) _)

  clear_old-Finishes :
      (staged : Text) (want : ChunkCheckpoint) (files : Staging)
      → Finishes k d w staged want.size (clear_old k d w staged want files)
  clear_old-Finishes staged want files =
      let P = Finishes k d w staged want.size in
      if_elim P w.remove_finished (λ _ path e. absurd (cc))
        (λ _.
          if_elim P w.remove_legacy (λ _ path e. absurd (cc))
            (λ _.
              if_elim P w.make_dir (λ _ path e. absurd (cc))
                (λ _. resumed-Finishes staged want _ _)))

  -- What a success says of the file that was found.
  abbrev Delivered : DownloadRequest → ℤ → Text → Staging → Type 0
  Delivered r expected path files =
      (f : CloudFile) × IsNamed w r.drive_id r.cloud_path r.file_id f
      × (f.folder ≡ false)
      × ((expected <ℤ pos 0) ⊎ (f.size ≡ expected))
      × (path ≡ staged_path r.stage_dir r.cloud_path)
      × (files.finished ≡ regular f.size)

  fetch_file-Delivered :
      (r : DownloadRequest) (expected : ℤ) (f : CloudFile) (files : Staging) (path : Text)
      → IsNamed w r.drive_id r.cloud_path r.file_id f
      → (fetch_file k d w r expected f files).outcome ≡ ok path
      → Delivered r expected path (fetch_file k d w r expected f files).files
  fetch_file-Delivered r expected f files path0 named =
      let P : Fetched → Type 0 =
        λ out. (path : Text) → out.outcome ≡ ok path → Delivered r expected path out.files in
      if_elim P f.folder (λ _ path e. absurd (cc))
        (λ file.
          if_elim P (leb_ℤ (pos 0) expected && not (eqb_ℤ f.size expected))
            (λ _ path e. absurd (cc))
            (λ sized.
              if_elim P (is_regular_of f.size files.finished)
                (λ shape path e. (
                  f,
                  named,
                  file,
                  size_lem f.size expected sized,
                  cc,
                  regular_lem f.size files.finished shape,
                ))
                (λ _ path e.
                  let done =
                    clear_old-Finishes (staged_path r.stage_dir r.cloud_path) (identity r f) files
                      path e in
                  (f, named, file, size_lem f.size expected sized, done.0, done.1))))
        path0

  found_file-Delivered :
      (r : DownloadRequest) (expected : ℤ) (files : Staging)
      (found : Result Fault (Option CloudFile)) (path : Text)
      → find_file w r ≡ found
      → (found_file k d w r expected files found).outcome ≡ ok path
      → Delivered r expected path (found_file k d w r expected files found).files
  found_file-Delivered r expected files (err fault) path h e = absurd (cc)
  found_file-Delivered r expected files (ok none) path h e = absurd (cc)
  found_file-Delivered r expected files (ok (some f)) path h e =
      fetch_file-Delivered r expected f files path (find_file-IsNamed w r f h) e

  on_drive-Delivered :
      (r : DownloadRequest) (expected : ℤ) (files : Staging) (drive : Result Fault Text)
      (path : Text)
      → (on_drive k d w r expected files drive).outcome ≡ ok path
      → (id : Text) × (drive ≡ ok id)
        × Delivered
            (record r { drive_id = id })
            expected
            path
            (on_drive k d w r expected files drive).files
  on_drive-Delivered r expected files (err fault) path e = absurd (cc)
  on_drive-Delivered r expected files (ok id) path e =
      (id, refl, found_file-Delivered (record r { drive_id = id }) expected files _ path refl e)

  at_path-Delivered :
      (r : DownloadRequest) (expected : ℤ) (files : Staging) (clean : Result PathFault Text)
      (path : Text)
      → (at_path k d w r expected files clean).outcome ≡ ok path
      → (p : Text) × (id : Text) × IsOnDrive w r.drive_id id
        × (clean ≡ ok p)
        × Delivered
            (record r { cloud_path = p; drive_id = id })
            expected
            path
            (at_path k d w r expected files clean).files
  at_path-Delivered r expected files (err fault) path e = absurd (cc)
  at_path-Delivered r expected files (ok p) path e =
      let on =
        on_drive-Delivered (record r { cloud_path = p }) expected files
          (drive_of w (record r { cloud_path = p })) path e in
      (p, on.0, drive_of-IsOnDrive w r on.0 on.1, refl, on.2)

-- A download that succeeds returns the staged path of an accepted cloud path, and what it found there or
-- put there is a regular file of the size of the file that the request names: by its ID on the
-- request's drive, or the backup drive if it has none, or by the accepted path, if there is no ID or nothing
-- has it and the entity at the path has no other. That file is no folder, and has the expected size where
-- one is given, that is, not negative.
pub download-Delivered :
    (k : Codec) (d : Decimal) (to_upper : Text → Text) (w : World) (r : DownloadRequest)
    (expected : ℤ) (files : Staging) (path : Text)
    → (download k d to_upper w r expected files).outcome ≡ ok path
    → (p : Text) × (clean_download_path to_upper r.cloud_path ≡ ok p)
      × ((drive : Text) × (f : CloudFile) × IsOnDrive w r.drive_id drive
          × IsNamed w drive p r.file_id f
          × (f.folder ≡ false)
          × ((expected <ℤ pos 0) ⊎ (f.size ≡ expected))
          × (path ≡ staged_path r.stage_dir p)
          × ((download k d to_upper w r expected files).files.finished ≡ regular f.size))
unfolding download with_defaults
download-Delivered k d to_upper w r expected files path e =
    elim (Bool-cases (is_empty r.stage_dir)) [
      | inl no_dir ↦ absurd (no_path (rw no_dir at e))
      | inr dir ↦
          let got =
            at_path-Delivered k d w (with_defaults r) expected files
              (clean_download_path to_upper r.cloud_path) path (rw dir at e) in
          let (p, drive, on, clean, delivered) = got in
          rw dir (
            p,
            clean,
            (
              drive, delivered.0, on, delivered.1, delivered.2, delivered.3, delivered.4,
              delivered.5,
            ),
          )
    ]
  where
    no_path : err Fault.no_stage_dir ≡ ok path → ⊥
    no_path q = cc
