-- ===== src/Cloud/Listing/Deletions.antt =====
-- Which deletions the client asks for (`Remove` and `RemoveByID` of internal/aliyunpan/source_client.go).
use tdrive_aliyunpan.Base.{
  ◌≡◌, ◌≢◌, ◌⊎◌, refl, subst, true, false, ◌||◌, Option, none, some, Text, codes, is_empty, text_eq,
  text_eq_iff, Bool-cases, inl, inr, Result, ok, err, arith,
}
use tdrive_aliyunpan.Settings.Paths.{trim_space}
use tdrive_aliyunpan.Cloud.Request.{RequestError}
use tdrive_aliyunpan.Cloud.Drives.{Drive}
use tdrive_aliyunpan.Cloud.Listing.{
  ListError, FileItem, CloudAnswers, answered, clean_cloud_path, file_by_path, selected_drive,
  remove_by_id, remove_file, remove_on, remove_path, remove,
}

-- The drive of a deletion: the one that is given, or the backup drive if none is.
abbrev pub IsDrive : Text → Text → Option Drive → Type 0
IsDrive drive id backup =
    ((is_empty (trim_space id) ≡ false) × (drive ≡ trim_space id))
    ⊎ ((is_empty (trim_space id) ≡ true) × ((d : Drive) × (backup ≡ some d) × (drive ≡ d.id)))

-- What a deletion that was asked for is of: the file that the cloud has on the drive at the path, by IDs that
-- are not empty.
abbrev pub Names : Text → Text → Text → CloudAnswers → Text → Type 0
Names drive file drive_id c path =
    IsDrive drive drive_id c.backup_drive
    × (is_empty drive ≡ false)
    × (is_empty file ≡ false)
    × ((item : FileItem) × (c.file drive path ≡ ok item) × (item.file_id ≡ file))

-- So far without where the drive comes from.
abbrev Points : Text → Text → CloudAnswers → Text → Type 0
Points drive file c path =
    (is_empty drive ≡ false)
    × (is_empty file ≡ false)
    × ((item : FileItem) × (file_by_path c.root c.file drive path ≡ ok item)
        × (item.file_id ≡ file))

abbrev Asked : Type 0
Asked = Option (Text × Text)

not_asked : (drive file : Text) → let asked : Asked = none in asked ≡ some (drive, file) → ⊥
not_asked drive file q = cc

was_asked :
    (id file_id drive file : Text)
    → let asked : Asked = some (id, file_id) in
      asked ≡ some (drive, file) → (id ≡ drive) × (file_id ≡ file)
was_asked id file_id drive file q = (cc, cc)

remove_file-Points :
    (c : CloudAnswers) (id path drive file : Text) (found : Result ListError FileItem)
    → file_by_path c.root c.file id path ≡ found
    → (remove_file c id found).0 ≡ some (drive, file)
    → (id ≡ drive) × Points drive file c path
unfolding remove_by_id
remove_file-Points c id path drive file (err e) h k = absurd (cc)
remove_file-Points c id path drive file (ok item) h k =
    elim (Bool-cases (is_empty id || is_empty item.file_id)) [
      | inl e ↦ absurd (not_asked drive file (rw e at k))
      | inr e ↦
          let q = was_asked id item.file_id drive file (rw e at k) in
          (
            q.0,
            (
              ground (arith, e, q),
              ground (arith, e, q),
              (item, subst (λ d. file_by_path c.root c.file d path ≡ ok item) q.0 h, q.1),
            ),
          )
    ]

selected_drive-IsDrive :
    (id : Text) (backup : Option Drive) (drive : Text)
    → selected_drive id backup ≡ some drive
    → IsDrive drive id backup
selected_drive-IsDrive id backup drive h = elim (Bool-cases (is_empty (trim_space id))) [
  | inl e ↦ inr (e, by_backup backup (rw e at h))
  | inr e ↦ inl (e, given (rw e at h))
]
  where
    given : some (trim_space id) ≡ some drive → drive ≡ trim_space id
    given q = cc

    by_backup :
        (b : Option Drive)
        → (elim b [ none ↦ none | some d ↦ some d.id ]) ≡ some drive
        → (d : Drive) × (b ≡ some d) × (drive ≡ d.id)
    by_backup none q = absurd (cc)
    by_backup (some d) q = (d, refl, cc)

selected_lem :
    (c : CloudAnswers) (drive_id : Text) (selected : Option Text) (path drive file : Text)
    → selected_drive drive_id c.backup_drive ≡ selected
    → (remove_on c path selected).0 ≡ some (drive, file)
    → IsDrive drive drive_id c.backup_drive × Points drive file c path
selected_lem c drive_id none path drive file s h = absurd (cc)
selected_lem c drive_id (some id) path drive file s h =
    let r = remove_file-Points c id path drive file (file_by_path c.root c.file id path) refl h in
    (
      subst (λ d. IsDrive d drive_id c.backup_drive) r.0
          (selected_drive-IsDrive drive_id c.backup_drive id s),
      r.1,
    )

-- Off the root the file is what the cloud answers.
Points-Names :
    (c : CloudAnswers) (drive_id path drive file : Text)
    → text_eq path (codes "/") ≡ false
    → IsDrive drive drive_id c.backup_drive × Points drive file c path
    → Names drive file drive_id c path
unfolding file_by_path
Points-Names c drive_id path drive file e (d, (a, b, (item, h, q))) =
    (d, a, b, (item, plain (c.file drive path) refl (rw e at h), q))
  where
    plain :
        (r : Result RequestError FileItem)
        → c.file drive path ≡ r
        → answered r ≡ ok item
        → r ≡ ok item
    plain (ok x) k q = cc
    plain (err x) k q = cc

-- A deletion by path that is asked for is of the file that the cloud has at the cleaned path, which is not the
-- root of the drive, on the drive that is given, or on the backup drive if none is; and it names the
-- drive and the file by IDs that are not empty.
pub remove-Names :
    (c : CloudAnswers) (cloud_path drive_id drive file : Text)
    → (remove c cloud_path drive_id).0 ≡ some (drive, file)
    → (path : Text) × (clean_cloud_path cloud_path ≡ ok path)
      × (path ≢ codes "/")
      × Names drive file drive_id c path
unfolding remove
remove-Names c cloud_path drive_id drive file h = by_path (clean_cloud_path cloud_path) refl h
  where
    by_path :
        (cleaned : Result ListError Text)
        → clean_cloud_path cloud_path ≡ cleaned
        → (remove_path c drive_id cleaned).0 ≡ some (drive, file)
        → (path : Text) × (clean_cloud_path cloud_path ≡ ok path)
          × (path ≢ codes "/")
          × Names drive file drive_id c path
    by_path (err e) k q = absurd (cc)
    by_path (ok path) k q = elim (Bool-cases (text_eq path (codes "/"))) [
      | inl e ↦ absurd (not_asked drive file (rw e at q))
      | inr e ↦ (
        path,
        k,
        (λ r. ground (arith, e, (text_eq_iff path (codes "/")).1 r)),
        Points-Names c drive_id path drive file e (
            selected_lem c drive_id (selected_drive drive_id c.backup_drive) path drive file refl
              (rw e at q)),
      )
    ]
