-- ===== src/Cloud/Drives.antt =====
-- The account's drives: `NormalizeDriveName`, `resolveDrive`, `drivesFromInfo`, `Drives` and `ResolveDrive` of
-- internal/aliyunpan (source_models.go, source_client.go), and `resolveDriveForScan` of internal/sync/scan.go.
use tdrive_aliyunpan.Base.{
  ◌≡◌, refl, false, not, ◌&&◌, List, [], ◌∷◌, ◌++◌, Option, none, some, Text, codes, All, is_empty,
  text_eq, text_eq_iff, contains, IsDistinct, Result, ok, err, arith, Bool-cases, inl, inr,
  if◌then◌else◌,
}
use tdrive_aliyunpan.Settings.Paths.{trim_space}
use tdrive_aliyunpan.Cloud.Request.{Words, RequestError}

abbrev pub drive_backup : Text
drive_backup = codes "backup"

abbrev pub drive_resource : Text
drive_resource = codes "resource"

abbrev backup_names : List Text
backup_names = [] ∷ drive_backup ∷ codes "file" ∷ codes "备份盘" ∷ codes "文件" ∷ []

abbrev resource_names : List Text
resource_names = drive_resource ∷ codes "资源盘" ∷ codes "资源库" ∷ []

-- `NormalizeDriveName`
unfoldable pub normalize_drive_name : Words → Text → Option Text
normalize_drive_name s value =
    let name = s.to_lower (trim_space value) in
    if contains backup_names name
    then some drive_backup
    else if contains resource_names name
    then some drive_resource
    else none

pub record Drive : Type 0 where
  pub id : Text
  pub name : Text
  pub kind : Text

-- The IDs of `openapi.DriveInfoResult`, empty where there is none.
pub record DriveInfo : Type 0 where
  pub backup_drive_id : Text
  pub resource_drive_id : Text
  pub default_drive_id : Text

abbrev backup_id : DriveInfo → Text
backup_id i =
    let first =
      if is_empty i.backup_drive_id
        && (not (is_empty i.default_drive_id)
            && not (text_eq i.default_drive_id i.resource_drive_id))
      then i.default_drive_id
      else i.backup_drive_id in
    if is_empty first && is_empty i.resource_drive_id then i.default_drive_id else first

abbrev backup_drives : Text → List Drive
backup_drives id =
    if is_empty id then [] else record { id = id; name = codes "备份盘"; kind = drive_backup } ∷ []

abbrev resource_drives : Text → Text → List Drive
resource_drives backup id =
    if not (is_empty id) && not (text_eq id backup)
    then record { id = id; name = codes "资源库"; kind = drive_resource } ∷ []
    else []

-- `drivesFromInfo`
unfoldable pub drives_from_info : DriveInfo → List Drive
drives_from_info i =
    backup_drives (backup_id i) ++ resource_drives (backup_id i) i.resource_drive_id

-- The IDs that the credentials remember.
pub record KnownDrives : Type 0 where
  pub backup : Text
  pub resource : Text

abbrev pub or_known : Text → Text → Text
or_known known id = if is_empty id then known else id

-- `Drives`, with the answer of `fetchDriveInfo`.
unfoldable pub drives :
    KnownDrives → Result RequestError DriveInfo → Result RequestError (List Drive) × KnownDrives
unfolding drives_from_info
drives k (err e) = (err e, k)
drives k (ok info) =
    let backup = or_known k.backup info.backup_drive_id in
    let resource = or_known k.resource info.resource_drive_id in
    (
      ok (
          drives_from_info
            (record info { backup_drive_id = backup; resource_drive_id = resource })),
      record { backup = backup; resource = resource },
    )

-- `resolveDrive`, and `resolveDriveForScan`, which is the same loop.
unfoldable pub resolve_drive : Text → List Drive → Option Drive
resolve_drive kind [] = none
resolve_drive kind (d ∷ drives) = if text_eq d.kind kind then some d else resolve_drive kind drives

-- What is found is of the kind that was asked for.
pub resolve_drive-kind :
    (kind : Text) (list : List Drive) (d : Drive) → resolve_drive kind list ≡ some d → d.kind ≡ kind
unfolding resolve_drive
resolve_drive-kind kind [] d h = absurd (cc)
resolve_drive-kind kind (e ∷ list) d h =
    ground (arith, text_eq_iff e.kind kind, resolve_drive-kind kind list d)

abbrev ids : List Drive → List Text
ids [] = []
ids (d ∷ drives) = d.id ∷ ids drives

abbrev kinds : List Drive → List Text
kinds [] = []
kinds (d ∷ drives) = d.kind ∷ kinds drives

-- The drives have an ID each, and no two have one ID or one kind.
pub drives_from_info-IsDistinct :
    (i : DriveInfo)
    → IsDistinct (ids (drives_from_info i))
      × IsDistinct (kinds (drives_from_info i))
      × All (λ d. is_empty d.id ≡ false) (drives_from_info i)
unfolding drives_from_info
drives_from_info-IsDistinct i = by_ids (backup_id i) i.resource_drive_id
  where
    by_ids :
        (backup resource : Text)
        → let found = backup_drives backup ++ resource_drives backup resource in
          IsDistinct (ids found) × IsDistinct (kinds found) × All (λ d. is_empty d.id ≡ false) found
    by_ids [] [] = (tt, tt, tt)
    by_ids [] (c ∷ s) = ((refl, tt), (refl, tt), (refl, tt))
    by_ids (c ∷ s) [] = ((refl, tt), (refl, tt), (refl, tt))
    by_ids (c ∷ s) (d ∷ t) = elim (Bool-cases (text_eq (d ∷ t) (c ∷ s))) [
      | inl e ↦ rw e ((refl, tt), (refl, tt), (refl, tt))
      | inr e ↦ rw e ((ground (arith, e), (refl, tt)), (refl, (refl, tt)), (refl, (refl, tt)))
    ]
