-- ===== src/Sync/Room.antt =====
-- The staging area's room and the transfer slots of internal/sync/engine.go: `stageLimit`,
-- `reserveStageRoom`, `acquireDownloadSlot`, `acquireUploadSlot` and the functions they return, which
-- run once. A wait for a slot is an answer of none: the caller tries again after the next release.
pub mod Laws
use tdrive_aliyunpan.Base.{
  ℕ, suc, ◌-◌, Bool, true, false, ◌&&◌, List, [], ◌∷◌, Option, none, some, ℤ, pos, ◌+ℤ◌, ◌-ℤ◌,
  ltb_ℤ, leb_ℤ, Text, is_empty, ltb, if◌then◌else◌,
}
use tdrive_aliyunpan.Base.Dict.{lookup, insert, delete}
use tdrive_aliyunpan.Settings.{default_download_concurrency}
use tdrive_aliyunpan.Sync.Engine.{Engine}

-- `stageLimit`; `cache_limit` is the host's.
abbrev pub stage_limit : ℤ → Engine → ℤ
stage_limit cache_limit e =
    if ltb_ℤ (pos 0) e.settings.stage_limit_bytes then e.settings.stage_limit_bytes else cache_limit

abbrev pub bytes_of : Option ℤ → ℤ
bytes_of none = pos 0
bytes_of (some n) = n

abbrev pub reserve_entry : Text → ℤ → List (Text × ℤ) → List (Text × ℤ)
reserve_entry id size m = if is_empty id then m else insert id (bytes_of (lookup id m) +ℤ size) m

unfoldable pub take_room : Text → ℤ → Engine → Engine
take_room id size e = record e {
  stage_reserved = e.stage_reserved +ℤ size;
  stage_reservations = reserve_entry id size e.stage_reservations;
}

pub data Room : Type 0 where
  negative_size no_room unlimited reserved : Room

-- `reserveStageRoom`; `used` is what `stagedBytesExcluding` measures.
unfoldable pub reserve_stage_room : Text → ℤ → ℤ → ℤ → Engine → Room × Engine
reserve_stage_room id size used cache_limit e =
    let limit = stage_limit cache_limit e in
    let taken = used +ℤ e.stage_reserved in
    if ltb_ℤ size (pos 0)
    then (negative_size, e)
    else if leb_ℤ limit (pos 0)
    then (unlimited, e)
    else if ltb_ℤ limit (taken +ℤ size) && ltb_ℤ (pos 0) taken
    then (no_room, e)
    else (reserved, take_room id size e)

abbrev pub put_left : Text → ℤ → List (Text × ℤ) → List (Text × ℤ)
put_left id left m = if leb_ℤ left (pos 0) then delete id m else insert id left m

abbrev pub release_entry : Text → ℤ → List (Text × ℤ) → List (Text × ℤ)
release_entry id size m = if is_empty id then m else put_left id (bytes_of (lookup id m) -ℤ size) m

-- The function that a reservation returns.
unfoldable pub release_stage_room : Text → ℤ → Engine → Engine
release_stage_room id size e =
    let left = e.stage_reserved -ℤ size in
    record e {
      stage_reserved = if ltb_ℤ left (pos 0) then pos 0 else left;
      stage_reservations = release_entry id size e.stage_reservations;
    }

abbrev pub at_least_one : ℤ → ℤ → ℤ
at_least_one n other = if ltb_ℤ n (pos 1) then other else n

unfoldable pub acquire_download_slot : Engine → Option Engine
acquire_download_slot e =
    if ltb_ℤ (pos e.download_active)
      (at_least_one e.settings.download_concurrency default_download_concurrency)
    then some (record e { download_active = suc e.download_active })
    else none

unfoldable pub release_download_slot : Engine → Engine
release_download_slot e = record e { download_active = e.download_active - 1 }

unfoldable pub acquire_upload_slot : ℤ → Engine → Option Engine
acquire_upload_slot limit e =
    if ltb_ℤ (pos e.upload_active) (at_least_one limit (pos 1))
    then some (record e { upload_active = suc e.upload_active })
    else none

unfoldable pub release_upload_slot : Engine → Engine
release_upload_slot e = record e { upload_active = e.upload_active - 1 }
