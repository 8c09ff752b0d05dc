-- ===== src/Sync/Staging.antt =====
-- `stage` of internal/sync/transfer.go: a download slot and staging room are held while the cloud's file
-- is fetched. The cloud client's answers and the progress that it reports are arguments.
pub mod Laws
use tdrive_aliyunpan.Base.{
  Bool, true, false, not, List, [], ◌∷◌, Option, none, some, ℤ, Text, codes, Result, ok, err,
  if◌then◌else◌,
}
use tdrive_aliyunpan.Sync.Item.{Item, Stage}
use tdrive_aliyunpan.Sync.Engine.{Engine, set_stage, note_download}
use tdrive_aliyunpan.Sync.Room.{
  Room, negative_size, no_room, unlimited, reserved, reserve_stage_room, release_stage_room,
  acquire_download_slot, release_download_slot,
}
use tdrive_aliyunpan.Sync.Retries.{Failure, ErrorKind}

-- What the cloud client answers, and the host's cache limit. `slot` is the context's error, if the wait
-- for a slot ends with it; `used` is what the walk of the staging tree measures.
pub record Cloud : Type 0 where
  pub configured : Bool
  pub slot : Failure
  pub used : ℤ
  pub cache_limit : ℤ
  pub room_error : Room → Text
  pub resolve_drive : Option Failure
  pub set_download_rate : Option Failure
  pub progress : List ℤ
  pub download : Result Failure Text

abbrev pub failure : ErrorKind → Text → Failure
failure kind message = record { kind = kind; message = message }

abbrev pub note_all : Text → List ℤ → Engine → Engine
note_all id [] e = e
note_all id (done ∷ progress) e = note_all id progress (note_download id done e)

-- What runs between the reservation and its release.
abbrev pub fetched : Option Failure → Cloud → Item → Engine → Result Failure Text × Engine
fetched (some f) c item e = (err f, e)
fetched none c item e = (c.download, note_all item.id c.progress e)

abbrev pub resolved : Option Failure → Cloud → Item → Engine → Result Failure Text × Engine
resolved (some f) c item e = (err f, e)
resolved none c item e = fetched c.set_download_rate c item (set_stage item.id Stage.downloading e)

abbrev pub release_room : Room → Item → Engine → Engine
release_room reserved item e = release_stage_room item.id item.size e
release_room _ item e = e

-- With a slot: the room, the work, and both releases.
abbrev pub in_room : Cloud → Item → Room × Engine → Result Failure Text × Engine
in_room c item (negative_size, e) =
    (err (failure ErrorKind.other (c.room_error negative_size)), release_download_slot e)
in_room c item (no_room, e) =
    (err (failure ErrorKind.stage_room (c.room_error no_room)), release_download_slot e)
in_room c item (room, e) =
    let (result, worked) = resolved c.resolve_drive c item e in
    (result, release_download_slot (release_room room item worked))

abbrev pub in_slot : Cloud → Item → Engine → Option Engine → Result Failure Text × Engine
in_slot c item e none = (err c.slot, e)
in_slot c item e (some held) =
    in_room c item (reserve_stage_room item.id item.size c.used c.cache_limit held)

-- `stage`
unfoldable pub stage : Cloud → Item → Engine → Result Failure Text × Engine
stage c item e =
    if not c.configured
    then (err (failure ErrorKind.other (codes "aliyunpan 尚未配置")), e)
    else in_slot c item e (acquire_download_slot e)
