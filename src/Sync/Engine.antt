-- ===== src/Sync/Engine.antt =====
-- The engine's state (internal/sync/engine.go) and the small operations on it that hold its mutex.
-- An item pointer is the item's ID: `modify` writes to the queue's row of that ID. A run is present
-- from the claim until the transfer has unwound; `interrupted` says that its context is cancelled.
use tdrive_aliyunpan.Base.{
  ℕ, suc, ◌-◌, Bool, true, false, ◌&&◌, ◌||◌, List, [], ◌∷◌, Option, none, some, ℤ, pos, ◌+ℤ◌, ◌-ℤ◌,
  ltb_ℤ, leb_ℤ, eqb_ℤ, Text, text_eq, ltb, ◌==◌, contains, if◌then◌else◌,
}
use tdrive_aliyunpan.Base.Dict.{lookup, insert, delete}
use tdrive_aliyunpan.Settings.{Settings}
use tdrive_aliyunpan.Sync.Item.{Item, Stage}

pub record QuotaState : Type 0 where
  pub day : Text
  pub used_bytes : ℤ

pub record Run : Type 0 where
  pub cancel_requested : Bool
  pub started : Bool
  pub interrupted : Bool

pub record Engine : Type 0 where
  pub settings : Settings
  pub queue : List Item
  pub quota : QuotaState
  pub active : ℕ
  pub download_active : ℕ
  pub upload_active : ℕ
  pub reserved : ℤ
  pub stage_reserved : ℤ
  pub stage_reservations : List (Text × ℤ)
  pub scanning : Bool
  pub paused : Bool
  pub stopping : Bool
  pub dirty : Bool
  pub queue_revision : ℕ
  pub quota_revision : ℕ
  pub quota_dirty : Bool
  pub runs : List (Text × Run)
  pub cancelling : List Text
  pub deleting : List (Text × ℕ)

abbrev count_of : Option ℕ → ℕ
count_of none = 0
count_of (some n) = n

unfoldable pub is_deleting : Engine → Text → Bool
is_deleting e id = ltb 0 (count_of (lookup id e.deleting))

abbrev pub is_some : {A : Type 0} → Option A → Bool
is_some none = false
is_some (some a) = true

-- `activeRunLocked(id) != nil`
unfoldable pub has_run : Engine → Text → Bool
has_run e id = is_some (lookup id e.runs)

abbrev run_cancelled : Option Run → Bool
run_cancelled none = false
run_cancelled (some r) = r.cancel_requested

unfoldable pub cancellation_requested : Engine → Text → Bool
cancellation_requested e id = run_cancelled (lookup id e.runs) || contains e.cancelling id

-- `registerRunLocked`
unfoldable pub register_run : Text → Engine → Engine
register_run id e = record e {
  runs =
      insert id (record { cancel_requested = false; started = false; interrupted = false }) e.runs;
}

unfoldable pub mark_deleting : Text → Engine → Engine
mark_deleting id e = record e {
  deleting = insert id (suc (count_of (lookup id e.deleting))) e.deleting;
}

abbrev put_count : Text → ℕ → List (Text × ℕ) → List (Text × ℕ)
put_count id n m = if ltb 0 n then insert id n m else delete id m

unfoldable pub unmark_deleting : Text → Engine → Engine
unmark_deleting id e = record e {
  deleting = put_count id (count_of (lookup id e.deleting) - 1) e.deleting;
}

-- `delete(e.cancelling, id)`
unfoldable pub remove_text : Text → List Text → List Text
remove_text id [] = []
remove_text id (t ∷ ts) = let rest = remove_text id ts in if text_eq t id then rest else t ∷ rest

unfoldable pub mark_queue_dirty : Engine → Engine
mark_queue_dirty e = record e { queue_revision = suc e.queue_revision; dirty = true }

unfoldable pub mark_quota_dirty : Engine → Engine
mark_quota_dirty e = record e { quota_revision = suc e.quota_revision; quota_dirty = true }

-- A write through the pointer of the item with this ID.
unfoldable pub modify : Text → (Item → Item) → List Item → List Item
modify id f [] = []
modify id f (i ∷ is) = (if text_eq i.id id then f i else i) ∷ modify id f is

unfoldable pub find_item : Text → List Item → Option Item
find_item id [] = none
find_item id (i ∷ is) = if text_eq i.id id then some i else find_item id is

-- `finishActive`
unfoldable pub finish_active : Engine → Engine
finish_active e = record e { active = e.active - 1 }

-- `releaseReservation`
unfoldable pub release_reservation : ℤ → Engine → Engine
release_reservation size e =
    let left = e.reserved -ℤ size in
    record e { reserved = if ltb_ℤ left (pos 0) then pos 0 else left }

unfoldable pub set_stage : Text → Stage → Engine → Engine
set_stage id stage e =
    mark_queue_dirty (record e { queue = modify id (λ i. record i { stage = stage }) e.queue })

-- What `noteDownload` writes.
abbrev clamp_done : ℤ → ℤ → ℤ
clamp_done size done =
    let floor : ℤ = if ltb_ℤ done (pos 0) then pos 0 else done in
    if leb_ℤ (pos 0) size && ltb_ℤ size floor then size else floor

abbrev pub note_row : Text → ℤ → Option Item → Engine → Engine
note_row id done none e = e
note_row id done (some i) e =
    let now = clamp_done i.size done in
    if eqb_ℤ now i.downloaded
    then e
    else mark_queue_dirty
        (record e { queue = modify id (λ r. record r { downloaded = now }) e.queue })

unfoldable pub note_download : Text → ℤ → Engine → Engine
note_download id done e = note_row id done (find_item id e.queue) e

-- The locked part of `chargeQuotaDelta`.
abbrev clamp_uploaded : ℤ → ℤ → ℤ
clamp_uploaded size sent = if leb_ℤ (pos 0) size && ltb_ℤ size sent then size else sent

unfoldable pub charge_quota_delta : Text → ℤ → Engine → Engine
charge_quota_delta id delta e = mark_queue_dirty (record e {
  queue =
      modify id (λ i. record i { uploaded = clamp_uploaded i.size (i.uploaded +ℤ delta) }) e.queue;
})

-- `persistNow` and `persistQuotaNow`, once the host has answered: whether the write succeeded, and
-- the revision that was written.
unfoldable pub persisted : ℕ → Bool → Engine → Engine
persisted revision written e =
    if written && (e.queue_revision == revision) then record e { dirty = false } else e

unfoldable pub quota_persisted : ℕ → Bool → Engine → Engine
quota_persisted revision written e =
    if written && (e.quota_revision == revision) then record e { quota_dirty = false } else e
