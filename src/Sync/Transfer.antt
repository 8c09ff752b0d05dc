-- ===== src/Sync/Transfer.antt =====
-- `transfer` of internal/sync/transfer.go: one item from end to end, as it composes staging, upload, the
-- ends of a transfer and the removal of the cloud's original. What other goroutines do to the engine
-- in between is an argument, at the places where `transfer` looks for a cancellation. The refresh of the
-- login probe is left out.
pub mod Laws
pub mod Tests
use tdrive_aliyunpan.Base.{
  ℕ, zero, suc, ◌+◌, ◌/◌, Bool, true, false, not, ◌||◌, List, [], ◌∷◌, Option, none, some, ℤ, Text,
  codes, ◌++◌, Result, ok, err, ◌==◌, if◌then◌else◌,
}
use tdrive_aliyunpan.Sync.Item.{Item, Stage}
use tdrive_aliyunpan.Sync.Engine.{
  Engine, find_item, modify, set_stage, mark_queue_dirty, cancellation_requested,
  release_reservation,
}
use tdrive_aliyunpan.Sync.Outcome.{Writes, Completed, complete, fail}
use tdrive_aliyunpan.Sync.Runs.{watch_item, unwatch_item}
use tdrive_aliyunpan.Sync.Room.{acquire_upload_slot, release_upload_slot}
use tdrive_aliyunpan.Sync.Retries.{
  ErrorKind, not_logged_in, stage_room, source_changed, path_not_found, other, Failure, Context,
  Format, Settled, defer_until_login, defer_until_resource, retry_later,
}
use tdrive_aliyunpan.Sync.Staging.{Cloud, stage}
use tdrive_aliyunpan.Sync.Upload.{Host, Session, upload}
use tdrive_aliyunpan.Sync.Owner.{User, upload_owner}

-- The answers to what one call asks, and the steps of others. `slot_error` is the context's, if the
-- wait for an upload slot ends with it; `resolves`, `removes` and `wait_cut` are read at the removal's try.
pub record Answers : Type 0 where
  pub cloud : Cloud
  pub users : Result Text (List User)
  pub open_error : Option Text
  pub host : Host
  pub upload_limit : ℤ
  pub slot_error : Text
  pub writes : Writes
  pub resolves : ℕ → Bool
  pub removes : ℕ → Option ErrorKind
  pub wait_cut : ℕ → Bool
  pub after_stage : Engine → Engine
  pub after_upload : Engine → Engine
  pub after_complete : Engine → Engine
  pub context : Context
  pub offset : Option ℕ
  pub format : Format
  pub now : ℕ

-- Where `transfer` returns: the engine before the deferred calls, whether to wake the scheduler, whether
-- `discardStaged` is set, and whether the item is complete.
pub record Transferred : Type 0 where
  pub engine : Engine
  pub wake : Bool
  pub discard : Bool
  pub completed : Bool
  pub dropped : List Item

abbrev pub millis : Answers → ℕ
millis a = a.now / 1_000_000

abbrev pub cancelled_by_operator : Engine → Transferred
cancelled_by_operator e = record {
  engine = e;
  wake = true;
  discard = true;
  completed = false;
  dropped = [];
}

abbrev pub kept : Bool → Engine → Transferred
kept wake e = record { engine = e; wake = wake; discard = false; completed = false; dropped = [] }

abbrev pub settled : Settled → Transferred
settled s = record {
  engine = s.engine;
  wake = s.wake;
  discard = false;
  completed = false;
  dropped = s.dropped;
}

abbrev pub failed : List Item × Engine → Transferred
failed (dropped, e) = record {
  engine = e;
  wake = true;
  discard = false;
  completed = false;
  dropped = dropped;
}

abbrev pub later : Answers → Text → Text → Engine → Transferred
later a id message e = settled (retry_later a.format a.context a.offset a.now id message e)

-- The errors of `stage`, told apart.
abbrev pub by_kind : Answers → Text → ErrorKind → Text → Engine → Transferred
by_kind a id not_logged_in message e = kept false (defer_until_login id (millis a) e)
by_kind a id stage_room message e = kept false (defer_until_resource id message (millis a) e)
by_kind a id source_changed message e = failed (fail id (millis a) message e)
by_kind a id path_not_found message e = failed (fail id (millis a) message e)
by_kind a id other message e = later a id message e

unfoldable pub unstaged : Answers → Text → Failure → Engine → Transferred
unstaged a id f e =
    if cancellation_requested e id then cancelled_by_operator e else by_kind a id f.kind f.message e

unfoldable pub not_uploaded : Answers → Text → Text → Engine → Transferred
not_uploaded a id message e =
    if cancellation_requested e id then cancelled_by_operator e else later a id message e

-- `removeCloudOriginal`: a path that is not there has been removed.
abbrev pub was_removed : Bool → Option ErrorKind → Bool
was_removed false answer = false
was_removed true none = true
was_removed true (some path_not_found) = true
was_removed true (some _) = false

abbrev pub clear_delete : Text → Engine → Engine
clear_delete id e =
    mark_queue_dirty
      (record e { queue = modify id (λ i. record i { delete_after = false }) e.queue })

-- The loop over the tries, with those that are left and the try's number; a wait may end with the context.
unfoldable pub remove_original : ℕ → ℕ → Answers → Text → Engine → Engine
remove_original zero try a id e = e
remove_original (suc left) try a id e =
    let again = remove_original left (suc try) a id e in
    if was_removed (a.resolves try) (a.removes try)
    then clear_delete id e
    else if a.wait_cut try
    then e
    else again

abbrev pub row_now : Item → Option Item → Item
row_now item none = item
row_now item (some row) = row

abbrev pub finished : Answers → Bool → Item → Completed → Transferred
finished a delete_local item c =
    let e = a.after_complete c.engine in
    if not c.done
    then kept true (
        if cancellation_requested e item.id
        then e
        else defer_until_resource item.id (codes "保存完成状态失败，稍后重试") (millis a) e)
    else record {
      engine = if item.delete_after then remove_original 3 0 a item.id e else e;
      wake = true;
      discard = delete_local;
      completed = true;
      dropped = c.discarded;
    }

-- After an upload without an error.
unfoldable pub finish : Answers → Bool → Item → Engine → Transferred
finish a delete_local item e =
    let ending = set_stage item.id Stage.finishing e in
    let row = row_now item (find_item item.id ending.queue) in
    if cancellation_requested e item.id
    then cancelled_by_operator e
    else finished a delete_local row (complete a.writes row (millis a) ending)

abbrev pub uploaded : Answers → Bool → Item → Option Text → Engine → Transferred
uploaded a delete_local item (some message) e = not_uploaded a item.id message e
uploaded a delete_local item none e = finish a delete_local item e

abbrev pub opened : Answers → Item → Option Text → Engine → Option Text × Engine
opened a item (some message) e = (some (codes "打开暂存文件: " ++ message), e)
opened a item none e =
    let (result, s) = upload a.host item (record { engine = e; calls = []; asked = 0 }) in
    (result, s.engine)

-- `upload` with the owner and the file.
abbrev pub owned : Answers → Item → Result Text Text → Engine → Option Text × Engine
owned a item (err message) e = (some message, e)
owned a item (ok owner) e = opened a item a.open_error e

abbrev pub in_upload_slot : Answers → Bool → Item → Engine → Option Engine → Transferred
in_upload_slot a delete_local item e none = not_uploaded a item.id a.slot_error (a.after_upload e)
in_upload_slot a delete_local item e (some held) =
    let (result, sent) = owned a item (upload_owner held.settings.owner_user_id a.users) held in
    uploaded a delete_local item result (a.after_upload (release_upload_slot sent))

abbrev pub staged : Answers → Bool → Item → Result Failure Text × Engine → Transferred
staged a delete_local item (err f, e) = unstaged a item.id f (a.after_stage e)
staged a delete_local item (ok path, e) =
    let waiting = set_stage item.id Stage.waiting_upload (a.after_stage e) in
    in_upload_slot a delete_local item waiting (acquire_upload_slot a.upload_limit waiting)

-- The body of `transfer`.
unfoldable pub pipeline : Answers → Item → Engine → Transferred
pipeline a item e =
    staged a e.settings.delete_local_after_upload item (stage a.cloud item (watch_item item.id e))

-- `transfer` with its deferred calls: the staged work, the run and the reservation.
unfoldable pub transfer : Answers → Item → Engine → Transferred
transfer a item e =
    let t = pipeline a item e in
    record t {
      engine = release_reservation item.size (unwatch_item item.id t.engine);
      discard = t.discard || cancellation_requested t.engine item.id;
    }
