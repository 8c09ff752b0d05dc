-- ===== src/Sync/Runs.antt =====
-- `watchItem` of internal/sync/engine.go: how a transfer's run begins and unwinds.
use tdrive_aliyunpan.Base.{Bool, true, ◌||◌, ◌∷◌, Option, none, some, Text, contains, if◌then◌else◌}
use tdrive_aliyunpan.Base.Dict.{lookup, insert, delete}
use tdrive_aliyunpan.Sync.Engine.{Engine, Run, register_run, has_run, remove_text}

abbrev pub started_run : Bool → Run → Run
started_run stop r = record {
  cancel_requested = stop;
  started = true;
  interrupted = stop || r.interrupted;
}

abbrev pub start_run : Text → Option Run → Engine → Engine
start_run id none e = e
start_run id (some r) e =
    let stop = r.cancel_requested || contains e.cancelling id in
    record e {
      runs = insert id (started_run stop r) e.runs;
      cancelling = if stop then id ∷ remove_text id e.cancelling else e.cancelling;
    }

-- The run of a claim by the scheduler is there already; other callers have none yet.
unfoldable pub watch_item : Text → Engine → Engine
watch_item id e =
    let registered = if has_run e id then e else register_run id e in
    start_run id (lookup id registered.runs) registered

-- The function that `watchItem` returns: the transfer has unwound.
unfoldable pub unwatch_item : Text → Engine → Engine
unwatch_item id e =
    if has_run e id
    then record e { runs = delete id e.runs; cancelling = remove_text id e.cancelling }
    else e
