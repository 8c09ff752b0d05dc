-- ===== src/Sync/History.antt =====
-- `trimHistoryLocked` of internal/sync/engine.go. `sort.Slice` by the time of finishing is an
-- insertion sort: the order among equal times is not determined by the code.
pub mod Kept
use tdrive_aliyunpan.Base.{
  ℕ, ◌-◌, Bool, not, ◌&&◌, List, [], ◌∷◌, Text, leb, contains, length, take, if◌then◌else◌,
}
use tdrive_aliyunpan.Sync.Item.{Item, is_finished}
use tdrive_aliyunpan.Sync.Engine.{Engine, has_run, is_deleting}

abbrev pub history_limit : ℕ
history_limit = 500

-- What the history counts: a finished row that nothing works on and no cleanup waits for.
unfoldable pub is_history : Engine → Item → Bool
is_history e i =
    is_finished i && (not i.delete_after && (not (has_run e i.id) && not (is_deleting e i.id)))

unfoldable pub history : Engine → List Item → List Item
history e [] = []
history e (i ∷ is) = let rest = history e is in if is_history e i then i ∷ rest else rest

pub insert_by_finish : Item → List Item → List Item
insert_by_finish i [] = i ∷ []
insert_by_finish i (j ∷ js) =
    if leb i.finished_at j.finished_at then i ∷ j ∷ js else j ∷ insert_by_finish i js

pub sort_by_finish : List Item → List Item
sort_by_finish [] = []
sort_by_finish (i ∷ is) = insert_by_finish i (sort_by_finish is)

abbrev pub ids : List Item → List Text
ids [] = []
ids (i ∷ is) = i.id ∷ ids is

-- The rows that `drop` does not name.
unfoldable pub keep_rows : List Text → List Item → List Item
keep_rows drop [] = []
keep_rows drop (i ∷ is) =
    let rest = keep_rows drop is in if contains drop i.id then rest else i ∷ rest

abbrev pub oldest : List Item → List Item
oldest finished = take (length finished - history_limit) (sort_by_finish finished)

-- The rows dropped, and the engine without them.
unfoldable pub trim_history : Engine → List Item × Engine
trim_history e =
    let finished = history e e.queue in
    if leb (length finished) history_limit
    then ([], e)
    else (oldest finished, record e { queue = keep_rows (ids (oldest finished)) e.queue })
