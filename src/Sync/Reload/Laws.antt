-- ===== src/Sync/Reload/Laws.antt =====
-- Which rows a change of the settings leaves on the queue.
use tdrive_aliyunpan.Base.{◌⊎◌, contains, ◌≡◌, false, List, Text}
use tdrive_aliyunpan.Settings.{Settings}
use tdrive_aliyunpan.Sync.Item.{Item, State}
use tdrive_aliyunpan.Sync.Engine.{Engine}

-- A row stays if its job is not among the changed ones, or if it is running or complete.
abbrev pub Stays : List Text → Item → Type 0
Stays changed i =
    (contains changed i.job_id ≡ false) ⊎ (i.state ≡ State.running) ⊎ (i.state ≡ State.complete)
