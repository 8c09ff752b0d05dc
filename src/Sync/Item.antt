-- ===== src/Sync/Item.antt =====
-- internal/sync/item.go: one file on its way from the cloud into tdrive. The live transfer rate
-- (`observe`, `resetSpeed` and the fields they set) is shown on the page only and is left out.
use tdrive_aliyunpan.Base.{
  ℕ, Bool, true, false, ◌&&◌, ◌||◌, ◌++◌, ℤ, Text, codes, text_eq, ltb, if◌then◌else◌,
}

pub data State : Type 0 where
  pending running complete failed cancelled : State

pub data Stage : Type 0 where
  idle downloading waiting_upload uploading finishing : Stage

pub record Item : Type 0 where
  pub id : Text
  pub job_id : Text
  pub job_name : Text
  pub drive_name : Text
  pub remote_path : Text
  pub file_id : Text
  pub target_dir : Text
  pub name : Text
  pub size : ℤ
  pub sha1 : Text
  pub state : State
  pub stage : Stage
  pub downloaded : ℤ
  pub uploaded : ℤ
  pub error : Text
  pub attempts : ℕ
  pub next_attempt_at : ℕ
  pub overwrite : Bool
  pub delete_after : Bool
  pub created_at : ℕ
  pub started_at : ℕ
  pub finished_at : ℕ
  pub upload_job_id : Text

abbrev pub is_pending : State → Bool
is_pending pending = true
is_pending _ = false

abbrev pub is_running : State → Bool
is_running running = true
is_running _ = false

abbrev pub is_complete : State → Bool
is_complete complete = true
is_complete _ = false

abbrev pub is_failed : State → Bool
is_failed failed = true
is_failed _ = false

abbrev pub is_cancelled : State → Bool
is_cancelled cancelled = true
is_cancelled _ = false

-- `TargetPath`.
pub target_path : Item → Text
target_path i =
    if text_eq i.target_dir (codes "/")
    then codes "/" ++ i.name
    else i.target_dir ++ codes "/" ++ i.name

-- `Active`.
abbrev pub is_active : Item → Bool
is_active i = is_pending i.state || is_running i.state

-- `WaitingToRetry`.
abbrev pub waiting_to_retry : ℕ → Item → Bool
waiting_to_retry now i = is_pending i.state && ltb now i.next_attempt_at

-- `Finished`.
abbrev pub is_finished : Item → Bool
is_finished i = is_complete i.state || (is_failed i.state || is_cancelled i.state)
