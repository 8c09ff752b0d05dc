-- ===== src/Sync/Transfer/Laws.antt =====
-- When a transfer's staged bytes are thrown away.
use tdrive_aliyunpan.Base.{
  ◌≡◌, refl, ◌⊎◌, Bool, true, false, not, ◌||◌, Option, none, some, Text, Result, ok, err, arith,
  Bool-cases, inl, inr, if◌then◌else◌,
}
use tdrive_aliyunpan.Sync.Item.{Item, Stage}
use tdrive_aliyunpan.Sync.Engine.{Engine, find_item, set_stage, cancellation_requested}
use tdrive_aliyunpan.Sync.Outcome.{Completed}
use tdrive_aliyunpan.Sync.Runs.{watch_item}
use tdrive_aliyunpan.Sync.Retries.{
  ErrorKind, not_logged_in, stage_room, source_changed, path_not_found, other, Failure,
}
use tdrive_aliyunpan.Sync.Staging.{stage}
use tdrive_aliyunpan.Sync.Transfer.{
  Answers, Transferred, cancelled_by_operator, by_kind, unstaged, not_uploaded, row_now, finished,
  finish, uploaded, in_upload_slot, staged, pipeline, transfer,
}

-- Staged work is discarded only for a cancellation, or after completion under the policy.
abbrev Discards : Bool → Text → Transferred → Type 0
Discards delete_local id t =
    t.discard ≡ true
    → (cancellation_requested t.engine id ≡ true) ⊎ ((t.completed ≡ true) × (delete_local ≡ true))

or_kept : {b c : Bool} → b ≡ false → (b || c) ≡ true → c ≡ true
or_kept e h = ground arith

module _ (a : Answers) (delete_local : Bool) where
  stopped_or :
      (id : Text) (t : Transferred) (e : Engine)
      → t.discard ≡ false
      → Discards delete_local id
          (if cancellation_requested e id then cancelled_by_operator e else t)
  stopped_or id t e h = elim (Bool-cases (cancellation_requested e id)) [
    | inl c ↦ rw c (λ d. inl c)
    | inr c ↦ rw c (λ d. absurd (ground arith))
  ]

  by_kind-keeps :
      (id message : Text) (k : ErrorKind) (e : Engine) → (by_kind a id k message e).discard ≡ false
  by_kind-keeps id message not_logged_in e = refl
  by_kind-keeps id message stage_room e = refl
  by_kind-keeps id message source_changed e = refl
  by_kind-keeps id message path_not_found e = refl
  by_kind-keeps id message other e = refl

  finished-Discards :
      (item : Item) (c : Completed) (id : Text)
      → Discards delete_local id (finished a delete_local item c)
  finished-Discards item c id = elim (Bool-cases (not c.done)) [
    | inl n ↦ rw n (λ d. absurd (ground arith))
    | inr y ↦ rw y (λ d. inr (refl, d))
  ]

  finish-Discards :
      (item : Item) (e : Engine) → Discards delete_local item.id (finish a delete_local item e)
  unfolding finish
  finish-Discards item e = elim (Bool-cases (cancellation_requested e item.id)) [
    | inl c ↦ rw c (λ d. inl c)
    | inr c ↦ rw c (
        finished-Discards
          (row_now item (find_item item.id (set_stage item.id Stage.finishing e).queue)) _ item.id)
  ]

  uploaded-Discards :
      (item : Item) (result : Option Text) (e : Engine)
      → Discards delete_local item.id (uploaded a delete_local item result e)
  unfolding not_uploaded
  uploaded-Discards item (some message) e = stopped_or item.id _ e refl
  uploaded-Discards item none e = finish-Discards item e

  in_upload_slot-Discards :
      (item : Item) (e : Engine) (o : Option Engine)
      → Discards delete_local item.id (in_upload_slot a delete_local item e o)
  unfolding not_uploaded
  in_upload_slot-Discards item e none = stopped_or item.id _ (a.after_upload e) refl
  in_upload_slot-Discards item e (some held) = uploaded-Discards item _ _

  staged-Discards :
      (item : Item) (r : Result Failure Text × Engine)
      → Discards delete_local item.id (staged a delete_local item r)
  unfolding unstaged
  staged-Discards item (err f, e) =
      stopped_or item.id _ (a.after_stage e)
        (by_kind-keeps item.id f.message f.kind (a.after_stage e))
  staged-Discards item (ok path, e) = in_upload_slot-Discards item _ _

-- A transfer throws the staged bytes away only if its cancellation has been asked for when it ends, or
-- if the item is complete and the settings, as they were when the transfer began, ask for the local copy to
-- go. Every failure keeps them, whatever the host, the cloud and the other goroutines do.
pub transfer-keeps_staged :
    (a : Answers) (item : Item) (e : Engine)
    → (transfer a item e).discard ≡ true
    → (cancellation_requested (pipeline a item e).engine item.id ≡ true)
      ⊎ (((transfer a item e).completed ≡ true) × (e.settings.delete_local_after_upload ≡ true))
unfolding transfer pipeline
transfer-keeps_staged a item e h = elim (Bool-cases (pipeline a item e).discard) [
  | inl d ↦
      staged-Discards a e.settings.delete_local_after_upload item
        (stage a.cloud item (watch_item item.id e)) d
  | inr d ↦ inl (or_kept d h)
]
