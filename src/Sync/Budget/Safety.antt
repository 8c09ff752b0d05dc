-- ===== src/Sync/Budget/Safety.antt =====
-- The daily quota is kept on every path of steps.
use tdrive_aliyunpan.Base.{
  ◌≡◌, sym, subst, true, ℕ, ℤ, pos, ◌≤ℤ◌, ◌<ℤ◌, [], ◌∷◌, false, All, IsDistinct, some,
}
use tdrive_aliyunpan.Sync.Item.{Item, is_running}
use tdrive_aliyunpan.Sync.Engine.{Engine}
use tdrive_aliyunpan.Sync.History.{ids}
use tdrive_aliyunpan.Sync.Claim.{claim, take_next_with_run}
use tdrive_aliyunpan.Sync.Claim.Laws.{take_next-ClaimSpec, ClaimSpec}
use tdrive_aliyunpan.Sync.Budget.{World, Step}
use tdrive_aliyunpan.Sync.Budget.Sums.{IsSize}
use tdrive_aliyunpan.Sync.Budget.Calm.{
  requeue-CalmStep, fail-CalmStep, complete_trim-CalmStep, set_stage-CalmStep,
  note_download-CalmStep, charge_quota_delta-CalmStep,
}
use tdrive_aliyunpan.Sync.Budget.Invariant.{IsSound, CalmStep-IsSound, claims-IsSound}
use tdrive_aliyunpan.Sync.Budget.Operator.{
  retry_rows-CalmStep, cancel_mark-CalmStep, clear_finished-CalmStep,
}
use tdrive_aliyunpan.Sync.Budget.Unwind.{unwinds-IsSound, releases-IsSound, rolls-IsSound}
use tdrive_aliyunpan.Sync.Budget.Host.{watch_item-CalmStep, abort-CalmStep, persisted-CalmStep}
use tdrive_aliyunpan.Sync.Budget.Others.{
  unmark_deleting-CalmStep, finish_active-CalmStep, stale_done-CalmStep, apply_settings-CalmStep,
  considers-IsSound,
}
use tdrive_aliyunpan.Sync.Budget.Ends.{completes-IsSound, rolls_back-IsSound}

-- An engine after a start: nothing runs and nothing is reserved.
pub record IsFresh (most limit : ℤ) (w : World) : Type 0 where
  pub limited : w.engine.settings.quota.daily_bytes ≡ limit
  pub sizes : All (IsSize most) w.engine.queue
  pub distinct : IsDistinct (ids w.engine.queue)
  pub rests : All (λ i. is_running i.state ≡ false) w.engine.queue
  pub none_held : w.held ≡ []
  pub none_leaving : w.leaving ≡ []
  pub none_reserved : w.engine.reserved ≡ pos 0
  pub used : pos 0 ≤ℤ w.engine.quota.used_bytes
  pub used_limit : w.engine.quota.used_bytes ≤ℤ limit

module _ (most limit : ℤ) (positive : pos 0 <ℤ limit) where
  claim_taken :
      (now workers : ℕ) (w : World) (c : Item) (e : Engine)
      → take_next_with_run true now workers w.engine ≡ (some c, e)
      → IsSound most limit w
      → IsSound most limit (record w { engine = e; held = (c.id, c.size) ∷ w.held })
  claim_taken now workers w c e h s = taken (
      subst (ClaimSpec true now workers w.engine) h (take_next-ClaimSpec true now workers w.engine))
    where
      taken :
          ClaimSpec true now workers w.engine (some c, e)
          → IsSound most limit (record w { engine = e; held = (c.id, c.size) ∷ w.held })
      taken (item, same, t) =
          subst
            (λ (i : Item).
              IsSound most limit (record w { engine = e; held = (i.id, i.size) ∷ w.held }))
            (sym same) (unfold claim in claims-IsSound most limit positive w s now workers item e t)

  pub Step-IsSound : {w v : World} → Step most w v → IsSound most limit w → IsSound most limit v
  Step-IsSound {w} (Step.claims now workers c e h) s = claim_taken now workers w c e h s
  Step-IsSound {w} (Step.requeues id reason t charge) s =
      CalmStep-IsSound most limit w _ (requeue-CalmStep id reason t charge w.engine) s
  Step-IsSound {w} (Step.fails id reason now) s =
      CalmStep-IsSound most limit w _ (fail-CalmStep id reason now w.engine) s
  Step-IsSound {w} (Step.completes item now found runs live) s =
      completes-IsSound most limit w s item now found runs
  Step-IsSound {w} (Step.rolls_back item row found done same runs holds charged) s =
      rolls_back-IsSound most limit w s item row found done same runs holds charged
  Step-IsSound {w} Step.trims s =
      CalmStep-IsSound most limit w _ (complete_trim-CalmStep w.engine) s
  Step-IsSound {w} (Step.cancels now wanted) s =
      CalmStep-IsSound most limit w _ (cancel_mark-CalmStep now wanted w.engine) s
  Step-IsSound {w} (Step.retries wanted rows p) s =
      CalmStep-IsSound most limit w _
        (retry_rows-CalmStep wanted rows (record p { engine = w.engine })) s
  Step-IsSound {w} (Step.clears wanted) s =
      CalmStep-IsSound most limit w _ (clear_finished-CalmStep wanted w.engine) s
  Step-IsSound {w} (Step.stages id stage) s =
      CalmStep-IsSound most limit w _ (set_stage-CalmStep id stage w.engine) s
  Step-IsSound {w} (Step.downloads id done) s =
      CalmStep-IsSound most limit w _ (note_download-CalmStep id done w.engine) s
  Step-IsSound {w} (Step.sends id delta) s =
      CalmStep-IsSound most limit w _ (charge_quota_delta-CalmStep id delta w.engine) s
  Step-IsSound {w} (Step.unwinds id size holds rests) s =
      unwinds-IsSound most limit w s id size holds rests
  Step-IsSound {w} (Step.releases before after size same) s =
      releases-IsSound most limit w s before after size same
  Step-IsSound {w} (Step.watches id run) s =
      CalmStep-IsSound most limit w _ (watch_item-CalmStep id w.engine run) s
  Step-IsSound {w} (Step.aborts id job answered) s =
      CalmStep-IsSound most limit w _ (abort-CalmStep id job answered w.engine) s
  Step-IsSound {w} (Step.persists revision written) s =
      CalmStep-IsSound most limit w _ (persisted-CalmStep revision written w.engine) s
  Step-IsSound {w} (Step.unmarks id) s =
      CalmStep-IsSound most limit w _ (unmark_deleting-CalmStep id w.engine) s
  Step-IsSound {w} Step.finishes s =
      CalmStep-IsSound most limit w _ (finish_active-CalmStep w.engine) s
  Step-IsSound {w} (Step.settles id job requeued clean answered) s =
      CalmStep-IsSound most limit w _ (stale_done-CalmStep id job requeued clean answered w.engine)
        s
  Step-IsSound {w} (Step.considers o stamp job entry target_dir fresh least size) s =
      considers-IsSound most limit w s o stamp job entry target_dir fresh least size
  Step-IsSound {w} (Step.applies settings same) s =
      CalmStep-IsSound most limit w _ (apply_settings-CalmStep settings w.engine same) s
  Step-IsSound {w} (Step.rolls day) s = rolls-IsSound most limit w s day
