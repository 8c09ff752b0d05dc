-- ===== src/Sync/Upload/Closed.antt =====
-- An upload leaves no job behind.
use tdrive_aliyunpan.Base.{
  ℕ, zero, suc, ◌≡◌, refl, sym, ap, ◌∙◌, subst, Bool, true, false, List, [], ◌∷◌, Option, none,
  some, Text, codes, is_empty, ◌++◌, text_eq_refl, All, ◌==◌, arith, ok,
}
use tdrive_aliyunpan.Sync.Item.{Item, Stage}
use tdrive_aliyunpan.Sync.Engine.{Engine, modify, find_item, set_stage, mark_queue_dirty}
use tdrive_aliyunpan.Sync.Actions.{abort}
use tdrive_aliyunpan.Sync.Upload.{
  complete_attempts, resend_rounds, UploadJob, Host, Call, began, completed, refused, aborted,
  Session, Commit, committed, uncommitted, after_wait, after_refusal, after_answer, commit,
  abort_job, clear_job, after_commit, after_send, upload_rounds, begun, indices_from, upload,
}
use tdrive_aliyunpan.Sync.Upload.Missing.{parse_missing_segments}
use tdrive_aliyunpan.Sync.Upload.Open.{
  HasJob, HasJob-modify, map_item, find_item-modify, IsOpen, Open, send_segments-Open,
}

-- The last call completed the job, or aborted it.
abbrev pub Ended : UploadJob → Option Text → List Call → Type 0
Ended job none calls = (rest : List Call) × (calls ≡ completed job.id ∷ rest) × All IsOpen rest
Ended job (some e) calls =
    (reason : Text) × (stopped : Bool) × (rest : List Call) × (calls
      ≡ aborted job.id reason stopped ∷ rest)
    × All IsOpen rest

abbrev pub Closed : Item → UploadJob → Option Text × Session → Type 0
Closed item job (result, s) = Ended job result s.calls × HasJob item.id [] s.engine

module _ (h : Host) (item : Item) (job : UploadJob) (named : is_empty job.id ≡ false) where
  abort_job-Closed :
      (reason e : Text) (s : Session)
      → Open item.id job.id s
      → Closed item job (some e, abort_job h item.id job.id reason s)
  unfolding abort_job abort
  abort_job-Closed reason e s ((i, found, same), calls) =
      rw (found, named, same, text_eq_refl job.id)
        (
          (reason, h.stopped_by_cancel s.asked, s.calls, refl, calls),
          HasJob-modify item.id job.id [] (λ r. record r { upload_job_id = [] }) s.engine
              (λ r. refl) (λ r j. refl) (i, found, same),
        )

  -- A commit that succeeded has ended the job, another has not.
  Committed : Commit × Session → Type 0
  Committed (committed, s) = HasJob item.id job.id s.engine × Ended job none s.calls
  Committed (uncommitted missing e, s) = Open item.id job.id s

  after_answer-Committed :
      (last : Bool) (again : Session → Commit × Session) (answer : Option Text) (s : Session)
      → ((s : Session) → Open item.id job.id s → Committed (again s))
      → Open item.id job.id s
      → Committed (after_answer last again h job.id answer s)
  unfolding Committed
  after_answer-Committed last again none s f p = (p.0, (s.calls, refl, p.1))
  after_answer-Committed last again (some e) s f p =
      refusal last (parse_missing_segments e) (record s { calls = refused job.id ∷ s.calls })
        (p.0, (tt, p.1))
    where
      waited :
          (o : Option Text) (s : Session) → Open item.id job.id s → Committed (after_wait again o s)
      waited none s q = f s q
      waited (some x) s q = q

      refusal :
          (last : Bool) (missing : List ℕ) (s : Session)
          → Open item.id job.id s
          → Committed (after_refusal last again h e missing s)
      refusal last [] s q = q
      refusal true (i ∷ missing) s q = q
      refusal false (i ∷ missing) s q = waited (h.context_error s.asked) s q

  commit-Committed : (n : ℕ) (s : Session) → Open item.id job.id s → Committed (commit n h job.id s)
  unfolding commit Committed
  commit-Committed zero s p = p
  commit-Committed (suc n) s p =
      after_answer-Committed (n == 0) (commit n h job.id) (h.complete_upload s.asked)
        (record s { asked = suc s.asked }) (commit-Committed n) p

  after_commit-Closed :
      (again : List ℕ → Text → Session → Option Text × Session) (c : Commit × Session)
      → ((missing : List ℕ) (e : Text) (s : Session)
          → Open item.id job.id s
          → Closed item job (again missing e s))
      → Committed c
      → Closed item job (after_commit again h item job c)
  unfolding Committed
  after_commit-Closed again (committed, s) f p =
      (p.1, HasJob-modify item.id job.id [] (clear_job job.id) s.engine keeps clears p.0)
    where
      keeps : (i : Item) → (clear_job job.id i).id ≡ i.id
      keeps i = ground arith

      clears : (i : Item) → i.upload_job_id ≡ job.id → (clear_job job.id i).upload_job_id ≡ []
      clears i j = rw (j, text_eq_refl job.id) refl
  after_commit-Closed again (uncommitted [] e, s) f p = abort_job-Closed e e s p
  after_commit-Closed again (uncommitted (i ∷ missing) e, s) f p = f (i ∷ missing) e s p

  after_send-Closed :
      (again : List ℕ → Text → Session → Option Text × Session) (r : Option Text × Session)
      → ((missing : List ℕ) (e : Text) (s : Session)
          → Open item.id job.id s
          → Closed item job (again missing e s))
      → Open item.id job.id r.1
      → Closed item job (after_send again h item job r)
  after_send-Closed again (some e, s) f p = abort_job-Closed e e s p
  after_send-Closed again (none, s) f p =
      after_commit-Closed again (commit complete_attempts h job.id s) f
        (commit-Committed complete_attempts s p)

  upload_rounds-Closed :
      (n : ℕ) (pending : List ℕ) (last : Text) (s : Session)
      → Open item.id job.id s
      → Closed item job (upload_rounds n h item job pending last s)
  unfolding upload_rounds
  upload_rounds-Closed zero pending last s p =
      abort_job-Closed (codes "重发分片后仍未完成") (codes "上传未能完成: " ++ last) s p
  upload_rounds-Closed (suc n) pending last s p =
      after_send-Closed (upload_rounds n h item job) _ (upload_rounds-Closed n)
        (send_segments-Open h item job pending s p)

-- When the host has begun a job, `upload` of an item on the queue ends it in every case, whatever the host, the
-- context and the operator answer, and however the segments fail. Without an error the job's
-- completion is the last of the calls; with one its abort is. It is the only call that ends the job,
-- and the row has no job afterwards. The job's ID is not empty.
pub upload-closes :
    (h : Host) (item row : Item) (job : UploadJob) (e : Engine)
    → find_item item.id e.queue ≡ some row
    → is_empty job.id ≡ false
    → h.begin_upload ≡ ok job
    → Closed item job (upload h item (record { engine = e; calls = []; asked = 0 }))
unfolding upload set_stage mark_queue_dirty
upload-closes h item row job e found named begins =
    subst
      (λ b. Closed item job (
        begun h item b
          (record { engine = set_stage item.id Stage.uploading e; calls = []; asked = 0 })))
      (sym begins)
      (upload_rounds-Closed h item job named resend_rounds (indices_from job.segment_count 1) []
        record {
          engine = record (set_stage item.id Stage.uploading e) {
            queue =
                modify item.id (λ i. record i { upload_job_id = job.id })
                  (set_stage item.id Stage.uploading e).queue;
          };
          calls = began job.id ∷ [];
          asked = 0;
        }
        (given, (tt, tt)))
  where
    staged : Item
    staged = record row { stage = Stage.uploading }

    given : HasJob item.id job.id (record e {
      queue =
          modify item.id
            (λ i. record i { upload_job_id = job.id })
            (modify item.id (λ i. record i { stage = Stage.uploading }) e.queue);
    })
    given = (
      record staged { upload_job_id = job.id },
      find_item-modify item.id (λ i. record i { upload_job_id = job.id }) _ (λ i. refl)
          ∙ ap (map_item (λ i. record i { upload_job_id = job.id })) (
              find_item-modify item.id (λ i. record i { stage = Stage.uploading }) e.queue
                (λ i. refl)
              ∙ ap (map_item (λ i. record i { stage = Stage.uploading })) found),
      refl,
    )
