-- ===== src/Sync/Upload.antt =====
-- `upload`, `sendSegments` and `commit` of internal/sync/transfer.go: a staged file is sent to the
-- host in segments. What the host, the context and a cancellation answer is a stream, read at the number of
-- questions asked so far; `deltas` are the bytes that the stream's callback is given during a `PutSegment`.
pub mod Missing
pub mod Cover
pub mod Open
pub mod Closed
use tdrive_aliyunpan.Base.{
  ℕ, zero, suc, ◌+◌, ◌-◌, ◌*◌, Bool, true, false, not, ◌||◌, List, [], ◌∷◌, Option, none, some, ℤ,
  pos, ◌-ℤ◌, ltb_ℤ, leb_ℤ, eqb_ℤ, Text, codes, text_eq, is_empty, ◌++◌, ◌==◌, Result, ok, err,
  if◌then◌else◌,
}
use tdrive_aliyunpan.Download.Chunks.{times}
use tdrive_aliyunpan.Sync.Item.{Item, Stage}
use tdrive_aliyunpan.Sync.Engine.{Engine, modify, find_item, set_stage, charge_quota_delta}
use tdrive_aliyunpan.Sync.Actions.{abort}
use tdrive_aliyunpan.Sync.Upload.Missing.{parse_missing_segments}

abbrev pub complete_attempts : ℕ
complete_attempts = 6

abbrev pub resend_rounds : ℕ
resend_rounds = 3

-- What the code reads of the host's job.
pub record UploadJob : Type 0 where
  pub id : Text
  pub segment_size : ℤ
  pub segment_count : ℕ

-- What is asked of the host, with its answers; an error is its text.
pub record Host : Type 0 where
  pub begin_upload : Result Text UploadJob
  pub put_segment : ℕ → Option Text
  pub deltas : ℕ → List ℤ
  pub complete_upload : ℕ → Option Text
  pub abort_upload : ℕ → Option Text
  pub context_error : ℕ → Option Text
  pub stopped_by_cancel : ℕ → Bool

-- The calls that change something at the host.
pub data Call : Type 0 where
  began : Text → Call
  put : ℕ → ℤ → ℤ → Call
  completed : Text → Call
  refused : Text → Call
  aborted : Text → Text → Bool → Call

-- The engine, the calls so far, the newest first, and the number of questions.
pub record Session : Type 0 where
  pub engine : Engine
  pub calls : List Call
  pub asked : ℕ

abbrev pub charge_all : Text → List ℤ → Engine → Engine
charge_all id [] e = e
charge_all id (delta ∷ deltas) e = charge_all id deltas (charge_quota_delta id delta e)

-- `PutSegment` of a range, with the callback's calls.
unfoldable pub put_segment : Host → Text → ℕ → ℤ → ℤ → Session → Option Text × Session
put_segment h id index offset size s = (
  h.put_segment s.asked,
  record {
    engine = charge_all id (h.deltas s.asked) s.engine;
    calls = put index offset size ∷ s.calls;
    asked = suc s.asked;
  },
)

-- An empty file has one segment without bytes, and no callback.
unfoldable pub send_empty : Host → List ℕ → Session → Option Text × Session
send_empty h [] s = (none, s)
send_empty h (index ∷ indices) s =
    let rest = send_empty h indices s in
    if index == 1
    then (
      h.put_segment s.asked,
      record s { calls = put 1 (pos 0) (pos 0) ∷ s.calls; asked = suc s.asked },
    )
    else rest

-- `int64(index-1) * job.SegmentSize`
abbrev pub segment_offset : ℕ → ℤ → ℤ
segment_offset zero size = pos 0 -ℤ size
segment_offset (suc i) size = times i size

abbrev pub segment_length : ℤ → ℤ → ℤ → ℤ
segment_length total offset size = if ltb_ℤ (total -ℤ offset) size then total -ℤ offset else size

-- One turn of the loop of `sendSegments`; none goes on to the next. A seek before the file's start fails.
unfoldable pub send_segment : Host → Item → UploadJob → ℕ → Session → Option Text × Session
send_segment h item job index s =
    let offset = segment_offset index job.segment_size in
    let size = segment_length item.size offset job.segment_size in
    if leb_ℤ size (pos 0)
    then (none, s)
    else if ltb_ℤ offset (pos 0)
    then (some (codes "定位分片"), s)
    else put_segment h item.id index offset size s

-- The next step, unless there is an error.
abbrev pub and_then :
    (Session → Option Text × Session) → Option Text × Session → Option Text × Session
and_then k (some e, s) = (some e, s)
and_then k (none, s) = k s

unfoldable pub send_loop : Host → Item → UploadJob → List ℕ → Session → Option Text × Session
send_loop h item job [] s = (none, s)
send_loop h item job (index ∷ indices) s =
    and_then (send_loop h item job indices)
      (and_then (send_segment h item job index) (h.context_error s.asked, s))

-- `sendSegments`
unfoldable pub send_segments : Host → Item → UploadJob → List ℕ → Session → Option Text × Session
send_segments h item job indices s =
    if eqb_ℤ item.size (pos 0) then send_empty h indices s else send_loop h item job indices s

pub data Commit : Type 0 where
  committed : Commit
  uncommitted : List ℕ → Text → Commit

-- After the wait, if the context is still alive.
abbrev pub after_wait : (Session → Commit × Session) → Option Text → Session → Commit × Session
after_wait again (some e) s = (uncommitted [] e, s)
after_wait again none s = again s

-- Another attempt, if this one was not the last and segments are missing.
abbrev pub after_refusal :
    Bool → (Session → Commit × Session) → Host → Text → List ℕ → Session → Commit × Session
after_refusal last again h e [] s = (uncommitted [] e, s)
after_refusal true again h e (i ∷ missing) s = (uncommitted (i ∷ missing) e, s)
after_refusal false again h e (i ∷ missing) s = after_wait again (h.context_error s.asked) s

abbrev pub after_answer :
    Bool → (Session → Commit × Session) → Host → Text → Option Text → Session → Commit × Session
after_answer last again h job none s = (committed, record s { calls = completed job ∷ s.calls })
after_answer last again h job (some e) s =
    after_refusal last again h e (parse_missing_segments e)
      (record s { calls = refused job ∷ s.calls })

-- `commit`, for the number of attempts that are left.
unfoldable pub commit : ℕ → Host → Text → Session → Commit × Session
commit zero h job s = (uncommitted [] [], s)
commit (suc n) h job s =
    after_answer (n == 0) (commit n h job) h job (h.complete_upload s.asked)
      (record s { asked = suc s.asked })

abbrev pub owns : Text → Option Item → Bool
owns job none = not (is_empty job)
owns job (some i) = not (is_empty job || not (text_eq i.upload_job_id job))

-- `e.abort`, which calls the host if the row still has the job.
unfoldable pub abort_job : Host → Text → Text → Text → Session → Session
abort_job h id job reason s =
    let settled = (abort id job true s.engine).1 in
    if owns job (find_item id s.engine.queue)
    then record {
      engine = settled;
      calls = aborted job reason (h.stopped_by_cancel s.asked) ∷ s.calls;
      asked = suc s.asked;
    }
    else record s { engine = settled }

abbrev pub clear_job : Text → Item → Item
clear_job job i = if text_eq i.upload_job_id job then record i { upload_job_id = [] } else i

abbrev pub after_commit :
    (List ℕ → Text → Session → Option Text × Session)
    → Host
    → Item
    → UploadJob
    → Commit × Session
    → Option Text × Session
after_commit again h item job (committed, s) = (
  none,
  record s {
    engine = record (s.engine) { queue = modify item.id (clear_job job.id) s.engine.queue };
  },
)
after_commit again h item job (uncommitted [] e, s) = (some e, abort_job h item.id job.id e s)
after_commit again h item job (uncommitted (i ∷ missing) e, s) = again (i ∷ missing) e s

abbrev pub after_send :
    (List ℕ → Text → Session → Option Text × Session)
    → Host
    → Item
    → UploadJob
    → Option Text × Session
    → Option Text × Session
after_send again h item job (some e, s) = (some e, abort_job h item.id job.id e s)
after_send again h item job (none, s) =
    after_commit again h item job (commit complete_attempts h job.id s)

-- The loop of `upload`, for the number of rounds that are left and the last error.
unfoldable pub upload_rounds :
    ℕ → Host → Item → UploadJob → List ℕ → Text → Session → Option Text × Session
upload_rounds zero h item job pending last s =
    (some (codes "上传未能完成: " ++ last), abort_job h item.id job.id (codes "重发分片后仍未完成") s)
upload_rounds (suc n) h item job pending last s =
    after_send (upload_rounds n h item job) h item job (send_segments h item job pending s)

-- The segments of the first round: from an index, as many as are left.
abbrev pub indices_from : ℕ → ℕ → List ℕ
indices_from zero index = []
indices_from (suc n) index = index ∷ indices_from n (suc index)

abbrev pub begun : Host → Item → Result Text UploadJob → Session → Option Text × Session
begun h item (err e) s = (some (codes "开始上传: " ++ e), s)
begun h item (ok job) s =
    upload_rounds resend_rounds h item job (indices_from job.segment_count 1) [] record {
      engine = record (s.engine) {
        queue = modify item.id (λ i. record i { upload_job_id = job.id }) s.engine.queue;
      };
      calls = began job.id ∷ s.calls;
      asked = s.asked;
    }

-- `upload`, once the owner is known and the file is open.
unfoldable pub upload : Host → Item → Session → Option Text × Session
upload h item s =
    begun h item h.begin_upload (record s { engine = set_stage item.id Stage.uploading s.engine })
