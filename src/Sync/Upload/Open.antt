-- ===== src/Sync/Upload/Open.antt =====
-- Sending segments ends no job and leaves the job on the row.

use tdrive_aliyunpan.Base.{
  ℕ, ◌≡◌, refl, ap, ◌∙◌, Bool, true, false, List, [], ◌∷◌, Option, none, some, ℤ, pos, ltb_ℤ, leb_ℤ,
  eqb_ℤ, Text, codes, text_eq, All, Bool-cases, inl, inr, ◌==◌, if◌then◌else◌,
}
use tdrive_aliyunpan.Sync.Item.{Item}
use tdrive_aliyunpan.Sync.Engine.{Engine, modify, find_item, charge_quota_delta, mark_queue_dirty}
use tdrive_aliyunpan.Sync.Upload.{
  UploadJob, Host, Call, began, put, completed, refused, aborted, Session, charge_all, put_segment,
  send_empty, segment_offset, segment_length, send_segment, and_then, send_loop, send_segments,
}

abbrev pub map_item : (Item → Item) → Option Item → Option Item
map_item f none = none
map_item f (some i) = some (f i)

pub find_item-modify :
    (id : Text) (f : Item → Item) (q : List Item)
    → ((i : Item) → (f i).id ≡ i.id)
    → find_item id (modify id f q) ≡ map_item f (find_item id q)
unfolding find_item modify
find_item-modify id f [] k = refl
find_item-modify id f (i ∷ q) k = elim (Bool-cases (text_eq i.id id)) [
  | inl e ↦ rw (e, k i, e) refl
  | inr e ↦ rw (e, e) (find_item-modify id f q k)
]

-- The row has a job.
abbrev pub HasJob : Text → Text → Engine → Type 0
HasJob id job e = (i : Item) × (find_item id e.queue ≡ some i) × (i.upload_job_id ≡ job)

pub HasJob-modify :
    (id job job' : Text) (f : Item → Item) (e : Engine)
    → ((i : Item) → (f i).id ≡ i.id)
    → ((i : Item) → i.upload_job_id ≡ job → (f i).upload_job_id ≡ job')
    → HasJob id job e
    → HasJob id job' (record e { queue = modify id f e.queue })
HasJob-modify id job job' f e k g (i, h, j) =
    (f i, find_item-modify id f e.queue k ∙ ap (map_item f) h, g i j)

HasJob-charge_quota_delta :
    (id job : Text) (delta : ℤ) (e : Engine)
    → HasJob id job e
    → HasJob id job (charge_quota_delta id delta e)
unfolding charge_quota_delta mark_queue_dirty
HasJob-charge_quota_delta id job delta e h = HasJob-modify id job job _ e (λ i. refl) (λ i j. j) h

HasJob-charge_all :
    (id job : Text) (deltas : List ℤ) (e : Engine)
    → HasJob id job e
    → HasJob id job (charge_all id deltas e)
HasJob-charge_all id job [] e h = h
HasJob-charge_all id job (delta ∷ deltas) e h =
    HasJob-charge_all id job deltas (charge_quota_delta id delta e)
      (HasJob-charge_quota_delta id job delta e h)

-- A call that does not end a job.
abbrev pub IsOpen : Call → Type 0
IsOpen (began job) = Unit
IsOpen (put index offset size) = Unit
IsOpen (completed job) = ⊥
IsOpen (refused job) = Unit
IsOpen (aborted job reason stopped) = ⊥

abbrev pub Open : Text → Text → Session → Type 0
Open id job s = HasJob id job s.engine × All IsOpen s.calls

module _ (h : Host) (item : Item) (job : UploadJob) where
  put_segment-Open :
      (index : ℕ) (offset size : ℤ) (s : Session)
      → Open item.id job.id s
      → Open item.id job.id (put_segment h item.id index offset size s).1
  unfolding put_segment
  put_segment-Open index offset size s p =
      (HasJob-charge_all item.id job.id (h.deltas s.asked) s.engine p.0, (tt, p.1))

  send_empty-Open :
      (indices : List ℕ) (s : Session)
      → Open item.id job.id s
      → Open item.id job.id (send_empty h indices s).1
  unfolding send_empty
  send_empty-Open [] s p = p
  send_empty-Open (index ∷ indices) s p = elim (Bool-cases (index == 1)) [
    | inl e ↦ rw e (p.0, (tt, p.1))
    | inr e ↦ rw e (send_empty-Open indices s p)
  ]

  send_segment-Open :
      (index : ℕ) (s : Session)
      → Open item.id job.id s
      → Open item.id job.id (send_segment h item job index s).1
  unfolding send_segment
  send_segment-Open index s p =
      tested
        (leb_ℤ (segment_length item.size (segment_offset index job.segment_size) job.segment_size)
          (pos 0))
        (ltb_ℤ (segment_offset index job.segment_size) (pos 0))
    where
      tested :
          (b c : Bool)
          → Open item.id job.id
              (if b
                then (none, s)
                else if c
                then (some (codes "定位分片"), s)
                else put_segment h item.id index
                    (segment_offset index job.segment_size)
                    (segment_length item.size
                      (segment_offset index job.segment_size)
                      job.segment_size)
                    s).1
      tested true c = p
      tested false true = p
      tested false false = put_segment-Open index _ _ s p

  and_then-Open :
      (k : Session → Option Text × Session) (r : Option Text × Session)
      → ((s : Session) → Open item.id job.id s → Open item.id job.id (k s).1)
      → Open item.id job.id r.1
      → Open item.id job.id (and_then k r).1
  and_then-Open k (none, s) f p = f s p
  and_then-Open k (some e, s) f p = p

  send_loop-Open :
      (indices : List ℕ) (s : Session)
      → Open item.id job.id s
      → Open item.id job.id (send_loop h item job indices s).1
  unfolding send_loop
  send_loop-Open [] s p = p
  send_loop-Open (index ∷ indices) s p =
      and_then-Open (send_loop h item job indices) _ (send_loop-Open indices) (
        and_then-Open (send_segment h item job index) (h.context_error s.asked, s)
          (send_segment-Open index) p)

  pub send_segments-Open :
      (indices : List ℕ) (s : Session)
      → Open item.id job.id s
      → Open item.id job.id (send_segments h item job indices s).1
  unfolding send_segments
  send_segments-Open indices s p = elim (Bool-cases (eqb_ℤ item.size (pos 0))) [
    | inl e ↦ rw e (send_empty-Open indices s p)
    | inr e ↦ rw e (send_loop-Open indices s p)
  ]
