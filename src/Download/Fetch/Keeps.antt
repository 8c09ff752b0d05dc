-- ===== src/Download/Fetch/Keeps.antt =====
-- What `Download` leaves behind (internal/aliyunpan/source_download.go): on every error the bytes that an
-- earlier attempt fetched, and on success the whole file under its final name.
use tdrive_aliyunpan.Base.{
  if_elim, ◌≡◌, ℕ, ltb_ℤ, subst, refl, sym, ap, ◌⊎◌, inl, inr, true, false, not, ◌&&◌, List, [],
  ◌∷◌, Option, none, some, ℤ, pos, leb_ℤ, eqb_ℤ, eq_of_parts, Text, is_empty, ok, err, arith,
  Bool-cases, if◌then◌else◌,
}
use tdrive_aliyunpan.Download.Bitmap.{Codec}
use tdrive_aliyunpan.Download.Checkpoint.{
  ChunkCheckpoint, CheckpointFile, Decimal, document, pending,
}
use tdrive_aliyunpan.Download.Path.{clean_download_path}
use tdrive_aliyunpan.Download.Fetch.Answers.{
  Node, regular, absent, directory, Staging, is_regular_of, DownloadRequest, Fault, CloudFile,
  World, Fetched, with_defaults, find_file, identity,
}
use tdrive_aliyunpan.Download.Fetch.{
  close_and_rename, kept_or, after_chunks, fetch_chunks, open_partial, resumable, clear_old,
  fetch_file, drive_of, download,
}

pub regular_lem : (size : ℤ) (n : Node) → is_regular_of size n ≡ true → n ≡ regular size
regular_lem size (regular s) h = ap regular (ground (arith, h, eq_of_parts s size))
regular_lem size absent h = absurd (cc)
regular_lem size directory h = absurd (cc)

module _ (k : Codec) (d : Decimal) (w : World) (c : CheckpointFile) (old : Staging) where
  -- The sidecars that a failed download can leave: the one it found, its first save, and the one that
  -- the chunks stored last.
  abbrev pub Recorded : Option ChunkCheckpoint → Type 0
  Recorded s =
      (s ≡ old.sidecar) ⊎ ((s ≡ some (document k d c)) ⊎ ((w.chunks c (pending c)).saved ≡ s))

  abbrev pub KeptFiles : Staging → Type 0
  KeptFiles files = (files.partial ≡ old.partial) × Recorded files.sidecar

  abbrev Keeps : Fetched → Type 0
  Keeps out = (fault : Fault) → out.outcome ≡ err fault → KeptFiles out.files

  close_and_rename-Keeps :
      (staged : Text) (size : ℤ) (files : Staging) (progress : List ℤ)
      → KeptFiles files
      → Keeps (close_and_rename w staged size files progress)
  close_and_rename-Keeps staged size files progress h =
      if_elim Keeps w.close (λ _ fault e. h)
        (λ _. if_elim Keeps w.rename (λ _ fault e. h) (λ _ fault e. absurd (cc)))

  kept_or-Recorded :
      (s saved : Option ChunkCheckpoint)
      → (w.chunks c (pending c)).saved ≡ saved
      → Recorded s
      → Recorded (kept_or s saved)
  kept_or-Recorded s none e h = h
  kept_or-Recorded s (some doc) e h = inr (inr e)

  chunked-Keeps :
      (staged : Text) (size : ℤ) (files : Staging) (progress reported : List ℤ)
      (error : Option Fault)
      → KeptFiles files
      → Keeps (
          after_chunks w staged size files progress
            (record { error = error; saved = (w.chunks c (pending c)).saved; reported = reported }))
  chunked-Keeps staged size files progress reported none h =
      close_and_rename-Keeps staged size _ _
        (h.0, kept_or-Recorded files.sidecar (w.chunks c (pending c)).saved refl h.1)
  chunked-Keeps staged size files progress reported (some fault) h =
      λ other e. (h.0, kept_or-Recorded files.sidecar (w.chunks c (pending c)).saved refl h.1)

  fetch_chunks-Keeps :
      (staged : Text) (size : ℤ) (files : Staging) (progress : List ℤ)
      → KeptFiles files
      → Keeps (fetch_chunks w staged size c files progress)
  fetch_chunks-Keeps staged size files progress h = by_pending (pending c) refl
    where
      by_pending :
          (p : List ℕ)
          → pending c ≡ p
          → Keeps (elim p [
            | [] ↦ close_and_rename w staged size files progress
            | index ∷ more ↦
                if ltb_ℤ (pos 0) size
                then after_chunks w staged size files progress (w.chunks c (index ∷ more))
                else close_and_rename w staged size files progress
          ])
      by_pending [] e = close_and_rename-Keeps staged size files progress h
      by_pending (index ∷ more) e =
          if_elim Keeps (ltb_ℤ (pos 0) size)
            (λ _.
              subst (λ p. Keeps (after_chunks w staged size files progress (w.chunks c p))) e
                (chunked-Keeps staged size files progress (w.chunks c (pending c)).reported
                  (w.chunks c (pending c)).error h))
            (λ _. close_and_rename-Keeps staged size files progress h)

  -- From the record that the attempt resumes from.
  open_partial-Keeps :
      (staged : Text) (size : ℤ) (files : Staging)
      → files.partial ≡ old.partial
      → files.sidecar ≡ old.sidecar
      → old.partial ≡ regular size
      → Keeps (open_partial k d w staged size c files)
  open_partial-Keeps staged size files same_partial same_sidecar shape =
      if_elim Keeps w.open_partial (λ _ fault e. (same_partial, inl same_sidecar))
        (λ _.
          if_elim Keeps w.truncate (λ _ fault e. (rw (same_partial, shape) refl, inl same_sidecar))
            (λ _.
              fetch_chunks-Keeps staged size _ _
                (sym shape, if_elim Recorded w.save (λ _. inl same_sidecar) (λ _. inr (inl refl)))))

  resumable-shape :
      (want : ChunkCheckpoint) → resumable k d want old ≡ some c → old.partial ≡ regular want.size
  resumable-shape want h = elim (Bool-cases (is_regular_of want.size old.partial)) [
    | inl e ↦ regular_lem want.size old.partial e
    | inr e ↦ absurd (no_record (rw e at h))
  ]
    where
      no_record : none ≡ some c → ⊥
      no_record q = cc

  clear_old-Keeps :
      (staged : Text) (want : ChunkCheckpoint)
      → resumable k d want old ≡ some c
      → Keeps (clear_old k d w staged want old)
  clear_old-Keeps staged want h =
      if_elim Keeps w.remove_finished (λ _ fault e. (refl, inl refl))
        (λ _.
          if_elim Keeps w.remove_legacy (λ _ fault e. (refl, inl refl))
            (λ _.
              if_elim Keeps w.make_dir (λ _ fault e. (refl, inl refl))
                (λ _.
                  rw h (open_partial-Keeps staged want.size _ refl refl (resumable-shape want h)))))

  fetch_file-Keeps :
      (r : DownloadRequest) (expected : ℤ) (f : CloudFile)
      → resumable k d (identity r f) old ≡ some c
      → Keeps (fetch_file k d w r expected f old)
  fetch_file-Keeps r expected f h =
      if_elim Keeps f.folder (λ _ fault e. (refl, inl refl))
        (λ _.
          if_elim Keeps (leb_ℤ (pos 0) expected && not (eqb_ℤ f.size expected))
            (λ _ fault e. (refl, inl refl))
            (λ _.
              if_elim Keeps (is_regular_of f.size old.finished) (λ _ fault e. absurd (cc))
                (λ _. clear_old-Keeps _ (identity r f) h)))

-- The request once its path is clean and its drive is known.
abbrev pub resolved : DownloadRequest → Text → Text → DownloadRequest
resolved r path drive = record (with_defaults r) { cloud_path = path; drive_id = drive }

-- A download that fails keeps what an earlier attempt fetched: where the path is accepted, the drive and
-- the file are found, and the partial file and its sidecar are ones to resume from, every error leaves
-- the partial file as it was, with the sidecar that was there, the first one that this download
-- saves, or the one that its chunks stored last.
pub download-Keeps :
    (k : Codec) (d : Decimal) (to_upper : Text → Text) (w : World) (r : DownloadRequest)
    (expected : ℤ) (old : Staging) (path drive : Text) (f : CloudFile) (c : CheckpointFile)
    (fault : Fault)
    → is_empty r.stage_dir ≡ false
    → clean_download_path to_upper r.cloud_path ≡ ok path
    → drive_of w (with_defaults r) ≡ ok drive
    → find_file w (resolved r path drive) ≡ ok (some f)
    → resumable k d (identity (resolved r path drive) f) old ≡ some c
    → (download k d to_upper w r expected old).outcome ≡ err fault
    → KeptFiles k d w c old (download k d to_upper w r expected old).files
unfolding download
download-Keeps k d to_upper w r expected old path drive f c fault named clean found_drive found h =
    rw (named, clean, found_drive, found)
      (fetch_file-Keeps k d w c old (resolved r path drive) expected f h fault)
