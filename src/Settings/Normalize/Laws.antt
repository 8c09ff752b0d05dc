-- ===== src/Settings/Normalize/Laws.antt =====
-- What a normalized document promises, whatever the stored one held.
use tdrive_aliyunpan.Base.{
  ◌≡◌, ◌≢◌, ◌⊎◌, true, false, List, [], ◌∷◌, ◌++◌, pos, ◌≤ℤ◌, Text, codes, has_prefix, contains,
  IsDistinct, All, ◌>>=◌, ◌>>◌,
}
use tdrive_aliyunpan.Settings.{Settings, Job}
use tdrive_aliyunpan.Settings.Backoff.Laws.{IsPolicy}
use tdrive_aliyunpan.Settings.Clock.{check_clock}
use tdrive_aliyunpan.Settings.Normalize.{Platform, is_id}

-- A ticked path: not the root, and under the job's cloud directory.
abbrev pub IsUnder : Text → Text → Type 0
IsUnder remote path =
    (path ≢ [])
    × (path ≢ codes "/")
    × ((remote ≡ codes "/") ⊎ (has_prefix (remote ++ codes "/") path ≡ true))

abbrev pub IsSelection : Text → List Text → Type 0
IsSelection remote paths = All (IsUnder remote) paths × IsDistinct paths

-- What a normalized job promises.
pub record IsValidJob (j : Job) : Type 0 where
  pub id : is_id j.id ≡ true
  pub name : j.name ≢ []
  pub drive : (j.drive_name ≡ codes "backup") ⊎ (j.drive_name ≡ codes "resource")
  pub remote : j.remote_path ≢ []
  pub target : j.target_path ≢ []
  pub files : IsSelection j.remote_path j.include_files
  pub dirs : IsSelection j.remote_path j.include_dirs
  pub min_size : pos 0 ≤ℤ j.min_size_bytes
  pub max_size : pos 0 ≤ℤ j.max_size_bytes
  pub sizes : (j.max_size_bytes ≡ pos 0) ⊎ (j.min_size_bytes ≤ℤ j.max_size_bytes)

module _ (platform : Platform) where
  abbrev IsDrive : Text → Type 0
  IsDrive drive = (drive ≡ codes "backup") ⊎ (drive ≡ codes "resource")

  abbrev job_ids : List Job → List Text
  job_ids [] = []
  job_ids (j ∷ js) = j.id ∷ job_ids js

  -- The IDs are distinct, and none is among those seen.
  abbrev AreFresh : List Text → List Job → Type 0
  AreFresh seen [] = Unit
  AreFresh seen (j ∷ js) = (contains seen j.id ≡ false) × AreFresh (j.id ∷ seen) js

  abbrev ValidJobs : List Text → List Job → Type 0
  ValidJobs seen js = All IsValidJob js × AreFresh seen js

  -- What a normalized document promises.
  pub record IsValidSettings (s : Settings) : Type 0 where
    pub stage_limit : pos 0 ≤ℤ s.stage_limit_bytes
    pub concurrency : (pos 1 ≤ℤ s.download_concurrency) × (s.download_concurrency ≤ℤ pos 32)
    pub retry : IsPolicy s.retry
    pub interval :
        (pos 1 ≤ℤ s.schedule.interval_minutes) × (s.schedule.interval_minutes ≤ℤ pos 1440)
    pub window_start : check_clock s.schedule.window_start ≡ true
    pub window_end : check_clock s.schedule.window_end ≡ true
    pub reset_at : (check_clock s.quota.reset_at ≡ true) × (s.quota.reset_at ≢ [])
    pub daily_bytes : pos 0 ≤ℤ s.quota.daily_bytes
    pub jobs : All IsValidJob s.jobs
    pub job_ids : AreFresh [] s.jobs
