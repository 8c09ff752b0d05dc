-- ===== src/Settings/Normalize.antt =====
-- `Settings.Normalize`, `Job.normalize` and `Job.normalizeSelection` of
-- internal/settings/settings.go: the value is the normalized document, the error the first refusal.
pub mod Laws
use tdrive_aliyunpan.Base.{
  ℕ, ◌+◌, Bool, true, false, not, ◌&&◌, ◌||◌, List, [], ◌∷◌, ◌++◌, reverse, ℤ, pos, ltb_ℤ, eqb_ℤ,
  Text, codes, text_eq, is_empty, has_prefix, byte_len, contains, leb, ltb, length, ◌==◌,
  if◌then◌else◌, Result, ok, err, ◌>>=◌, ◌>>◌, guard,
}
use tdrive_aliyunpan.Settings.{
  Settings, Job, Retry, default_interval, default_download_concurrency, min_interval_minutes,
  max_interval_minutes, max_exclude_pattern_len, max_download_concurrency, default_drive_name,
}
use tdrive_aliyunpan.Settings.Backoff.{RetryError, RetryResult, kept, refused, normalize_retry}
use tdrive_aliyunpan.Settings.Clock.{check_clock}
use tdrive_aliyunpan.Settings.Paths.{trim_space, clean_cloud_path, check_path_text}

-- What the document is checked by outside this package: `filepath.IsAbs`, `strings.ToLower` and
-- whether `regexp.Compile` accepts a pattern.
pub record Platform : Type 0 where
  pub is_abs : Text → Bool
  pub to_lower : Text → Text
  pub compiles : Text → Bool

pub data SettingsError : Type 0 where
  bad_text relative_stage_dir negative_stage_limit bad_concurrency bad_interval bad_clock :
      SettingsError
  negative_quota duplicate_job bad_job_id bad_drive no_remote_path no_target_path : SettingsError
  outside_remote_path negative_size crossed_sizes long_pattern bad_pattern : SettingsError
  bad_retry : RetryError → SettingsError

abbrev Outcome : Type 0 → Type 0
Outcome A = Result SettingsError A

abbrev is_id_char : ℕ → Bool
is_id_char c =
    (leb b'A' c && leb c b'Z')
    || ((leb b'a' c && leb c b'z') || ((leb b'0' c && leb c b'9') || (c == b'_' || c == b'-')))

abbrev all_id_chars : Text → Bool
all_id_chars [] = true
all_id_chars (c ∷ s) = is_id_char c && all_id_chars s

-- `idPattern.MatchString`.
unfoldable pub is_id : Text → Bool
is_id s = all_id_chars s && (leb 1 (length s) && leb (length s) 64)

-- The loop of `normalizeSelection`. The paths kept are also the ones seen; the last stands first.
unfoldable pub select_paths : Text → List Text → List Text → Outcome (List Text)
select_paths remote chosen [] = ok (reverse chosen)
select_paths remote chosen (path ∷ paths) =
    let cleaned = clean_cloud_path path in
    let skip = select_paths remote chosen paths in
    let keep = select_paths remote (cleaned ∷ chosen) paths in
    if is_empty cleaned || text_eq cleaned (codes "/")
    then skip
    else if not (check_path_text cleaned)
    then err bad_text
    else if not (text_eq remote (codes "/")) && not (has_prefix (remote ++ codes "/") cleaned)
    then err outside_remote_path
    else if contains chosen cleaned
    then skip
    else keep

unfoldable pub normalize_selection : Text → List Text → Outcome (List Text)
normalize_selection remote paths = select_paths remote [] paths

-- The switch on the drive's name: whether it is unset, names the backup drive, or the resource drive.
unfoldable pub pick_drive : Bool → Bool → Bool → Outcome Text
pick_drive unset backup resource =
    if unset
    then ok default_drive_name
    else if backup
    then ok (codes "backup")
    else if resource
    then ok (codes "resource")
    else err bad_drive

module _ (platform : Platform) where
  -- The loop over `ExcludeNames`.
  unfoldable pub normalize_patterns : List Text → Outcome (List Text)
  normalize_patterns [] = ok []
  normalize_patterns (raw ∷ rest) =
      let pattern' = trim_space raw in
      let later = normalize_patterns rest in
      if is_empty pattern' then later else do
        guard (leb (byte_len pattern') max_exclude_pattern_len) long_pattern
        guard (platform.compiles pattern') bad_pattern
        patterns ← later
        ok (pattern' ∷ patterns)

  -- The drive that a name selects.
  unfoldable pub normalize_drive : Text → Outcome Text
  normalize_drive raw =
      let name = trim_space raw in
      let lower = platform.to_lower name in
      pick_drive (is_empty name)
        (contains (codes "backup" ∷ codes "file" ∷ codes "备份盘" ∷ codes "文件" ∷ []) lower)
        (contains (codes "resource" ∷ codes "资源盘" ∷ codes "资源库" ∷ []) lower)

  unfoldable pub normalize_job : Job → Outcome Job
  normalize_job j = do
    let id = trim_space j.id
    guard (is_id id) bad_job_id
    let name = trim_space j.name
    drive ← normalize_drive j.drive_name
    let remote = clean_cloud_path j.remote_path
    guard (not (is_empty remote)) no_remote_path
    guard (check_path_text remote) bad_text
    let target = clean_cloud_path j.target_path
    guard (not (is_empty target)) no_target_path
    guard (check_path_text target) bad_text
    files ← normalize_selection remote j.include_files
    dirs ← normalize_selection remote j.include_dirs
    guard (not (ltb_ℤ j.min_size_bytes (pos 0) || ltb_ℤ j.max_size_bytes (pos 0))) negative_size
    guard (not (ltb_ℤ (pos 0) j.max_size_bytes && ltb_ℤ j.max_size_bytes j.min_size_bytes))
        crossed_sizes
    patterns ← normalize_patterns j.exclude_names
    ok (record j {
      id = id;
      name = if is_empty name then id else name;
      drive_name = drive;
      remote_path = remote;
      target_path = target;
      include_files = files;
      include_dirs = dirs;
      exclude_names = patterns;
    })

  -- The loop over `Jobs`, with the IDs seen.
  unfoldable pub normalize_jobs : List Text → List Job → Outcome (List Job)
  normalize_jobs seen [] = ok []
  normalize_jobs seen (raw ∷ rest) = do
    job ← normalize_job raw
    guard (not (contains seen job.id)) duplicate_job
    jobs ← normalize_jobs (job.id ∷ seen) rest
    ok (job ∷ jobs)

  unfoldable pub lift_retry : RetryResult → Outcome Retry
  lift_retry (kept r) = ok r
  lift_retry (refused e) = err (bad_retry e)

  unfoldable pub normalize : Settings → Outcome Settings
  normalize s = do
    let binary = trim_space s.binary_path
    guard (check_path_text binary) bad_text
    let stage = trim_space s.stage_dir
    guard (is_empty stage || platform.is_abs stage) relative_stage_dir
    guard (check_path_text stage) bad_text
    guard (not (ltb_ℤ s.stage_limit_bytes (pos 0))) negative_stage_limit
    let concurrency : ℤ =
        if eqb_ℤ s.download_concurrency (pos 0)
        then default_download_concurrency
        else s.download_concurrency
    guard (not (ltb_ℤ concurrency (pos 1) || ltb_ℤ max_download_concurrency concurrency))
        bad_concurrency
    retry ← lift_retry (normalize_retry s.retry)
    let interval : ℤ =
        if eqb_ℤ s.schedule.interval_minutes (pos 0)
        then default_interval
        else s.schedule.interval_minutes
    guard (not (ltb_ℤ interval min_interval_minutes || ltb_ℤ max_interval_minutes interval))
        bad_interval
    guard (check_clock s.schedule.window_start) bad_clock
    guard (check_clock s.schedule.window_end) bad_clock
    let reset = if is_empty s.quota.reset_at then codes "00:00" else s.quota.reset_at
    guard (check_clock reset) bad_clock
    guard (not (ltb_ℤ s.quota.daily_bytes (pos 0))) negative_quota
    jobs ← normalize_jobs [] s.jobs
    ok (record s {
      binary_path = binary;
      stage_dir = stage;
      owner_user_id = trim_space s.owner_user_id;
      download_rate = trim_space s.download_rate;
      download_concurrency = concurrency;
      retry = retry;
      schedule = record (s.schedule) { interval_minutes = interval };
      quota = record (s.quota) { reset_at = reset };
      jobs = jobs;
    })
