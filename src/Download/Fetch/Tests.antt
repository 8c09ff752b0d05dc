-- ===== src/Download/Fetch/Tests.antt =====
-- Downloads of a small file around its chunks, and one chunk with its attempts; the theorems applied to them.
use tdrive_aliyunpan.Base.{
  ℕ, zero, suc, ◌+◌, ◌≤◌, ◌≡◌, ◌≢◌, ◌⊎◌, ◌<ℤ◌, refl, false, All, List, [], ◌∷◌, ◌++◌, none, some,
  ◌-ℤ◌, pos, Text, codes, length, ok, err, arith,
}
use tdrive_aliyunpan.Base.Table.{lookup}
use tdrive_aliyunpan.Base.Decimals.{scan_digits, parse_int}
use tdrive_aliyunpan.Settings.Paths.{
  trim_left, trim_right, trim_space, split_slash, join_slash, clean_step, clean_parts,
}
use tdrive_aliyunpan.Settings.Paths.Clean.{IsName}
use tdrive_aliyunpan.Sync.Names.{unsafe_file_name}
use tdrive_aliyunpan.Download.Tests.{plain, letters}
use tdrive_aliyunpan.Download.Bitmap.{
  tabulate, bitmap_bytes, byte_at, bit_at, encode_chunk_bitmap, decode_chunk_bitmap, decode_bytes,
}
use tdrive_aliyunpan.Download.Chunks.{chunk_count}
use tdrive_aliyunpan.Download.Checkpoint.{
  CheckpointFile, new_checkpoint, load_checkpoint, is_same_file, decode_partial, encode_partial,
  document, pending, pending_from,
}
use tdrive_aliyunpan.Download.Range.{
  Content, Response, Answer, answered, failed, Write, literal, skip_blanks, scan_int, until_blank,
  scan_word, scan_range, validate_content_range, refused, copy_body, download_range,
}
use tdrive_aliyunpan.Download.Range.Header.{header, Verdict, validate_content_range-header}
use tdrive_aliyunpan.Download.Range.Served.{Serves}
use tdrive_aliyunpan.Download.Link.{Links, current}
use tdrive_aliyunpan.Download.Attempts.{
  Round, Worker, Wanted, attempts_left, report_calls, download_chunk_with_retry,
}
use tdrive_aliyunpan.Download.Attempts.Laws.{
  Agrees, NotedAgree, SameOutside, download_chunk_with_retry-Agrees,
}
use tdrive_aliyunpan.Download.Progress.{set_chunk, note}
use tdrive_aliyunpan.Download.Path.{
  clean_names, rooted, unsafe_windows_name, clean_download_path, join_path, staged_path,
}
use tdrive_aliyunpan.Download.Path.Below.{staged_path-IsBelow}
use tdrive_aliyunpan.Download.Fetch.Answers.{
  Node, Staging, DownloadRequest, Fault, CloudFile, Chunked, World, identity, find_file,
  with_defaults,
}
use tdrive_aliyunpan.Download.Fetch.{resumable, download}
use tdrive_aliyunpan.Download.Fetch.Keeps.{resolved, KeptFiles, download-Keeps}
use tdrive_aliyunpan.Download.Fetch.Finished.{IsOnDrive, IsNamed, download-Delivered}

-- The server's header for the last half of the bytes from 4 below 8 of a file of ten.
validate_content_range-header_example :
    Verdict
      (validate_content_range (header (6 ∷ []) (7 ∷ []) (1 ∷ 0 ∷ [])) 6 8 (pos 10))
      6
      7
      10
      6
      8
      (pos 10)
validate_content_range-header_example =
    validate_content_range-header (6 ∷ []) (7 ∷ []) (1 ∷ 0 ∷ []) 6 8 (pos 10) (omega arith)
      (omega arith) (omega arith)

abbrev counting : Content
counting place = place

abbrev half : Response
half = record {
  status = 206;
  content_range = codes "bytes 6-7/10";
  message = [];
  body = λ i. 6 + i;
  arrives = 2;
}

abbrev answers : ℕ → Answer
answers zero = failed false
answers (suc n) = answered half

abbrev round : ℕ → Round
round k = record {
  ended = false;
  stored = some 0;
  others = λ url. url;
  now = pos 0;
  fetched = some (codes "u");
  answer = λ lo hi. answers k;
  turns = λ n. record { refuses = false; write = Write.whole };
  cut = false;
}

round-Serves : (k lo hi : ℕ) → Serves counting ((round k).answer lo hi)
unfolding scan_range literal skip_blanks scan_int scan_word until_blank scan_digits trim_left
    trim_right trim_space
round-Serves zero lo hi = tt
round-Serves (suc n) lo hi =
    ((λ e. absurd (omega arith)), λ e first last word named i. ground arith)

abbrev second_chunk : Wanted
second_chunk = record { index = 1; begin = 4; end = 8; total = pos 10; retry = 3 }

abbrev no_links : Links
no_links = record { parse_url = λ t. none; parse_date = λ t. none }

abbrev half_done : Worker
half_done = record {
  file = λ place. place;
  tracker = record { base = pos 0; chunks = []; total = pos 10; report = none };
  flusher = record { offsets = []; changed = false };
  noted = 2 ∷ [];
  url = [];
  requests = [];
}

download_chunk_with_retry-Agrees_example :
    let (error, after) = download_chunk_with_retry no_links second_chunk round half_done in
    (error ≡ none → Agrees counting 4 4 after.file)
    × NotedAgree counting 4 after
    × SameOutside half_done.file 4 8 after.file
    × (length after.requests ≤ 3)
download_chunk_with_retry-Agrees_example =
    download_chunk_with_retry-Agrees counting no_links second_chunk round half_done 2 (omega arith)
      (omega arith) round-Serves refl refl (λ place from to. refl)

-- The first attempt fails; the second asks for the missing half.
second_chunk_whole : (download_chunk_with_retry no_links second_chunk round half_done).0 ≡ none
unfolding download_chunk_with_retry attempts_left current download_range refused copy_body
    validate_content_range scan_range literal skip_blanks scan_int scan_word until_blank scan_digits
    parse_int trim_left trim_right trim_space ◌-ℤ◌ report_calls set_chunk lookup note
second_chunk_whole = refl

abbrev same : Text → Text
same name = name

abbrev stage : List Text
stage = codes "s" ∷ []

abbrev film : Text
film = codes "/a/b"

film-clean : clean_download_path same film ≡ ok film
unfolding clean_download_path trim_left trim_right trim_space clean_names split_slash join_slash
    clean_step clean_parts unsafe_windows_name unsafe_file_name
film-clean = refl

staged_path-IsBelow_example :
    (names : List Text) × (film ≡ rooted names)
    × (names ≢ [])
    × All IsName names
    × All (λ n. unsafe_windows_name same n ≡ false) names
    × ((below : List Text) × All IsName below
        × (staged_path (rooted stage) film ≡ rooted (stage ++ below))
        × (trim_space film ≡ film → below ≡ names))
staged_path-IsBelow_example =
    staged_path-IsBelow same stage film film
      (((ground arith, tt), (λ e. cc), (λ e. cc), (λ e. cc)), tt) film-clean

abbrev request : DownloadRequest
request = record {
  cloud_path = film;
  stage_dir = codes "/s";
  file_id = codes "f";
  drive_id = codes "d";
  slice_parallel = pos 0;
  retry = pos 0;
  timeout = pos 0;
  chunk_size = pos 4;
}

abbrev cloud_file : CloudFile
cloud_file = record { id = codes "f"; size = pos 10; hash = codes "h"; folder = false }

abbrev world : Chunked → World
world chunked = record {
  resolve_drive = err Fault.no_drive;
  file_by_id = λ drive id. ok (some cloud_file);
  file_by_path = λ drive path. err Fault.not_found;
  remove_finished = false;
  remove_legacy = false;
  make_dir = false;
  remove_partial = false;
  open_partial = false;
  truncate = false;
  save = false;
  close = false;
  rename = false;
  forget_partial = false;
  forget_sidecar = false;
  chunks = λ c left. chunked;
}

abbrev broken : World
broken = world (record { error = some Fault.chunks_failed; saved = none; reported = [] })

abbrev working : World
working = world (record { error = none; saved = none; reported = pos 10 ∷ [] })

abbrev begun : CheckpointFile
begun = new_checkpoint (identity (resolved request film (codes "d")) cloud_file)

abbrev interrupted : Staging
interrupted = record {
  finished = Node.absent;
  legacy = Node.absent;
  partial = Node.regular (pos 10);
  sidecar = some (document plain letters begun);
}

abbrev reread : CheckpointFile
reread = record {
  done = false ∷ false ∷ false ∷ [];
  partial = [];
  meta = record (document plain letters begun) { hash = codes "h"; version = pos 2 };
}

interrupted-resumable :
    resumable plain letters (identity (resolved request film (codes "d")) cloud_file) interrupted
    ≡ some reread
unfolding load_checkpoint is_same_file document new_checkpoint chunk_count decode_chunk_bitmap
    decode_bytes encode_chunk_bitmap bitmap_bytes byte_at bit_at tabulate encode_partial
    decode_partial with_defaults
interrupted-resumable = refl

broken-fails :
    (download plain letters same broken request (pos 10) interrupted).outcome
    ≡ err Fault.chunks_failed
unfolding download find_file with_defaults clean_download_path trim_left trim_right trim_space
    clean_names split_slash join_slash clean_step clean_parts unsafe_windows_name unsafe_file_name
    join_path staged_path load_checkpoint is_same_file document new_checkpoint chunk_count
    decode_chunk_bitmap decode_bytes encode_chunk_bitmap bitmap_bytes byte_at bit_at tabulate
    encode_partial decode_partial pending pending_from
broken-fails = refl

download-Keeps_example :
    KeptFiles plain letters broken reread interrupted
      (download plain letters same broken request (pos 10) interrupted).files
download-Keeps_example =
    download-Keeps plain letters same broken request (pos 10) interrupted film (codes "d")
      cloud_file reread Fault.chunks_failed refl film-clean (unfold with_defaults in refl)
      (unfold find_file with_defaults in refl) interrupted-resumable broken-fails

working-succeeds :
    (download plain letters same working request (pos 10) interrupted).outcome ≡ ok (codes "/s/a/b")
unfolding download find_file with_defaults clean_download_path trim_left trim_right trim_space
    clean_names split_slash join_slash clean_step clean_parts unsafe_windows_name unsafe_file_name
    join_path staged_path load_checkpoint is_same_file document new_checkpoint chunk_count
    decode_chunk_bitmap decode_bytes encode_chunk_bitmap bitmap_bytes byte_at bit_at tabulate
    encode_partial decode_partial pending pending_from
working-succeeds = refl

download-Delivered_example :
    (p : Text) × (clean_download_path same film ≡ ok p)
    × ((drive : Text) × (f : CloudFile) × IsOnDrive working request.drive_id drive
        × IsNamed working drive p request.file_id f
        × (f.folder ≡ false)
        × ((pos 10 <ℤ pos 0) ⊎ (f.size ≡ pos 10))
        × (codes "/s/a/b" ≡ staged_path (codes "/s") p)
        × ((download plain letters same working request (pos 10) interrupted).files.finished
            ≡ Node.regular f.size))
download-Delivered_example =
    download-Delivered plain letters same working request (pos 10) interrupted (codes "/s/a/b")
      working-succeeds
