-- ===== src/Cloud/Tests.antt =====
-- Requests, listings and deletions of the client at concrete answers, and the theorems applied to them.
use tdrive_aliyunpan.Base.{
  if◌then◌else◌, err, ℕ, zero, suc, ◌≤◌, ◌≡◌, ◌≢◌, refl, true, false, [], ◌∷◌, none, some, pos,
  Text, codes, text_eq, length, Result, ok, arith,
}
use tdrive_aliyunpan.Settings.Paths.{
  trim_left, trim_right, trim_space, split_slash, join_slash, clean_step, clean_parts,
}
use tdrive_aliyunpan.Download.Path.{clean_names}
use tdrive_aliyunpan.Cloud.Request.{
  Words, RequestError, Transport, World, Sent, decode_api_response_error, refresh_access_token,
  send_once, request_json,
}
use tdrive_aliyunpan.Cloud.Request.Bounds.{Accepted, HasTokens, request_json-bounded}
use tdrive_aliyunpan.Cloud.Drives.{drives_from_info, drive_backup, drive_resource}
use tdrive_aliyunpan.Cloud.Listing.{
  FileItem, Page, Listed, CloudAnswers, clean_cloud_path, file_by_path, list_pages, remove_by_id,
  remove,
}
use tdrive_aliyunpan.Cloud.Listing.Pages.{Gathers, GivesMarkers, list_pages-ends}
use tdrive_aliyunpan.Cloud.Listing.Deletions.{Names, remove-Names}

abbrev words : Words
words = record { to_lower = λ t. t; equal_fold = text_eq }

-- The first token has expired; the second request is answered.
abbrev answer : ℕ → ℕ → Transport
answer zero t = Transport.replied (record { status = 401; code = []; message = []; decodes = true })
answer (suc a) t =
    Transport.replied (record { status = 200; code = []; message = []; decodes = true })

abbrev world : World
world = record {
  others = λ a t c. c;
  transport = answer;
  cut = λ a t. false;
  token = some (record { access_token = codes "new"; expires = pos 9; refresh_token = [] });
  saves = true;
}

abbrev logged_in : Sent
logged_in = record {
  credentials = record {
    user_id = codes "u";
    ticket_id = codes "t";
    access = codes "old";
    refresh = codes "r";
    expired = pos 1;
    revision = 4;
  };
  tokens = [];
  refreshes = 0;
}

sent_twice :
    ((request_json words world logged_in).0 ≡ none)
    × ((request_json words world logged_in).1.tokens ≡ codes "new" ∷ codes "old" ∷ [])
unfolding request_json send_once decode_api_response_error refresh_access_token
sent_twice = (refl, refl)

request_json-bounded_example :
    let (outcome, after) = request_json words world logged_in in
    (length after.tokens ≤ 6)
    × (after.refreshes ≤ 1)
    × (HasTokens logged_in → HasTokens after)
    × (outcome ≡ none → Accepted words world)
request_json-bounded_example = request_json-bounded words world logged_in

account_drives :
    drives_from_info
      (record { backup_drive_id = []; resource_drive_id = codes "r"; default_drive_id = codes "b" })
    ≡ record { id = codes "b"; name = codes "备份盘"; kind = drive_backup }
      ∷ record { id = codes "r"; name = codes "资源库"; kind = drive_resource }
      ∷ []
unfolding drives_from_info
account_drives = refl

abbrev film : FileItem
film = record {
  file_id = codes "f";
  name = codes "film";
  size = pos 7;
  content_hash = [];
  folder = false;
}

-- A page and the last one, over and over.
abbrev page : ℕ → Page
page zero = record { items = some film ∷ none ∷ []; next_marker = codes "m" }
page (suc n) = record { items = some film ∷ []; next_marker = [] }

abbrev pages : ℕ → Result RequestError Page
pages n = ok (page n)

pages-GivesMarkers : GivesMarkers (codes "m" ∷ []) pages
pages-GivesMarkers zero p h k = ground (arith, h)
pages-GivesMarkers (suc n) p h k = ground (arith, h, k)

list_pages-ends_example :
    (l : Listed) × (list_pages words (codes "/") pages 2 0 ([] ∷ []) ≡ some l)
    × (l.pages ≤ 2)
    × Gathers words (codes "/") pages 0 l
list_pages-ends_example =
    list_pages-ends words (codes "/") pages (codes "m" ∷ []) pages-GivesMarkers

abbrev cloud : CloudAnswers
cloud = record {
  backup_drive = some (record { id = codes "b"; name = codes "备份盘"; kind = drive_backup });
  root = record film { folder = true };
  file =
      λ drive path. if text_eq path (codes "/a/film") then ok film else err RequestError.no_token;
  pages = pages;
  deleted = none;
}

film-removed : (remove cloud (codes "/a/film") []).0 ≡ some (codes "b", codes "f")
unfolding remove clean_cloud_path file_by_path remove_by_id trim_left trim_right trim_space
    clean_names split_slash join_slash clean_step clean_parts
film-removed = refl

remove-Names_example :
    (path : Text) × (clean_cloud_path (codes "/a/film") ≡ ok path)
    × (path ≢ codes "/")
    × Names (codes "b") (codes "f") [] cloud path
remove-Names_example = remove-Names cloud (codes "/a/film") [] (codes "b") (codes "f") film-removed
