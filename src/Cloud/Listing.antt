-- ===== src/Cloud/Listing.antt =====
-- Listings and deletions: `List`, `Remove` and `RemoveByID` of internal/aliyunpan/source_client.go, with the
-- paths and the conversion of source_models.go. What a request answers is an argument; a listing
-- is what the walk of Sync/Walk is given.
pub mod Pages
pub mod Deletions
use tdrive_aliyunpan.Base.{
  ℕ, zero, suc, ◌+◌, Bool, true, false, not, ◌&&◌, ◌||◌, List, [], ◌∷◌, ◌++◌, Option, none, some, ℤ,
  Text, codes, is_empty, text_eq, contains, any, length, leb, ◌==◌, Result, ok, err, if◌then◌else◌,
}
use tdrive_aliyunpan.Settings.Paths.{trim_space, join_slash}
use tdrive_aliyunpan.Download.Path.{clean_names, rooted, join_path}
use tdrive_aliyunpan.Sync.Scan.{Entry}
use tdrive_aliyunpan.Sync.Walk.{Node}
use tdrive_aliyunpan.Cloud.Request.{Words, RequestError}
use tdrive_aliyunpan.Cloud.Drives.{Drive}

pub data ListError : Type 0 where
  requested : RequestError → ListError
  nul_path no_drive repeated_marker drive_root missing_id : ListError

-- `cleanCloudPath`
unfoldable pub clean_cloud_path : Text → Result ListError Text
clean_cloud_path raw =
    let path = trim_space raw in
    if any (λ c. c == 0) raw
    then err ListError.nul_path
    else if is_empty path
    then ok (codes "/")
    else ok (rooted (clean_names path))

-- `joinCloudPath`
unfoldable pub join_cloud_path : Text → Text → Text
join_cloud_path parent name =
    if is_empty parent || text_eq parent (codes "/") then b'/' ∷ name else join_path parent name

abbrev is_hex_digit : ℕ → Bool
is_hex_digit c =
    (leb b'0' c && leb c b'9') || ((leb b'a' c && leb c b'f') || (leb b'A' c && leb c b'F'))

-- `normalizeSHA1`; a text of hexadecimal digits has as many bytes as characters.
unfoldable pub normalize_sha1 : Words → Text → Text
normalize_sha1 s value =
    if not (length value == 40) || any (λ c. not (is_hex_digit c)) value
    then []
    else s.to_lower value

-- `openapi.FileItem`
pub record FileItem : Type 0 where
  pub file_id : Text
  pub name : Text
  pub size : ℤ
  pub content_hash : Text
  pub folder : Bool

-- `convertFileEntity` of `fileItemToEntity`, for a path that is not empty.
unfoldable pub convert_file_entity : Words → Text → FileItem → Node
convert_file_entity s path item = record {
  entry = record {
    file_id = item.file_id;
    name = item.name;
    path = path;
    size = item.size;
    sha1 = normalize_sha1 s item.content_hash;
  };
  is_dir = item.folder;
}

-- `openapi.FileListResult`; an item may be nil.
pub record Page : Type 0 where
  pub items : List (Option FileItem)
  pub next_marker : Text

-- The entries of a page of a directory.
unfoldable pub page_entries : Words → Text → List (Option FileItem) → List Node
page_entries s dir [] = []
page_entries s dir (none ∷ items) = page_entries s dir items
page_entries s dir (some item ∷ items) =
    convert_file_entity s (join_cloud_path dir item.name) item ∷ page_entries s dir items

-- The entries or an error, and the pages asked for.
pub record Listed : Type 0 where
  pub outcome : Result ListError (List Node)
  pub pages : ℕ

abbrev pub found : Result ListError (List Node) → Listed
found outcome = record { outcome = outcome; pages = 1 }

abbrev pub with_entries : List Node → Result ListError (List Node) → Result ListError (List Node)
with_entries nodes (ok more) = ok (nodes ++ more)
with_entries nodes (err e) = err e

abbrev pub add_page : List Node → Option Listed → Option Listed
add_page nodes none = none
add_page nodes (some l) =
    some (record { outcome = with_entries nodes l.outcome; pages = suc l.pages })

abbrev pub after_page :
    Words
    → Text
    → (List Text → Option Listed)
    → List Text
    → Result RequestError Page
    → Option Listed
after_page s dir next seen (err e) = some (found (err (ListError.requested e)))
after_page s dir next seen (ok page) =
    if is_empty page.next_marker
    then some (found (ok (page_entries s dir page.items)))
    else if contains seen page.next_marker
    then some (found (err ListError.repeated_marker))
    else add_page (page_entries s dir page.items) (next (page.next_marker ∷ seen))

-- The loop over pages, by what the server answers to each request in turn; none is out of fuel.
unfoldable pub list_pages :
    Words → Text → (ℕ → Result RequestError Page) → ℕ → ℕ → List Text → Option Listed
list_pages s dir answers zero n seen = none
list_pages s dir answers (suc fuel) n seen =
    after_page s dir (list_pages s dir answers fuel (suc n)) seen (answers n)

abbrev pub answered : Result RequestError FileItem → Result ListError FileItem
answered (ok item) = ok item
answered (err e) = err (ListError.requested e)

-- `fileByPath`, with the API package's root directory and the answers to the request, by drive and path, which the root
-- needs not.
unfoldable pub file_by_path :
    FileItem
    → (Text → Text → Result RequestError FileItem)
    → Text
    → Text
    → Result ListError FileItem
file_by_path root files drive path =
    if text_eq path (codes "/") then ok root else answered (files drive path)

-- What the cloud answers to a listing or a deletion.
pub record CloudAnswers : Type 0 where
  pub backup_drive : Option Drive
  pub root : FileItem
  pub file : Text → Text → Result RequestError FileItem
  pub pages : ℕ → Result RequestError Page
  pub deleted : Option RequestError

abbrev list_target : Words → CloudAnswers → ℕ → Text → Result ListError FileItem → Option Listed
list_target s c fuel path (err e) = some (record { outcome = err e; pages = 0 })
list_target s c fuel path (ok item) =
    if item.folder
    then list_pages s path c.pages fuel 0 ([] ∷ [])
    else some (record { outcome = ok (convert_file_entity s path item ∷ []); pages = 0 })

abbrev list_path : Words → CloudAnswers → ℕ → Text → Result ListError Text → Option Listed
list_path s c fuel drive (err e) = some (record { outcome = err e; pages = 0 })
list_path s c fuel drive (ok path) =
    list_target s c fuel path (file_by_path c.root c.file drive path)

-- `firstString` of the drive IDs, or the backup drive's.
abbrev pub selected_drive : Text → Option Drive → Option Text
selected_drive id backup =
    if not (is_empty (trim_space id))
    then some (trim_space id)
    else elim backup [ none ↦ none | some d ↦ some d.id ]

-- `List`
unfoldable pub list_entries : Words → CloudAnswers → ℕ → Text → Text → Option Listed
unfolding clean_cloud_path file_by_path list_pages
list_entries s c fuel cloud_path drive_id = elim (selected_drive drive_id c.backup_drive) [
  | none ↦ some (record { outcome = err ListError.no_drive; pages = 0 })
  | some id ↦ list_path s c fuel id (clean_cloud_path cloud_path)
]

-- The IDs that a deletion was asked for, if one was, and its error.
abbrev pub Deletion : Type 0
Deletion = Option (Text × Text) × Option ListError

-- `RemoveByID`
unfoldable pub remove_by_id : CloudAnswers → Text → Text → Deletion
remove_by_id c drive_id file_id =
    if is_empty drive_id || is_empty file_id then (none, some ListError.missing_id) else (
      some (drive_id, file_id),
      elim c.deleted [ none ↦ none | some e ↦ some (ListError.requested e) ],
    )

abbrev pub remove_file : CloudAnswers → Text → Result ListError FileItem → Deletion
remove_file c drive (err e) = (none, some e)
remove_file c drive (ok item) = remove_by_id c drive item.file_id

abbrev pub remove_on : CloudAnswers → Text → Option Text → Deletion
remove_on c path none = (none, some ListError.no_drive)
remove_on c path (some id) = remove_file c id (file_by_path c.root c.file id path)

abbrev pub remove_path : CloudAnswers → Text → Result ListError Text → Deletion
remove_path c drive_id (err e) = (none, some e)
remove_path c drive_id (ok path) =
    if text_eq path (codes "/")
    then (none, some ListError.drive_root)
    else remove_on c path (selected_drive drive_id c.backup_drive)

-- `Remove`
unfoldable pub remove : CloudAnswers → Text → Text → Deletion
remove c cloud_path drive_id = remove_path c drive_id (clean_cloud_path cloud_path)
