-- ===== src/Download/Link.antt =====
-- Signed download links: `ossURLExpiry` and `downloadURLExhausted` of internal/aliyunpan/source_url.go, and
-- `downloadURLState` of source_download.go. `url.Parse` and `time.Parse` are the arguments of `Links`; a
-- time is its nanoseconds since 1970.
use tdrive_aliyunpan.Base.{
  Bool, false, not, ◌&&◌, Option, none, some, ℤ, pos, ◌+ℤ◌, leb_ℤ, ltb_ℤ, Text, is_empty, text_eq,
  [], if◌then◌else◌,
}
use tdrive_aliyunpan.Base.Decimals.{parse_int}
use tdrive_aliyunpan.Settings.Paths.{trim_space}
use tdrive_aliyunpan.Settings.Backoff.{seconds, scale}

-- The first values of a link's query, empty where there is none.
pub record SignedQuery : Type 0 where
  pub oss_expires : Text
  pub plain_expires : Text
  pub oss_date : Text

pub record Links : Type 0 where
  pub parse_url : Text → Option SignedQuery
  pub parse_date : Text → Option ℤ

abbrev pub download_url_grace : ℤ
download_url_grace = pos 60_000_000_000

abbrev pub earliest_absolute_expiry : ℤ
earliest_absolute_expiry = pos 1_000_000_000

abbrev after_start : ℤ → Option ℤ → Option ℤ
after_start lifetime none = none
after_start lifetime (some start) = some (start +ℤ seconds lifetime)

abbrev deadline : Links → SignedQuery → Option ℤ → Option ℤ
deadline l q none = none
deadline l q (some lifetime) =
    if leb_ℤ lifetime (pos 0)
    then none
    else if not (is_empty (trim_space q.oss_date))
    then after_start lifetime (l.parse_date (trim_space q.oss_date))
    else if ltb_ℤ lifetime earliest_absolute_expiry
    then none
    else some (scale 1_000_000_000 lifetime)

abbrev expires_of : SignedQuery → Text
expires_of q =
    if is_empty (trim_space q.oss_expires)
    then trim_space q.plain_expires
    else trim_space q.oss_expires

abbrev query_expiry : Links → Option SignedQuery → Option ℤ
query_expiry l none = none
query_expiry l (some q) =
    if is_empty (expires_of q) then none else deadline l q (parse_int (expires_of q))

-- `ossURLExpiry`
unfoldable pub oss_url_expiry : Links → Text → Option ℤ
oss_url_expiry l raw = query_expiry l (l.parse_url raw)

abbrev is_spent : ℤ → Option ℤ → Bool
is_spent now none = false
is_spent now (some deadline) = leb_ℤ deadline (now +ℤ download_url_grace)

-- `downloadURLExhausted`
unfoldable pub download_url_exhausted : Links → Text → ℤ → Bool
unfolding oss_url_expiry
download_url_exhausted l raw now = is_spent now (oss_url_expiry l raw)

abbrev refreshed : Text → Option Text → Option Text × Text
refreshed url none = (none, url)
refreshed url (some fresh) = (some fresh, fresh)

-- `current`, with what `getDownloadURL` would answer: the link, if there is one, and the link held.
unfoldable pub current : Links → ℤ → Option Text → Text → Option Text × Text
unfolding download_url_exhausted
current l now fetched url =
    if not (is_empty url) && not (download_url_exhausted l url now)
    then (some url, url)
    else refreshed url fetched

-- `invalidate`
unfoldable pub invalidate : Text → Text → Text
invalidate stale url = if text_eq url stale then [] else url
