-- ===== src/Cloud/Request.antt =====
-- `requestJSON` with `decodeAPIResponseError`, `mapAPIError` and `refreshAccessToken` of
-- internal/aliyunpan/source_client.go. The transport's and the token service's answers are arguments, with
-- the fields that their JSON gives, and so are the words of `strings` that fold case.
pub mod Bounds
use tdrive_aliyunpan.Base.{
  ℕ, zero, suc, ◌+◌, Bool, true, false, not, ◌&&◌, ◌||◌, List, [], ◌∷◌, Option, none, some, ℤ, Text,
  codes, is_empty, text_eq, ltb, leb, ◌==◌, if◌then◌else◌,
}
use tdrive_aliyunpan.Download.Range.{has_part}

-- `strings.ToLower` and `strings.EqualFold`.
pub record Words : Type 0 where
  pub to_lower : Text → Text
  pub equal_fold : Text → Text → Bool

pub data RequestError : Type 0 where
  not_logged_in path_not_found api_error context_ended : RequestError
  request_failed unreadable unparsable refresh_failed no_token persist_failed : RequestError

-- An HTTP reply: its status, and the code and the message that `rawString` finds in its body. `decodes` is
-- whether the body is blank, not wanted or unmarshalled without an error.
pub record Reply : Type 0 where
  pub status : ℕ
  pub code : Text
  pub message : Text
  pub decodes : Bool

pub data Transport : Type 0 where
  lost : (ended : Bool) → Transport
  cut_off : Transport
  replied : Reply → Transport

-- `apiResponseError`
pub record ApiResponseError : Type 0 where
  pub status_code : ℕ
  pub code : Text
  pub message : Text
  pub token_expired : Bool
  pub retryable : Bool
  pub not_found : Bool

-- `codeIsSuccess`
unfoldable pub code_is_success : Words → Text → Bool
code_is_success s code =
    is_empty code
    || (text_eq code (codes "0")
        || (s.equal_fold code (codes "ok") || s.equal_fold code (codes "success")))

abbrev pub is_ok_status : ℕ → Bool
is_ok_status status = leb 200 status && ltb status 300

-- `decodeAPIResponseError`; the message is the one found, or what stands for an empty one.
unfoldable pub decode_api_response_error : Words → Reply → Option ApiResponseError
unfolding code_is_success has_part
decode_api_response_error s r =
    let code = s.to_lower r.code in
    if is_ok_status r.status && code_is_success s r.code
    then none
    else if is_ok_status r.status && is_empty r.code
    then none
    else some (record {
      status_code = r.status;
      code = r.code;
      message = r.message;
      token_expired =
          r.status == 401
          || (has_part (codes "accesstoken") code
              || (has_part (codes "tokenexpired") code || has_part (codes "invalidtoken") code));
      retryable = r.status == 429 || leb 500 r.status;
      not_found = r.status == 404 || has_part (codes "notfound.file") code;
    })

-- `mapAPIError`
unfoldable pub map_api_error : ApiResponseError → RequestError
map_api_error e =
    if e.token_expired
    then RequestError.not_logged_in
    else if e.not_found
    then RequestError.path_not_found
    else RequestError.api_error

-- The credentials that requests use, and `tokenRevision`.
pub record Credentials : Type 0 where
  pub user_id : Text
  pub ticket_id : Text
  pub access : Text
  pub refresh : Text
  pub expired : ℤ
  pub revision : ℕ

-- What the token service answers; `parseToken` gives its fields, empty where there are none.
pub record Token : Type 0 where
  pub access_token : Text
  pub expires : ℤ
  pub refresh_token : Text

abbrev pub with_token : Token → Credentials → Credentials
with_token t c = record c {
  access = t.access_token;
  expired = t.expires;
  refresh = if is_empty t.refresh_token then c.refresh else t.refresh_token;
  revision = c.revision + 1;
}

abbrev pub refreshed : Bool → Option Token → Credentials → Option RequestError × Credentials
refreshed saves none c = (some RequestError.refresh_failed, c)
refreshed saves (some t) c =
    if is_empty t.access_token
    then (some RequestError.no_token, c)
    else (if saves then none else some RequestError.persist_failed, with_token t c)

-- `refreshAccessToken`: another caller's refresh since the observed revision is enough.
unfoldable pub refresh_access_token :
    ℕ → Bool → Option Token → Credentials → Option RequestError × Credentials
refresh_access_token observed saves token c =
    if not (c.revision == observed) && not (is_empty c.access)
    then (none, c)
    else if is_empty c.ticket_id || is_empty c.user_id
    then (some RequestError.not_logged_in, c)
    else refreshed saves token c

-- What the world answers, by the attempts to authenticate and to send: what others do to the
-- credentials before a request, its outcome, and whether the context ends in the wait after it.
pub record World : Type 0 where
  pub others : ℕ → ℕ → Credentials → Credentials
  pub transport : ℕ → ℕ → Transport
  pub cut : ℕ → ℕ → Bool
  pub token : Option Token
  pub saves : Bool

-- The credentials, the tokens of the requests sent, the newest first, and the refreshes asked for.
pub record Sent : Type 0 where
  pub credentials : Credentials
  pub tokens : List Text
  pub refreshes : ℕ

-- How one request ends: with an outcome, in another one, or in another round of the outer loop.
pub data Verdict : Type 0 where
  ends : Option RequestError → Verdict
  again : Verdict
  restarts : Verdict

abbrev pub wait_then : Bool → Verdict
wait_then cut = if cut then ends (some RequestError.context_ended) else again

abbrev pub judged : World → ℕ → ℕ → ℕ → Sent → Option ApiResponseError → Bool → Verdict × Sent
judged w authentication transient observed s none decodes =
    (ends (if decodes then none else some RequestError.unparsable), s)
judged w authentication transient observed s (some e) decodes =
    let (failure, credentials) = refresh_access_token observed w.saves w.token s.credentials in
    let asked = record s { credentials = credentials; refreshes = s.refreshes + 1 } in
    if e.token_expired && authentication == 0
    then (elim failure [ none ↦ restarts | some f ↦ ends (some f) ], asked)
    else if e.retryable && ltb transient 2
    then (wait_then (w.cut authentication transient), s)
    else (ends (some (map_api_error e)), s)

abbrev pub received : Words → World → ℕ → ℕ → ℕ → Sent → Transport → Verdict × Sent
received s w authentication transient observed sent (lost true) =
    (ends (some RequestError.context_ended), sent)
received s w authentication transient observed sent (lost false) =
    if ltb transient 2
    then (wait_then (w.cut authentication transient), sent)
    else (ends (some RequestError.request_failed), sent)
received s w authentication transient observed sent cut_off =
    (ends (some RequestError.unreadable), sent)
received s w authentication transient observed sent (replied r) =
    judged w authentication transient observed sent (decode_api_response_error s r) r.decodes

-- One round of the inner loop.
unfoldable pub send_once : Words → World → ℕ → ℕ → ℕ → Sent → Verdict × Sent
send_once s w authentication transient observed sent =
    let credentials = w.others authentication transient sent.credentials in
    let current = record sent { credentials = credentials } in
    if is_empty credentials.access
    then (ends (some RequestError.not_logged_in), current)
    else received s w authentication transient observed
        (record current { tokens = credentials.access ∷ sent.tokens })
        (w.transport authentication transient)

abbrev pub go_on : (Sent → Verdict × Sent) → Verdict × Sent → Verdict × Sent
go_on next (again, sent) = next sent
go_on next (ends outcome, sent) = (ends outcome, sent)
go_on next (restarts, sent) = (restarts, sent)

-- The inner loop, on the rounds left of three.
unfoldable pub send_rounds : Words → World → ℕ → ℕ → ℕ → ℕ → Sent → Verdict × Sent
send_rounds s w authentication observed zero transient sent = (restarts, sent)
send_rounds s w authentication observed (suc left) transient sent =
    go_on (send_rounds s w authentication observed left (suc transient))
      (send_once s w authentication transient observed sent)

abbrev pub after_rounds :
    (Sent → Option RequestError × Sent) → Verdict × Sent → Option RequestError × Sent
after_rounds next (ends outcome, sent) = (outcome, sent)
after_rounds next (_, sent) = next sent

abbrev pub given_up : Sent → Option RequestError × Sent
given_up sent = (some RequestError.not_logged_in, sent)

-- `requestJSON`
unfoldable pub request_json : Words → World → Sent → Option RequestError × Sent
unfolding send_rounds
request_json s w sent =
    after_rounds
      (λ next. after_rounds given_up (send_rounds s w 1 next.credentials.revision 3 0 next))
      (send_rounds s w 0 sent.credentials.revision 3 0 sent)
