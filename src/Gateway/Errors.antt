-- ===== src/Gateway/Errors.antt =====
-- The error codes of shared/errors.go and ClassifyError of shared/response.go, which turns an error
-- into the status and the code of the answer. Messages and field details are left out.
use mokibox.Shared.{ℕ, ◌≡◌, refl, Option, none, some, if◌then◌else◌, ◌==◌}

pub data ErrorCode : Type 0 where
  code_validation_error code_unauthorized code_forbidden code_not_found : ErrorCode
  code_video_status_conflict code_video_not_ready code_upload_missing : ErrorCode
  code_upload_size_invalid code_self_follow_not_allowed code_webhook_invalid_signature : ErrorCode
  code_webhook_event_unsupported code_internal_error code_rate_limited : ErrorCode

-- The sentinel that errors.Is finds, or `other` if it finds none of them.
pub data Sentinel : Type 0 where
  err_validation err_unauthorized err_forbidden err_not_found err_video_status_conflict : Sentinel
  err_video_not_ready err_upload_missing err_upload_size_invalid err_self_follow : Sentinel
  err_webhook_signature err_webhook_event err_internal err_rate_limited other : Sentinel

-- httpStatusFor
unfoldable pub http_status_for : Sentinel → ℕ
http_status_for err_validation = 400
http_status_for err_unauthorized = 401
http_status_for err_forbidden = 403
http_status_for err_not_found = 404
http_status_for err_video_status_conflict = 409
http_status_for err_video_not_ready = 409
http_status_for err_upload_missing = 409
http_status_for err_upload_size_invalid = 400
http_status_for err_self_follow = 400
http_status_for err_webhook_signature = 401
http_status_for err_webhook_event = 400
http_status_for err_rate_limited = 429
http_status_for err_internal = 500
http_status_for other = 500

-- httpStatusForCode
unfoldable pub http_status_for_code : ErrorCode → ℕ
http_status_for_code code_validation_error = 400
http_status_for_code code_upload_size_invalid = 400
http_status_for_code code_self_follow_not_allowed = 400
http_status_for_code code_webhook_event_unsupported = 400
http_status_for_code code_unauthorized = 401
http_status_for_code code_webhook_invalid_signature = 401
http_status_for_code code_forbidden = 403
http_status_for_code code_not_found = 404
http_status_for_code code_video_status_conflict = 409
http_status_for_code code_video_not_ready = 409
http_status_for_code code_upload_missing = 409
http_status_for_code code_rate_limited = 429
http_status_for_code code_internal_error = 500

-- codeFor
unfoldable pub code_for : Sentinel → ErrorCode
code_for err_validation = code_validation_error
code_for err_unauthorized = code_unauthorized
code_for err_forbidden = code_forbidden
code_for err_not_found = code_not_found
code_for err_video_status_conflict = code_video_status_conflict
code_for err_video_not_ready = code_video_not_ready
code_for err_upload_missing = code_upload_missing
code_for err_upload_size_invalid = code_upload_size_invalid
code_for err_self_follow = code_self_follow_not_allowed
code_for err_webhook_signature = code_webhook_invalid_signature
code_for err_webhook_event = code_webhook_event_unsupported
code_for err_rate_limited = code_rate_limited
code_for err_internal = code_internal_error
code_for other = code_internal_error

-- An error: nil, Wrap of a sentinel or another error, or an APIError with its code ("" is none), its
-- status override (0 is none) and the sentinel of its cause.
pub data Error : Type 0 where
  nil : Error
  wrapped : Sentinel → Error
  api_error : Option ErrorCode → ℕ → Sentinel → Error

abbrev pub api_code : Option ErrorCode → Sentinel → ErrorCode
api_code none cause = code_for cause
api_code (some code) cause = code

-- ClassifyError: the status and the code.
unfoldable pub classify_error : Error → ℕ × ErrorCode
unfolding http_status_for http_status_for_code code_for
classify_error nil = (500, code_internal_error)
classify_error (wrapped s) = (http_status_for s, code_for s)
classify_error (api_error code status cause) =
    let found = api_code code cause in
    (if status == 0 then http_status_for_code found else status, found)

-- NewAPIError
abbrev pub new_api_error : ErrorCode → Error
new_api_error code = api_error (some code) 0 other

http_status_for-code_for : (s : Sentinel) → http_status_for s ≡ http_status_for_code (code_for s)
unfolding http_status_for http_status_for_code code_for
http_status_for-code_for err_validation = refl
http_status_for-code_for err_unauthorized = refl
http_status_for-code_for err_forbidden = refl
http_status_for-code_for err_not_found = refl
http_status_for-code_for err_video_status_conflict = refl
http_status_for-code_for err_video_not_ready = refl
http_status_for-code_for err_upload_missing = refl
http_status_for-code_for err_upload_size_invalid = refl
http_status_for-code_for err_self_follow = refl
http_status_for-code_for err_webhook_signature = refl
http_status_for-code_for err_webhook_event = refl
http_status_for-code_for err_rate_limited = refl
http_status_for-code_for err_internal = refl
http_status_for-code_for other = refl

-- The status that an error overrides the table with, or 0.
abbrev pub status_of : Error → ℕ
status_of nil = 0
status_of (wrapped s) = 0
status_of (api_error code status cause) = status

-- Unless an error overrides its status, the status and the code of the answer agree: the two tables
-- of statuses, by sentinel and by code, are one.
pub classify_error-agrees :
    (e : Error) → status_of e ≡ 0 → (classify_error e).0 ≡ http_status_for_code (classify_error e).1
unfolding classify_error
classify_error-agrees nil z = refl
classify_error-agrees (wrapped s) z = http_status_for-code_for s
classify_error-agrees (api_error code status cause) z = rw z refl
