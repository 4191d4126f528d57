-- ===== src/I18n/Errors.antt =====
-- web/src/lib/i18n.tsx: apiErrorMessage.
use tenancit.Base.{ℕ, ◌||◌, Text, codes, text_eq, ◌==◌, leb, if◌then◌else◌}

-- What the function tells apart: the timeout, the answer of the server, and any other error.
pub data ClientError : Type 0 where
  timed_out : ClientError
  api_error : (status : ℕ) (server_message : Text) → ClientError
  unknown : ClientError

-- The `switch` on the status, and the test behind it.
abbrev pub status_key : ℕ → Text
status_key status =
    if status == 400
    then codes "errors.invalidData"
    else if status == 401
    then codes "auth.invalidToken"
    else if status == 403
    then codes "errors.forbidden"
    else if status == 404
    then codes "errors.notFound"
    else if status == 409
    then codes "errors.conflict"
    else if status == 412 || status == 428
    then codes "errors.precondition"
    else if leb 500 status
    then codes "errors.server"
    else codes "errors.generic"

-- The key that is given to `t`.
unfoldable pub error_key : ClientError → Text
error_key timed_out = codes "errors.timeout"
error_key (api_error status server_message) =
    if text_eq server_message (codes "definition_in_use")
    then codes "errors.definitionInUse"
    else status_key status
error_key unknown = codes "errors.generic"

unfoldable pub api_error_message {ℓ} : {A : Type ℓ} → ClientError → (t : Text → A) → A
api_error_message e t = t (error_key e)
