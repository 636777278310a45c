-- ===== src/Stores/ErrorText.antt =====
-- The texts of the errors shown to the user: utils/error/stringifyError.ts of
-- packages/frontend/src/app. Logging is left out.
use file_market.Base.{String, not, ◌&&◌, Option, none, some, str_eq, if◌then◌else◌}
use Prim.Native.String.{◌++◌ as ◌^^◌}

-- A thrown value as `stringifyError` looks at it: a text, an instance of `Error`, or anything
-- else, with what `JSON.stringify` gives or that it throws. The texts of conversion
-- by `+ ''` come with it. `JSON.stringify` is asked for an `Error` without its texts as well.
pub data Thrown : Type 0 where
  text : String → Thrown
  error_object :
      (name message stack : String) → (json : Option String) → (as_text : String) → Thrown
  other : (json : Option String) → (as_text : String) → Thrown

-- The last part of `stringifyError`
abbrev pub stringify_other : Option String → String → String
stringify_other none as_text = as_text
stringify_other (some str) as_text = if str_eq str "{}" then as_text else str

-- `stringifyError`; a missing text of an `Error` is the empty one
unfoldable pub stringify_error : Thrown → String
stringify_error (text t) = t
stringify_error (error_object name message stack json as_text) =
    if not (str_eq message "") && not (str_eq name "")
    then name ^^ (": " ^^ message)
    else if not (str_eq message "")
    then message
    else if not (str_eq stack "")
    then stack
    else stringify_other json as_text
stringify_error (other json as_text) = stringify_other json as_text

-- `ErrorResponse` of the backend's interface
pub record ErrorResponse : Type 0 where
  pub message : Option String
  pub detail : Option String

abbrev pub nullish_error : String
nullish_error = "received nullish error from the backend, but request was not successful"

-- `error.message || 'Unknown Error'`
abbrev pub message_part : Option String → String
message_part none = "Unknown Error"
message_part (some m) = if str_eq m "" then "Unknown Error" else m

-- `error.detail ? ': ' + error.detail : ''`
abbrev pub detail_part : Option String → String
detail_part none = ""
detail_part (some d) = if str_eq d "" then "" else ": " ^^ d

unfoldable pub error_response_to_message : Option ErrorResponse → String
error_response_to_message none = nullish_error
error_response_to_message (some e) =
    (message_part e.message ^^ detail_part e.detail) ^^ " Please try again"
