-- ===== src/Messages.antt =====
-- What the pages of frontend/src/app make of an error that a request threw.
use pwa_attendance_record_sy.Prelude.{List, [], Option}
use pwa_attendance_record_sy.Text.{Text}
use pwa_attendance_record_sy.Api.Values.{Json}

-- What a page tells the user: a message of the language files with its parameters, or
-- the text of an error as it is.
pub data Note : Type 0 where
  said : Text → List (Text × Text) → Note
  raw : Text → Note

-- What a request may throw: an `ApiError`, by its code and message, another error, or no error.
pub data Thrown : Type 0 where
  api_error : Option Json → Text → Thrown
  plain_error : Text → Thrown
  other : Thrown

-- `err instanceof Error ? err.message : t(fallback)`
unfoldable pub message_or : Thrown → Text → Note
message_or (api_error code message) fallback = raw message
message_or (plain_error message) fallback = raw message
message_or other fallback = said fallback []
