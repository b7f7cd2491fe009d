-- ===== src/HttpError.antt =====
-- src/error.rs: the errors of the HTTP handlers and their responses. `internal` also writes a line
-- to the log, which is not modelled; the message it answers with does not depend on the error.
use eal_api.Prelude.{ℕ}
use eal_api.Text.{Text, text}

pub record HttpError : Type 0 where
  pub status : ℕ
  pub code : Text
  pub message : Text

unfoldable pub new : ℕ → Text → Text → HttpError
new status code message = record { status = status; code = code; message = message }

unfoldable pub validation : Text → HttpError
unfolding new text
validation error = new 422 (text "validation_error") error

unfoldable pub bad_request : Text → HttpError
unfolding new text
bad_request message = new 400 (text "bad_request") message

unfoldable pub unauthorized : Text → HttpError
unfolding new text
unauthorized message = new 401 (text "unauthorized") message

unfoldable pub forbidden : Text → HttpError
unfolding new text
forbidden message = new 403 (text "forbidden") message

unfoldable pub not_found : Text → HttpError
unfolding new text
not_found message = new 404 (text "not_found") message

unfoldable pub conflict : Text → HttpError
unfolding new text
conflict message = new 409 (text "conflict") message

unfoldable pub database_required : HttpError
unfolding new text
database_required =
    new 503 (text "database_required") (text "this route requires durable PostgreSQL storage")

unfoldable pub ingest_auth_required : HttpError
unfolding new text
ingest_auth_required =
    new 503 (text "ingest_auth_required")
      (text "page ingestion is disabled until crawler authentication is configured")

unfoldable pub internal : HttpError
unfolding new text
internal = new 500 (text "internal_error") (text "the request could not be completed")

pub record ErrorBody : Type 0 where
  pub code : Text
  pub message : Text

-- `into_response`: the status line and the JSON body.
unfoldable pub into_response : HttpError → ℕ × ErrorBody
into_response error = (error.status, record { code = error.code; message = error.message })
