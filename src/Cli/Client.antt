-- ===== src/Cli/Client.antt =====
-- internal/apiclient/apiclient.go, internal/cli/client.go and exit.go: a request of the client, its errors
-- and the exit codes of the command. What arrives is a parameter: no reply, or a status with what the
-- decoder makes of the body, as an error or as the value asked for, and its text.
pub mod Laws
mod Tests
use bazel_broker.Common.{
  ℕ, Bool, true, false, ◌&&◌, Option, none, some, [], ◌++◌, GoString, is_empty, lit, leb, ◌==◌,
  if◌then◌else◌,
}

-- `api.ErrorResponse`.
pub record ErrorFields : Type 0 where
  pub code : GoString
  pub message : GoString
  pub epic : GoString

pub record StatusError : Type 0 where
  pub status : ℕ
  pub fields : ErrorFields

-- A transport error, a status error, or another error of the client, such as a body that does not decode.
pub data ClientError : Type 0 where
  transport_error other_error : ClientError
  status_error : StatusError → ClientError

pub data Reply {ℓ} (A : Type ℓ) : Type ℓ where
  no_reply : Reply A
  reply :
      (status : ℕ)
      → (parsed : Option ErrorFields) → (text : GoString) → (decoded : Option A) → Reply A

pub data Fetched {ℓ} (A : Type ℓ) : Type ℓ where
  received : A → Fetched A
  refused : ClientError → Fetched A

-- The exit codes.
abbrev pub exit_ok : ℕ
exit_ok = 0

abbrev pub exit_unavailable : ℕ
exit_unavailable = 3

abbrev pub exit_auth : ℕ
exit_auth = 4

abbrev pub exit_broker : ℕ
exit_broker = 5

abbrev pub exit_not_implemented : ℕ
exit_not_implemented = 6

-- `newStatusError`; `trim_space` is `strings.TrimSpace`.
unfoldable pub new_status_error :
    (trim_space : GoString → GoString) → ℕ → Option ErrorFields → GoString → StatusError
new_status_error trim_space status parsed text =
    let f : ErrorFields = elim parsed [
      | none ↦ record { code = []; message = []; epic = [] }
      | some g ↦ g
    ] in
    record {
      status = status;
      fields =
          if is_empty f.code && is_empty f.message
          then record f { message = trim_space text }
          else f;
    }

-- `Client.do`, where a value is asked for.
unfoldable pub do_request {ℓ} :
    {A : Type ℓ} → (trim_space : GoString → GoString) → Reply A → Fetched A
do_request trim_space no_reply = refused transport_error
do_request trim_space (reply status parsed text decoded) =
    if leb 400 status
    then refused (status_error (new_status_error trim_space status parsed text))
    else elim decoded [ none ↦ refused other_error | some a ↦ received a ]

-- `mapErr`: the exit code of the error.
unfoldable pub map_err : ClientError → ℕ
map_err transport_error = exit_unavailable
map_err other_error = exit_broker
map_err (status_error e) =
    if e.status == 401
    then exit_auth
    else if e.status == 501
    then exit_not_implemented
    else exit_broker

-- `ExitCodeFor`, after a method of the command's client.
unfoldable pub exit_code_for {ℓ} : {A : Type ℓ} → Fetched A → ℕ
exit_code_for (received a) = exit_ok
exit_code_for (refused e) = map_err e

-- The header that `do` sets.
abbrev pub bearer : (token : GoString) → GoString
bearer token = lit "Bearer " ++ token
