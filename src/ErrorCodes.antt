-- ===== src/ErrorCodes.antt =====
-- internal/moqt/draft18/errors.go: the names of the codes of REQUEST_ERROR.
use moqsub.Common.{ℕ, ◌==◌, if◌then◌else◌}
use moqsub.Common.Result.{Arg, literal, literal_hex}

unfoldable pub request_error_code_name : ℕ → Arg
request_error_code_name code =
    if code == 0x0
    then literal "INTERNAL_ERROR"
    else if code == 0x1
    then literal "UNAUTHORIZED"
    else if code == 0x2
    then literal "TIMEOUT"
    else if code == 0x3
    then literal "NOT_SUPPORTED"
    else if code == 0x4
    then literal "MALFORMED_AUTH_TOKEN"
    else if code == 0x5
    then literal "EXPIRED_AUTH_TOKEN"
    else if code == 0x6
    then literal "GOING_AWAY"
    else if code == 0x9
    then literal "EXCESSIVE_LOAD"
    else if code == 0x10
    then literal "DOES_NOT_EXIST"
    else if code == 0x11
    then literal "INVALID_RANGE"
    else if code == 0x12
    then literal "MALFORMED_TRACK"
    else if code == 0x19
    then literal "DUPLICATE_SUBSCRIPTION"
    else if code == 0x20
    then literal "UNINTERESTED"
    else if code == 0x30
    then literal "PREFIX_OVERLAP"
    else if code == 0x31
    then literal "NAMESPACE_TOO_LARGE"
    else if code == 0x32
    then literal "INVALID_JOINING_REQUEST_ID"
    else if code == 0x33
    then literal "UNSUPPORTED_EXTENSION"
    else if code == 0x34
    then literal "REDIRECT"
    else literal_hex "UNKNOWN_0x" code
