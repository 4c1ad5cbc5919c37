-- ===== src/GitFailures.antt =====
-- crates/sandbox-driver/src/error.rs: the classification of failed git operations. A text is the list
-- of its bytes. `from_utf8_lossy` is left out: it changes only bytes from 0x80 on, which no fragment
-- that is looked for has, into others of that kind, and leaves none of their runs empty.
pub mod Contains
pub mod Retry
pub mod Tests
use Prim.Native.Char.{code}
use Prim.Native.String.{String}
use sandbox_driver.Base.{
  ℕ, ◌+◌, Bool, true, false, ◌&&◌, ◌||◌, Option, none, some, List, [], ◌∷◌, map, within, ◌==◌,
  if◌then◌else◌,
}
use sandbox_driver.Error.{
  GitFailureKind, auth_rejected, remote_unavailable, ref_not_found, access_denied, target_exists,
  git_unavailable, unclassified, GitFailure, ExecFailure, ProviderError,
}

-- The bytes of an ASCII text.
abbrev pub bytes_of : String → List ℕ
bytes_of String.[] = []
bytes_of (String.◌∷◌ c cs) = code c ∷ bytes_of cs

-- `to_ascii_lowercase`
abbrev pub lower_byte : ℕ → ℕ
lower_byte b = if within 0x41 0x5a b then b + 32 else b

abbrev pub to_lower : List ℕ → List ℕ
to_lower text = map lower_byte text

abbrev pub starts_with : List ℕ → List ℕ → Bool
starts_with text [] = true
starts_with [] (c ∷ needle) = false
starts_with (b ∷ text) (c ∷ needle) = b == c && starts_with text needle

-- `str::contains`
unfoldable pub contains : List ℕ → List ℕ → Bool
contains [] needle = starts_with [] needle
contains (b ∷ text) needle = starts_with (b ∷ text) needle || contains text needle

abbrev pub contains_any : List ℕ → List (List ℕ) → Bool
contains_any text [] = false
contains_any text (hint ∷ hints) = contains text hint || contains_any text hints

abbrev pub remote_unavailable_hints : List (List ℕ)
remote_unavailable_hints = map bytes_of (
    "could not resolve host" ∷ "temporary failure in name resolution" ∷ "connection refused"
    ∷ "connection reset" ∷ "connection timed out" ∷ "timed out" ∷ "network is unreachable"
    ∷ "no route to host" ∷ "tls handshake" ∷ "early eof" ∷ "rpc failed" ∷ "unexpected disconnect"
    ∷ "the remote end hung up unexpectedly" ∷ "index-pack failed" ∷ "service unavailable"
    ∷ "gateway timeout" ∷ "too many requests" ∷ "rate limit" ∷ [])

abbrev pub auth_rejected_hints : List (List ℕ)
auth_rejected_hints = map bytes_of (
    "repository not found" ∷ "authentication failed" ∷ "invalid username or password"
    ∷ "bad credentials" ∷ "the requested url returned error: 401"
    ∷ "the requested url returned error: 403" ∷ "the requested url returned error: 404"
    ∷ "unexpected http status code: 401" ∷ "unexpected http status code: 403"
    ∷ "unexpected http status code: 404" ∷ [])

abbrev pub ref_not_found_hints : List (List ℕ)
ref_not_found_hints = map bytes_of (
    "couldn't find remote ref" ∷ "could not find remote branch" ∷ "not our ref"
    ∷ "unadvertised object" ∷ "reference is not a tree" ∷ "did not match any file(s) known to git"
    ∷ "unknown revision or path not in the working tree" ∷ [])

abbrev has : List ℕ → String → Bool
has text fragment = contains text (bytes_of fragment)

-- `GitFailureKind::from_message` behind the lower-casing.
unfoldable pub from_lower : List ℕ → GitFailureKind
from_lower lower =
    if contains_any lower remote_unavailable_hints
    then remote_unavailable
    else if contains_any lower auth_rejected_hints
    then auth_rejected
    else if has lower "could not read username"
        || has lower "terminal prompts disabled"
        || has lower "permission denied"
        || (has lower "permission to" && has lower "denied")
    then access_denied
    else if has lower "destination path" && has lower "already exists"
    then target_exists
    else if contains_any lower ref_not_found_hints
        || (has lower "remote branch" && has lower "not found")
    then ref_not_found
    else unclassified

-- `GitFailureKind::from_message`
unfoldable pub from_message : List ℕ → GitFailureKind
from_message message = from_lower (to_lower message)

abbrev pub is_unclassified : GitFailureKind → Bool
is_unclassified unclassified = true
is_unclassified _ = false

-- `GitFailureKind::from_output`
unfoldable pub from_output : List ℕ → List ℕ → GitFailureKind
from_output stderr stdout =
    let by_stderr = from_message stderr in
    if is_unclassified by_stderr then from_message stdout else by_stderr

-- `GitFailureKind::is_transient`
abbrev pub is_transient : GitFailureKind → Bool
is_transient remote_unavailable = true
is_transient _ = false

abbrev pub is_unusable : Option ℕ → Bool
is_unusable none = false
is_unusable (some code) = code == 126 || code == 127

-- `GitFailure::from_command`
unfoldable pub from_command : String → ExecFailure → GitFailure
from_command operation output = record {
  operation = operation;
  kind =
      if is_unusable output.exit_code
      then git_unavailable
      else from_output output.stderr output.stdout;
  output = some output;
  provider = none;
}

-- `GitFailure::from_provider`
unfoldable pub from_provider : String → ProviderError → GitFailure
from_provider operation provider =
    let kind = from_message provider.message in
    record {
      operation = operation;
      kind = if is_unclassified kind && provider.retryable then remote_unavailable else kind;
      output = none;
      provider = some provider;
    }

-- `GitFailure::classified`
abbrev pub classified : String → GitFailureKind → Option ProviderError → GitFailure
classified operation kind provider = record {
  operation = operation;
  kind = kind;
  output = none;
  provider = provider;
}

-- `GitFailure::with_output`
abbrev pub with_output : GitFailure → ExecFailure → GitFailure
with_output failure output = record failure { output = some output }
