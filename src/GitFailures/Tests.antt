-- ===== src/GitFailures/Tests.antt =====
-- Classification of small messages.
use sandbox_driver.Base.{◌≡◌, refl, ◌↔◌, true, none, some, []}
use sandbox_driver.Error.{exited, ExecFailure, ProviderError, auth_rejected}
use sandbox_driver.GitFailures.{bytes_of, contains, from_lower, from_message}
use sandbox_driver.GitFailures.Contains.{Occurs, contains_iff}

from_message_rejected : from_message (bytes_of "Repository not found.") ≡ auth_rejected
unfolding from_message from_lower contains
from_message_rejected = refl

contains-bytes_of :
    (contains (bytes_of "denied.") (bytes_of "denied") ≡ true)
    ↔ Occurs (bytes_of "denied") (bytes_of "denied.")
contains-bytes_of = contains_iff (bytes_of "denied.") (bytes_of "denied")

abbrev reset : ProviderError
reset = record {
  provider = "daytona";
  code = none;
  message = bytes_of "Connection reset by peer";
  retryable = true;
}

abbrev missing : ExecFailure
missing = record {
  label = "git";
  termination = exited;
  exit_code = some 127;
  stdout = [];
  stderr = bytes_of "git: not found, timed out";
  duration = none;
}

abbrev unreachable : ExecFailure
unreachable = record {
  label = "git";
  termination = exited;
  exit_code = some 128;
  stdout = [];
  stderr = bytes_of "RPC failed";
  duration = none;
}
