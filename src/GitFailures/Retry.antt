-- ===== src/GitFailures/Retry.antt =====
-- Which classified failures are repeated (error.rs, git_retry.rs).
use sandbox_driver.Base.{
  ℕ, ◌≡◌, ◌≢◌, refl, ap, ◌⊎◌, inl, inr, true, false, Option, none, some, List, [], ◌∷◌, String,
  ◌==◌, ==_iff, Bool-cases, arith,
}
use sandbox_driver.Error.{exited, ExecFailure, ProviderError, git, remote_unavailable}
use sandbox_driver.GitRetry.{GitCredentials, transient_infra, retry_reason, is_exited}
use sandbox_driver.GitFailures.{
  to_lower, contains_any, remote_unavailable_hints, from_lower, from_message, from_output,
  from_command, from_provider, is_unusable,
}
use sandbox_driver.GitFailures.Contains.{Occurs, contains_iff}

-- One of the fragments occurs in the text.
pub data OneOccurs (text : List ℕ) : List (List ℕ) → Type 0 where
  here : {hint : List ℕ} {hints : List (List ℕ)} → Occurs hint text → OneOccurs text (hint ∷ hints)
  later :
      {hint : List ℕ} {hints : List (List ℕ)} → OneOccurs text hints → OneOccurs text (hint ∷ hints)

contains_any-OneOccurs :
    (text : List ℕ) (hints : List (List ℕ)) → OneOccurs text hints → contains_any text hints ≡ true
contains_any-OneOccurs text [] x = elim x [ ]
contains_any-OneOccurs text (hint ∷ hints) (here o) = rw ((contains_iff text hint).1 o) refl
contains_any-OneOccurs text (hint ∷ hints) (later o) =
    ground (arith, contains_any-OneOccurs text hints o)

from_message-unavailable :
    (message : List ℕ)
    → OneOccurs (to_lower message) remote_unavailable_hints
    → from_message message ≡ remote_unavailable
unfolding from_message from_lower
from_message-unavailable message o =
    rw (contains_any-OneOccurs (to_lower message) remote_unavailable_hints o) refl

-- A provider's failure is repeated whatever the credentials when its message has a fragment of an
-- unreachable remote, in any case.
pub retry-from_provider :
    (operation : String) (p : ProviderError) (c : Option GitCredentials) (now : ℕ)
    → OneOccurs (to_lower p.message) remote_unavailable_hints
    → retry_reason (git (from_provider operation p)) c now ≡ some transient_infra
unfolding retry_reason from_provider
retry-from_provider operation p c now o = rw (from_message-unavailable p.message o) refl

-- A command that the shell could not find or run, or that did not end by itself, is never repeated,
-- whatever it printed.
pub retry-from_command :
    (operation : String) (output : ExecFailure) (c : Option GitCredentials) (now : ℕ)
    → (output.exit_code ≡ some 126) ⊎ (output.exit_code ≡ some 127) ⊎ (output.termination ≢ exited)
    → retry_reason (git (from_command operation output)) c now ≡ none
unfolding retry_reason from_command
retry-from_command operation output c now (inl e) =
    elim (Bool-cases (is_exited output.termination)) [ inl x ↦ rw (x, e) refl | inr x ↦ rw x refl ]
retry-from_command operation output c now (inr (inl e)) =
    elim (Bool-cases (is_exited output.termination)) [ inl x ↦ rw (x, e) refl | inr x ↦ rw x refl ]
retry-from_command operation output c now (inr (inr n)) =
    let e : is_exited output.termination ≡ false = ground arith in rw e refl

usable : (o : Option ℕ) → o ≢ some 126 → o ≢ some 127 → is_unusable o ≡ false
usable none a b = refl
usable (some k) a b = elim (Bool-cases (k == 126)) [
  | inl e ↦ absurd (a (ap some ((==_iff k 126).0 e)))
  | inr e ↦ elim (Bool-cases (k == 127)) [
    | inl f ↦ absurd (b (ap some ((==_iff k 127).0 f)))
    | inr f ↦ rw (e, f) refl
  ]
]

-- A command's failure whose stderr has such a fragment is repeated, whatever its stdout, where the
-- command ended by itself with another exit code.
pub retry_stderr :
    (operation : String) (output : ExecFailure) (c : Option GitCredentials) (now : ℕ)
    → output.termination ≡ exited
    → output.exit_code ≢ some 126
    → output.exit_code ≢ some 127
    → OneOccurs (to_lower output.stderr) remote_unavailable_hints
    → retry_reason (git (from_command operation output)) c now ≡ some transient_infra
unfolding retry_reason from_command from_output
retry_stderr operation output c now t a b o =
    rw (t, usable output.exit_code a b, from_message-unavailable output.stderr o) refl
