-- ===== src/Owned/Tests.antt =====
-- A backend that holds one sandbox.
use sandbox_driver.Base.{ℕ, ◌≡◌, refl, sym, ap, Option, none, some, List, [], ◌∷◌}
use sandbox_driver.Error.{sandbox, not_found, not_owned, running, Result, ok, err}
use sandbox_driver.GitFailures.{bytes_of}
use sandbox_driver.Status.{Labels, SandboxStatus, new, get, insert}
use sandbox_driver.Owned.{SandboxProvider, SandboxSpec, checked, delete, attach, owns, and_label}
use sandbox_driver.Owned.Stamps.{built}
use sandbox_driver.Owned.Scope.{Spares, delete-Spares, KeepsLabels}

abbrev Backend : Type 0
Backend = Option Labels

abbrev found : Backend → Result {0} Unit
found none = err (not_found sandbox "only")
found (some labels) = ok tt

abbrev shown : Backend → Result SandboxStatus
shown none = err (not_found sandbox "only")
shown (some labels) = ok (record (new [] running) { labels = labels })

abbrev listed : Backend → List SandboxStatus
listed none = []
listed (some labels) = record (new [] running) { labels = labels } ∷ []

abbrev backend : SandboxProvider Backend Unit
backend = record {
  create = λ spec s. (ok tt, some spec.labels);
  attach = λ id s. (found s, s);
  undelete = λ id s. (found s, s);
  list = λ filter s. (ok (listed s), s);
  handle_id = λ handle. "only";
  describe = λ handle s. (shown s, s);
  delete = λ handle s. (ok tt, none);
}

abbrev mine : List (List ℕ × List ℕ)
mine = (bytes_of "managed", bytes_of "true") ∷ []

abbrev spec : SandboxSpec
spec = record {
  name = none;
  labels = (bytes_of "managed", bytes_of "false") ∷ (bytes_of "team", bytes_of "platform") ∷ [];
}

backend-KeepsLabels : KeepsLabels backend
unfolding new
backend-KeepsLabels spec s s1 handle h = (
  record (new [] running) { labels = spec.labels },
  s1,
  ap (λ x. (shown x, s1)) (sym (ap (λ p. p.1) h)),
  refl,
)

delete-Spares_example :
    Spares
      (built mine)
      backend
      "only"
      (some spec.labels)
      (delete (built mine) backend "only" (some spec.labels))
delete-Spares_example = delete-Spares (built mine) backend "only" (some spec.labels)

-- The sandbox that another owner labelled is still there.
delete-foreign :
    delete (built mine) backend "only" (some spec.labels)
    ≡ (err (not_owned sandbox "only"), some spec.labels)
unfolding delete attach checked owns and_label get insert new
delete-foreign = refl
