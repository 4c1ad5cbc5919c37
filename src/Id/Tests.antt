-- ===== src/Id/Tests.antt =====
-- Small identifiers.
use sandbox_driver.Base.{ℕ, ◌≤◌, ◌≡◌, ◌≢◌, ◌↔◌, List, [], length, All}
use sandbox_driver.GitFailures.{bytes_of}
use sandbox_driver.Id.{valid, validate_label}
use sandbox_driver.Id.Valid.{IsLabelByte, Trimmed, validate_label_iff}

validate_label_iff_example : (validate_label (bytes_of "docker-2") 64 ≡ valid tt) ↔ (
    (bytes_of "docker-2" ≢ [])
    × (length (bytes_of "docker-2") ≤ 64)
    × All IsLabelByte (bytes_of "docker-2")
    × Trimmed (bytes_of "docker-2"))
validate_label_iff_example = validate_label_iff (bytes_of "docker-2") 64

abbrev digest : List ℕ
digest = bytes_of "0123456789ABCDEF0123456789abcdef0123456789ABCDEF0123456789abcdef"

abbrev stored : List ℕ
stored = bytes_of "0123456789abcdef0123456789abcdef0123456789abcdef0123456789abcdef"
