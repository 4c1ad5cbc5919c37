-- ===== src/Buffer/Tests.antt =====
-- A buffer of four bytes.
use mathlib.Core.List.{flatten}
use sandbox_driver.Base.{◌≡◌, [], ◌∷◌}
use sandbox_driver.Error.{limit_exceeded, io, err}
use sandbox_driver.GitFailures.{bytes_of}
use sandbox_driver.Buffer.{new, finish}
use sandbox_driver.Buffer.Cap.{write_all, finish-write_all}

-- The last write fits, behind one that was refused, which the producer wraps.
finish-write_all_example :
    finish
      (write_all (bytes_of "ab" ∷ bytes_of "cde" ∷ bytes_of "f" ∷ []) (new 4))
      (err (io "copy"))
    ≡ err (limit_exceeded "buffered_value_bytes" 4)
unfolding flatten
finish-write_all_example =
    finish-write_all 4 (bytes_of "ab" ∷ bytes_of "cde" ∷ bytes_of "f" ∷ []) (err (io "copy"))
