-- ===== src/Buffer.antt =====
-- crates/sandbox-driver/src/buffer.rs: `BoundedBuffer`, a destination that refuses a chunk before its
-- cap is exceeded.
pub mod Cap
pub mod Tests
use sandbox_driver.Base.{ℕ, ◌*◌, ◌-◌, Bool, true, false, List, [], ◌++◌, length, ltb, if◌then◌else◌}
use sandbox_driver.Error.{limit_exceeded, io, Result, ok, err, ◌>>=◌}

abbrev pub default_buffer_bytes : ℕ
default_buffer_bytes = 16 * 1024 * 1024

pub record BoundedBuffer : Type 0 where
  pub bytes : List ℕ
  pub max_bytes : ℕ
  pub exceeded : Bool

unfoldable pub new : ℕ → BoundedBuffer
new max_bytes = record { bytes = []; max_bytes = max_bytes; exceeded = false }

unfoldable pub poll_write : List ℕ → BoundedBuffer → Result ℕ × BoundedBuffer
poll_write chunk b =
    if ltb (b.max_bytes - length b.bytes) (length chunk)
    then (err (io "buffered value limit exceeded"), record b { exceeded = true })
    else (ok (length chunk), record b { bytes = b.bytes ++ chunk })

-- `outcome` is what the producer came to, which may wrap the destination's error.
unfoldable pub finish : BoundedBuffer → Result {0} Unit → Result (List ℕ)
finish b outcome =
    if b.exceeded
    then err (limit_exceeded "buffered_value_bytes" b.max_bytes)
    else (outcome >>= (λ done. ok b.bytes))
