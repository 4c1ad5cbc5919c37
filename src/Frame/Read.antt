-- ===== src/Frame/Read.antt =====
-- `FrameReader::read` (crates/sandbox-driver-protocol/src/channel.rs).
use sandbox_driver.Base.{
  ℕ, zero, suc, ◌≤◌, ◌<◌, ◌^◌, ◌/◌, ◌%◌, ◌≡◌, refl, ap, ◌∙◌, true, false, List, [], ◌∷◌, ◌++◌,
  Option, none, some, append_assoc, length, arith, take-length-append, drop-length-append,
  length-append, length-take,
}
use sandbox_driver.Error.{Result, ok, err}
use sandbox_driver.Frame.{
  FrameKind, eof, to_byte, from_byte, is_eof, to_be_bytes, from_be_bytes, FrameReader, Frame, read,
  read_body, read_length, read_first, max_frame_bytes, read_payload, read_exact, Ending, closed,
  broken,
}
use sandbox_driver.Frame.Write.{encode}

from_byte-to_byte : (k : FrameKind) → from_byte (to_byte k) ≡ some k
unfolding from_byte
from_byte-to_byte FrameKind.open_frame = refl
from_byte-to_byte _ = refl

from_be_bytes-to_be_bytes :
    (n : ℕ)
    → n < 2 ^ 32
    → from_be_bytes (n / 2 ^ 24 % 256) (n / 2 ^ 16 % 256) (n / 2 ^ 8 % 256) (n % 256) ≡ n
unfolding from_be_bytes
from_be_bytes-to_be_bytes n h = omega arith

-- A reader with a good limit that has not seen `Eof`.
pub record IsReading (r : FrameReader) : Type 0 where
  pub unfinished : r.finished ≡ false
  pub positive : 0 < r.max_bytes
  pub within : r.max_bytes ≤ max_frame_bytes

read_exact-append : (xs ys : List ℕ) → read_exact (length xs) (xs ++ ys) ≡ some (xs, ys)
read_exact-append xs ys =
    ground (arith, length-append xs ys, take-length-append xs ys, drop-length-append xs ys)

read_body-payload :
    (r : FrameReader) (kind : FrameKind) (payload rest : List ℕ)
    → r.finished ≡ false
    → length payload ≤ r.max_bytes
    → (kind ≡ eof → payload ≡ [])
    → r.input ≡ payload ++ rest
    → read_body r (some kind) (length payload)
      ≡ (record r { input = rest; finished = is_eof kind }, ok (some (kind, payload)))
unfolding read_body
read_body-payload r eof payload rest g h e i =
    ground (arith, e refl, read_exact-append payload rest)
read_body-payload r _ payload rest g h e i = ground (arith, read_exact-append payload rest)

read_length-encode :
    (r : FrameReader) (kind : FrameKind) (payload rest : List ℕ)
    → length payload < 2 ^ 32
    → read_length r (to_byte kind) (to_be_bytes (length payload) ++ (payload ++ rest))
      ≡ read_body (record r { input = payload ++ rest }) (some kind) (length payload)
unfolding read_length to_be_bytes
read_length-encode r kind payload rest h =
    rw (from_byte-to_byte kind, from_be_bytes-to_be_bytes (length payload) h)

read-reading :
    (r : FrameReader) (b : ℕ) (bs : List ℕ)
    → IsReading r
    → r.input ≡ b ∷ bs
    → read r ≡ read_length r b bs
unfolding read read_first
read-reading r b bs g i = ground arith

-- A frame within the limit is read back, and what follows it is left.
pub read-encode :
    (r : FrameReader) (kind : FrameKind) (payload rest : List ℕ)
    → IsReading r
    → length payload ≤ r.max_bytes
    → (kind ≡ eof → payload ≡ [])
    → r.input ≡ encode (kind, payload) ++ rest
    → read r ≡ (record r { input = rest; finished = is_eof kind }, ok (some (kind, payload)))
read-encode r kind payload rest g h e i =
    let n = length payload in
    read-reading r (to_byte kind) (to_be_bytes n ++ (payload ++ rest)) g
      (i ∙ ap (◌∷◌ (to_byte kind)) (append_assoc (to_be_bytes n) payload rest))
    ∙ read_length-encode r kind payload rest (omega (arith, g.within))
    ∙ read_body-payload (record r { input = payload ++ rest }) kind payload rest g.unfinished h e
        refl

abbrev Hands : FrameReader → FrameKind → List ℕ → FrameReader → Type 0
Hands r kind payload r' =
    (length payload ≤ r.max_bytes) × (r'.finished ≡ is_eof kind) × (kind ≡ eof → payload ≡ [])

read_payload-Hands :
    (r : FrameReader) (k kind : FrameKind) (n : ℕ) (payload : List ℕ)
    → n ≤ r.max_bytes
    → r.finished ≡ is_eof k
    → (k ≡ eof → n ≡ 0)
    → (read_payload r k n).1 ≡ ok (some (kind, payload))
    → Hands r kind payload (read_payload r k n).0
read_payload-Hands r eof kind n payload h g z e = ground (arith, length-take n r.input, z refl)
read_payload-Hands r _ kind n payload h g z e = ground (arith, length-take n r.input)

read_body-Hands :
    (r : FrameReader) (k : Option FrameKind) (kind : FrameKind) (n : ℕ) (payload : List ℕ)
    → r.finished ≡ false
    → (read_body r k n).1 ≡ ok (some (kind, payload))
    → Hands r kind payload (read_body r k n).0
unfolding read_body
read_body-Hands r none kind n payload g e = cc
read_body-Hands r (some eof) kind n payload g e =
    ground (arith, read_payload-Hands (record r { finished = true }) eof kind n payload)
read_body-Hands r (some k) kind n payload g e =
    ground (arith, read_payload-Hands r k kind n payload)

read_length-Hands :
    (r : FrameReader) (b : ℕ) (input : List ℕ) (kind : FrameKind) (payload : List ℕ)
    → r.finished ≡ false
    → (read_length r b input).1 ≡ ok (some (kind, payload))
    → Hands r kind payload (read_length r b input).0
unfolding read_length
read_length-Hands r b (x ∷ y ∷ z ∷ w ∷ rest) kind payload g e =
    read_body-Hands (record r { input = rest }) (from_byte b) kind (from_be_bytes x y z w) payload g
      e
read_length-Hands r b _ kind payload g e = cc

read_first-Hands :
    (r : FrameReader) (input : List ℕ) (ending : Ending) (kind : FrameKind) (payload : List ℕ)
    → r.finished ≡ false
    → (read_first r input ending).1 ≡ ok (some (kind, payload))
    → Hands r kind payload (read_first r input ending).0
unfolding read_first
read_first-Hands r [] closed kind payload g e = cc
read_first-Hands r [] broken kind payload g e = cc
read_first-Hands r (b ∷ input) ending kind payload g e =
    read_length-Hands r b input kind payload g e

-- Whatever bytes arrive, what `read` hands out respects the limit, an `Eof` is empty and ends the
-- reading, and no other frame does.
pub read-bounded :
    (r : FrameReader) (kind : FrameKind) (payload : List ℕ)
    → (read r).1 ≡ ok (some (kind, payload))
    → (length payload ≤ r.max_bytes)
      × (r.max_bytes ≤ max_frame_bytes)
      × (r.finished ≡ false)
      × ((read r).0.finished ≡ is_eof kind)
      × (kind ≡ eof → payload ≡ [])
unfolding read
read-bounded r kind payload h = ground (arith, read_first-Hands r r.input r.ending kind payload)

-- What a read and the reads behind it give.
abbrev collect : Result (Option Frame) → Option (List Frame) → Option (List Frame)
collect (err e) rest = none
collect (ok none) rest = some []
collect (ok (some f)) none = none
collect (ok (some f)) (some fs) = some (f ∷ fs)

-- Reads until the end: the frames of a whole connection, or `none` if a read fails. The fuel bounds
-- the number of reads.
unfoldable pub read_all : ℕ → FrameReader → Option (List Frame)
read_all zero r = none
read_all (suc fuel) r = let rest = read_all fuel (read r).0 in collect (read r).1 rest
