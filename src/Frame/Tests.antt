-- ===== src/Frame/Tests.antt =====
-- Frames on a small connection.
use sandbox_driver.Base.{ℕ, ◌+◌, ◌≤◌, ◌≡◌, refl, false, some, List, [], ◌∷◌, ◌++◌, length, All}
use sandbox_driver.Frame.{
  FrameKind, stdout, eof, Wire, Written, wrote, stalled, FrameWriter, FrameReader, flushed, closed,
  write, write_frames, write_chunks, write_one, chunks, deliver, to_be_bytes, from_be_bytes,
  from_byte, finish, read, read_first, read_length, read_body, max_frame_bytes,
}
use sandbox_driver.Frame.Deliver.{Sends}
use sandbox_driver.Frame.Write.{encode_all, frames, write-Sends}
use sandbox_driver.Frame.Read.{read-bounded, read_all}
use sandbox_driver.Frame.RoundTrip.{
  write_all, frames_all, stream_of, Fits, fresh, reader, round_trip,
}

abbrev small : FrameWriter
small = record { max_bytes = 4; finished = false }

abbrev hello : List ℕ
hello = 104 ∷ 101 ∷ 108 ∷ 108 ∷ 111 ∷ []

abbrev hi : List ℕ
hi = 104 ∷ 105 ∷ []

-- Short writes, and a stall behind them.
abbrev cut : Wire
cut = record { sent = []; script = wrote 3 ∷ wrote 9 ∷ stalled ∷ [] }

abbrev smooth : List Written
smooth = wrote 3 ∷ wrote 9 ∷ wrote 9 ∷ wrote 9 ∷ wrote 9 ∷ wrote 9 ∷ []

write-Sends_example :
    Sends [] (encode_all (frames small stdout hello)) (write small stdout hello cut)
write-Sends_example = write-Sends small stdout hello cut

abbrev incoming : FrameReader
incoming = record {
  max_bytes = 8;
  finished = false;
  input = 1 ∷ 0 ∷ 0 ∷ 0 ∷ 2 ∷ 104 ∷ 105 ∷ 4 ∷ [];
  ending = closed;
}

read-bounded_example :
    (2 ≤ 8)
    × (8 ≤ max_frame_bytes)
    × (false ≡ false)
    × ((read incoming).0.finished ≡ false)
    × (stdout ≡ eof → hi ≡ [])
unfolding read read_first read_length read_body from_byte from_be_bytes
read-bounded_example = read-bounded incoming stdout hi refl

round_trip_example :
    let fs = frames_all small ((stdout, hello) ∷ []) in
    let r =
      reader small
        (finish small flushed (write_all small ((stdout, hello) ∷ []) (fresh smooth)).0).1.0
        closed in
    (read_all (length fs + 2) r ≡ some (fs ++ (eof, []) ∷ []))
    × All (Fits 4) fs
    × ((k : FrameKind) → stream_of k fs ≡ stream_of k ((stdout, hello) ∷ []))
unfolding write_all write write_frames write_chunks write_one chunks deliver to_be_bytes finish
round_trip_example =
    round_trip small ((stdout, hello) ∷ []) smooth flushed closed ((λ h. cc), tt) refl refl
