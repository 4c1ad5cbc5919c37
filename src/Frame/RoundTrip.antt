-- ===== src/Frame/RoundTrip.antt =====
-- A conversation over one half of a channel: what `FrameWriter` sends, `FrameReader` reads
-- (crates/sandbox-driver-protocol/src/channel.rs).
use mathlib.Core.List.{flatten}
use sandbox_driver.Base.{
  ℕ, zero, suc, ◌+◌, ◌≤◌, ◌<◌, ◌≡◌, ◌≢◌, refl, sym, ap, ◌∙◌, inl, inr, true, false, List, [], ◌∷◌,
  ◌++◌, map, none, some, append-nil, append_assoc, length, arith, All, All-append, ◌==◌,
  if◌then◌else◌, Bool-cases,
}
use sandbox_driver.Error.{ok, is_ok}
use sandbox_driver.Frame.{
  Wire, Outcome, Written, after, FrameKind, eof, to_byte, is_eof, FrameWriter, FrameReader, Frame,
  Ending, Flushed, write, finish, read, chunks,
}
use sandbox_driver.Frame.Chunks.{flatten-chunks, chunks-bounded}
use sandbox_driver.Frame.Deliver.{Sends, after-Sends, sent_whole, eq-ok}
use sandbox_driver.Frame.Write.{
  encode, encode_all, encode_all-append, frames, write-Sends, write-IsAllowed,
}
use sandbox_driver.Frame.Read.{IsReading, read-encode, read_all}

-- Successive calls of `write`, stopping at the first that fails.
unfoldable pub write_all : FrameWriter → List Frame → Wire → Outcome
write_all f [] w = (w, ok tt)
write_all f ((kind, payload) ∷ ms) w = after (write f kind payload w) (write_all f ms)

abbrev pub frames_all : FrameWriter → List Frame → List Frame
frames_all f [] = []
frames_all f ((kind, payload) ∷ ms) = frames f kind payload ++ frames_all f ms

write_all-Sends :
    (f : FrameWriter) (ms : List Frame) (w : Wire)
    → Sends w.sent (encode_all (frames_all f ms)) (write_all f ms w)
unfolding write_all
write_all-Sends f [] w = record {
  done = [];
  left = [];
  sends = sym (append-nil w.sent);
  parts = refl;
  whole = λ h. refl;
}
write_all-Sends f ((kind, payload) ∷ ms) w =
    rw (encode_all-append (frames f kind payload) (frames_all f ms))
      (after-Sends w.sent _ _ _ _ (write-Sends f kind payload w) (λ v. write_all-Sends f ms v))

-- What a receiver gets of one kind.
abbrev pub stream_of : FrameKind → List Frame → List ℕ
stream_of k [] = []
stream_of k ((kind, payload) ∷ fs) =
    if to_byte kind == to_byte k then payload ++ stream_of k fs else stream_of k fs

stream_of-append :
    (k : FrameKind) (fs gs : List Frame) → stream_of k (fs ++ gs) ≡ stream_of k fs ++ stream_of k gs
stream_of-append k [] gs = refl
stream_of-append k ((kind, payload) ∷ fs) gs = elim (Bool-cases (to_byte kind == to_byte k)) [
  | inl e ↦ rw e (
      ap (◌++◌ payload) (stream_of-append k fs gs)
      ∙ sym (append_assoc payload (stream_of k fs) (stream_of k gs)))
  | inr e ↦ rw e (stream_of-append k fs gs)
]

stream_of-map :
    (k kind : FrameKind) (cs : List (List ℕ))
    → stream_of k (map (λ c. (kind, c)) cs) ≡ (if to_byte kind == to_byte k then flatten cs else [])
unfolding flatten
stream_of-map k kind [] = ground arith
stream_of-map k kind (c ∷ cs) = ground (arith, stream_of-map k kind cs)

stream_of-frames :
    (f : FrameWriter) (k kind : FrameKind) (payload : List ℕ)
    → 0 < f.max_bytes
    → stream_of k (frames f kind payload) ≡ stream_of k ((kind, payload) ∷ [])
stream_of-frames f k kind [] h = refl
stream_of-frames f k kind (b ∷ bytes) h =
    rw
      (
        stream_of-map k kind (chunks (length (b ∷ bytes)) f.max_bytes (b ∷ bytes)),
        flatten-chunks (length (b ∷ bytes)) f.max_bytes (b ∷ bytes) h (omega arith),
      )
      (ground (arith, append-nil (b ∷ bytes)))

stream_of-frames_all :
    (f : FrameWriter) (k : FrameKind) (ms : List Frame)
    → 0 < f.max_bytes
    → stream_of k (frames_all f ms) ≡ stream_of k ms
stream_of-frames_all f k [] h = refl
stream_of-frames_all f k ((kind, payload) ∷ ms) h =
    stream_of-append k (frames f kind payload) (frames_all f ms)
    ∙ ap (λ (x : List ℕ). x ++ stream_of k (frames_all f ms)) (stream_of-frames f k kind payload h)
    ∙ ap (◌++◌ (stream_of k ((kind, payload) ∷ []))) (stream_of-frames_all f k ms h)
    ∙ sym (stream_of-append k ((kind, payload) ∷ []) ms)

-- A frame that a reader of limit `n` hands out and goes on behind.
abbrev pub Fits : ℕ → Frame → Type 0
Fits n (kind, payload) = (length payload ≤ n) × (kind ≢ eof)

Fits-map :
    (n : ℕ) (kind : FrameKind) (cs : List (List ℕ))
    → kind ≢ eof
    → All (λ c. length c ≤ n) cs
    → All (Fits n) (map (λ c. (kind, c)) cs)
Fits-map n kind [] h k = tt
Fits-map n kind (c ∷ cs) h k = ((k.0, h), Fits-map n kind cs h k.1)

Fits-frames :
    (f : FrameWriter) (kind : FrameKind) (payload : List ℕ)
    → kind ≢ eof
    → All (Fits f.max_bytes) (frames f kind payload)
Fits-frames f kind [] h = ((omega arith, h), tt)
Fits-frames f kind (b ∷ bytes) h =
    Fits-map f.max_bytes kind _ h (chunks-bounded (length (b ∷ bytes)) f.max_bytes (b ∷ bytes))

abbrev pub IsData : Frame → Type 0
IsData (kind, payload) = kind ≢ eof

Fits-All :
    (f : FrameWriter) (ms : List Frame) → All IsData ms → All (Fits f.max_bytes) (frames_all f ms)
Fits-All f [] h = tt
Fits-All f ((kind, payload) ∷ ms) h =
    All-append (Fits f.max_bytes) (frames f kind payload) (frames_all f ms)
      (Fits-frames f kind payload h.0) (Fits-All f ms h.1)

is_eof-data : (kind : FrameKind) → kind ≢ eof → is_eof kind ≡ false
is_eof-data eof h = absurd (h refl)
is_eof-data _ h = refl

read-finished : (r : FrameReader) → r.finished ≡ true → read r ≡ (r, ok none)
unfolding read
read-finished r h = rw h

read_all-encode_all :
    (fs : List Frame) (r : FrameReader) (fuel : ℕ)
    → IsReading r
    → All (Fits r.max_bytes) fs
    → r.input ≡ encode_all fs ++ encode (eof, [])
    → length fs + 1 < fuel
    → read_all fuel r ≡ some (fs ++ (eof, []) ∷ [])
unfolding read_all
read_all-encode_all fs r zero g h i k = absurd (omega arith)
read_all-encode_all [] r (suc zero) g h i k = absurd (omega arith)
read_all-encode_all [] r (suc (suc fuel)) g h i k = rw (
  read-encode r eof [] [] g (omega arith) (λ e. refl) (i ∙ sym (append-nil (encode (eof, [])))),
  read-finished (record r { input = []; finished = true }) refl,
)
read_all-encode_all ((kind, payload) ∷ fs) r (suc fuel) g h i k =
    let rest = encode_all fs ++ encode (eof, []) in
    let s = record r { input = rest; finished = is_eof kind } in
    rw (
      read-encode r kind payload rest g h.0.0 (λ e. absurd (h.0.1 e))
          (i ∙ append_assoc (encode (kind, payload)) (encode_all fs) (encode (eof, []))),
      read_all-encode_all fs s fuel
          (record { unfinished = is_eof-data kind h.0.1; positive = g.positive; within = g.within })
          h.1 refl (omega arith),
    )

finish-ok :
    (f : FrameWriter) (flush : Flushed) (v : Wire)
    → (finish f flush v).1.1 ≡ ok tt
    → ((finish f flush v).1.0 ≡ (write f eof [] v).0) × (is_ok (write f eof [] v).1 ≡ true)
unfolding finish
finish-ok f flush v h = ground arith

finish-sent :
    (f : FrameWriter) (flush : Flushed) (v : Wire)
    → (finish f flush v).1.1 ≡ ok tt
    → (finish f flush v).1.0.sent ≡ v.sent ++ encode (eof, [])
finish-sent f flush v h =
    let e = finish-ok f flush v h in
    ap (λ (w : Wire). w.sent) e.0
    ∙ sent_whole v.sent (encode_all (frames f eof [])) (write f eof [] v) (write-Sends f eof [] v)
        (eq-ok (write f eof [] v) e.1)
    ∙ ap (◌++◌ v.sent) (append-nil (encode (eof, [])))

abbrev pub fresh : List Written → Wire
fresh script = record { sent = []; script = script }

-- The reader at the other end, with the bytes that were sent.
abbrev pub reader : FrameWriter → Wire → Ending → FrameReader
reader f w ending = record {
  max_bytes = f.max_bytes;
  finished = false;
  input = w.sent;
  ending = ending;
}

-- However the connection cuts the writes up, if they succeed and so does the final `Eof`, a reader
-- of the same limit reads the frames and the `Eof` and nothing else. No frame is over the limit, and
-- of each kind the frames hold exactly the bytes that were written, in order.
pub round_trip :
    (f : FrameWriter) (ms : List Frame) (script : List Written) (flush : Flushed) (ending : Ending)
    → All IsData ms
    → (write_all f ms (fresh script)).1 ≡ ok tt
    → (finish f flush (write_all f ms (fresh script)).0).1.1 ≡ ok tt
    → let fs = frames_all f ms in
      let r = reader f (finish f flush (write_all f ms (fresh script)).0).1.0 ending in
      (read_all (length fs + 2) r ≡ some (fs ++ (eof, []) ∷ []))
      × All (Fits f.max_bytes) fs
      × ((k : FrameKind) → stream_of k fs ≡ stream_of k ms)
round_trip f ms script flush ending d h k =
    let fs = frames_all f ms in
    let o = write_all f ms (fresh script) in
    let good = write-IsAllowed f eof [] o.0 (finish-ok f flush o.0 k).1 in
    let sent =
      finish-sent f flush o.0 k
      ∙ ap (λ (x : List ℕ). x ++ encode (eof, []))
          (sent_whole [] (encode_all fs) o (write_all-Sends f ms (fresh script)) h) in
    (
      read_all-encode_all fs (reader f (finish f flush o.0).1.0 ending) (length fs + 2)
          (record { unfinished = refl; positive = good.positive; within = good.within })
          (Fits-All f ms d) sent (omega arith),
      Fits-All f ms d,
      λ kind. stream_of-frames_all f kind ms good.positive,
    )
