-- ===== src/Frame/Write.antt =====
-- `FrameWriter::write`: what the connection has been sent (crates/sandbox-driver-protocol/src/channel.rs).
use sandbox_driver.Base.{
  ℕ, ◌≤◌, ◌<◌, ◌≡◌, refl, sym, ap, subst, ◌≢◌, ◌⊎◌, ◌∙◌, Bool, true, false, List, [], ◌∷◌, ◌++◌,
  append-nil, map, length, ltb, arith, ◌^◌, if◌then◌else◌, append_assoc, inl, inr,
}
use sandbox_driver.Error.{err, is_ok}
use sandbox_driver.Frame.{
  Wire, Outcome, FrameKind, eof, open_frame, header, write_one, write_frames, write_chunks, chunks,
  write, FrameWriter, Frame, is_empty, max_frame_bytes,
}
use sandbox_driver.Frame.Deliver.{Sends, deliver-Sends, after-Sends}

-- The bytes of one frame, and of several.
abbrev pub encode : Frame → List ℕ
encode (kind, payload) = header kind (length payload) ++ payload

abbrev pub encode_all : List Frame → List ℕ
encode_all [] = []
encode_all (f ∷ fs) = encode f ++ encode_all fs

pub encode_all-append :
    (fs gs : List Frame) → encode_all (fs ++ gs) ≡ encode_all fs ++ encode_all gs
encode_all-append [] gs = refl
encode_all-append (f ∷ fs) gs =
    ap (◌++◌ (encode f)) (encode_all-append fs gs)
    ∙ sym (append_assoc (encode f) (encode_all fs) (encode_all gs))

-- The frames that `write` cuts a payload into.
abbrev pub frames : FrameWriter → FrameKind → List ℕ → List Frame
frames f kind payload =
    if is_empty payload
    then (kind, []) ∷ []
    else map (λ c. (kind, c)) (chunks (length payload) f.max_bytes payload)

refused : (sent bytes : List ℕ) (w : Wire) (e : _) → w.sent ≡ sent → Sends sent bytes (w, err e)
refused sent bytes w e h = record {
  done = [];
  left = bytes;
  sends = h ∙ sym (append-nil sent);
  parts = refl;
  whole = λ k. cc;
}

if-Sends :
    (sent bytes : List ℕ) (b : Bool) (o p : Outcome)
    → Sends sent bytes o
    → Sends sent bytes p
    → Sends sent bytes (if b then o else p)
if-Sends sent bytes true o p h k = h
if-Sends sent bytes false o p h k = k

write_one-Sends :
    (kind : FrameKind) (payload : List ℕ) (w : Wire)
    → Sends w.sent (encode (kind, payload)) (write_one kind payload w)
unfolding write_one
write_one-Sends kind payload w =
    if-Sends w.sent _ (ltb (length payload) (2 ^ 32)) _ _
      (after-Sends w.sent (header kind (length payload)) payload _ _
        (deliver-Sends w.script w.sent (header kind (length payload)))
        (λ v. deliver-Sends v.script v.sent payload))
      (refused w.sent _ w _ refl)

write_chunks-Sends :
    (kind : FrameKind) (cs : List (List ℕ)) (w : Wire)
    → Sends w.sent (encode_all (map (λ c. (kind, c)) cs)) (write_chunks kind cs w)
unfolding write_chunks
write_chunks-Sends kind [] w = record {
  done = [];
  left = [];
  sends = sym (append-nil w.sent);
  parts = refl;
  whole = λ h. refl;
}
write_chunks-Sends kind (c ∷ cs) w =
    after-Sends w.sent (encode (kind, c)) (encode_all (map (λ c. (kind, c)) cs)) _ _
      (write_one-Sends kind c w) (λ v. write_chunks-Sends kind cs v)

write_frames-Sends :
    (f : FrameWriter) (kind : FrameKind) (payload : List ℕ) (w : Wire)
    → Sends w.sent (encode_all (frames f kind payload)) (write_frames f kind payload w)
unfolding write_frames
write_frames-Sends f kind [] w =
    subst (λ x. Sends w.sent x (write_one kind [] w)) (sym (append-nil (encode (kind, []))))
      (write_one-Sends kind [] w)
write_frames-Sends f kind (b ∷ bytes) w =
    write_chunks-Sends kind (chunks (length (b ∷ bytes)) f.max_bytes (b ∷ bytes)) w

write_cases :
    (f : FrameWriter) (kind : FrameKind) (payload : List ℕ) (w : Wire)
    → (((write f kind payload w).0 ≡ w) × (is_ok (write f kind payload w).1 ≡ false))
      ⊎ (write f kind payload w ≡ write_frames f kind payload w)
unfolding write
write_cases f kind payload w = ground arith

unsent :
    (sent bytes : List ℕ) (w : Wire) (o : Outcome)
    → w.sent ≡ sent
    → o.0 ≡ w
    → is_ok o.1 ≡ false
    → Sends sent bytes o
unsent sent bytes w o h e n = record {
  done = [];
  left = bytes;
  sends = ap (λ (v : Wire). v.sent) e ∙ h ∙ sym (append-nil sent);
  parts = refl;
  whole = λ k. cc (ap is_ok k);
}

-- Whatever the writes of the connection do, `write` sends a prefix of its frames, in order, and all
-- of them when it returns `ok`.
pub write-Sends :
    (f : FrameWriter) (kind : FrameKind) (payload : List ℕ) (w : Wire)
    → Sends w.sent (encode_all (frames f kind payload)) (write f kind payload w)
write-Sends f kind payload w = elim (write_cases f kind payload w) [
  | inl (e, n) ↦ unsent w.sent _ w _ refl e n
  | inr e ↦ rw e (write_frames-Sends f kind payload w)
]

-- A refused write sends nothing: after `Eof`, under a bad limit, for an `Eof` with a payload, and
-- for an `Open` that does not fit one frame.
pub write-refuses :
    (f : FrameWriter) (kind : FrameKind) (payload : List ℕ) (w : Wire)
    → (f.finished ≡ true)
      ⊎ (f.max_bytes ≡ 0)
      ⊎ (max_frame_bytes < f.max_bytes)
      ⊎ ((kind ≡ eof) × (payload ≢ []))
      ⊎ ((kind ≡ open_frame) × (f.max_bytes < length payload))
    → ((write f kind payload w).0 ≡ w) × (is_ok (write f kind payload w).1 ≡ false)
unfolding write
write-refuses f kind payload w h = ground arith

-- A write that is let through: not finished, a good limit, and a payload that its kind allows.
pub record IsAllowed (f : FrameWriter) (kind : FrameKind) (payload : List ℕ) : Type 0 where
  pub unfinished : f.finished ≡ false
  pub positive : 0 < f.max_bytes
  pub within : f.max_bytes ≤ max_frame_bytes
  pub empty_eof : kind ≡ eof → payload ≡ []
  pub one_open : kind ≡ open_frame → length payload ≤ f.max_bytes

pub write-IsAllowed :
    (f : FrameWriter) (kind : FrameKind) (payload : List ℕ) (w : Wire)
    → is_ok (write f kind payload w).1 ≡ true
    → IsAllowed f kind payload
unfolding write
write-IsAllowed f kind payload w h = ground arith
