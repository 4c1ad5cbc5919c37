-- ===== src/ControlQueue/Size.antt =====
-- How large a control message is (control.rs).
use mathlib.Core.List.{flatten}
use sandbox_driver.Base.{
  ℕ, ◌+◌, ◌≤◌, ◌≡◌, refl, ap, ◌∙◌, inl, inr, true, false, Option, none, some, List, [], ◌∷◌, ◌++◌,
  length, length-append, ltb, if◌then◌else◌, Bool-cases, arith,
}
use sandbox_driver.Error.{limit_exceeded, ok, err}
use sandbox_driver.ControlQueue.{
  Message, write_size, then_write, write_pieces, sized, message_size, encode,
}

abbrev fits : ℕ → ℕ → Option ℕ
fits max_bytes total = if ltb max_bytes total then none else some total

write_size-fits :
    (max_bytes bytes : ℕ) (piece : List ℕ)
    → bytes ≤ max_bytes
    → write_size max_bytes bytes piece ≡ fits max_bytes (bytes + length piece)
unfolding write_size
write_size-fits max_bytes bytes piece h = ground arith

write_pieces-fits :
    (max_bytes : ℕ) (pieces : List (List ℕ)) (bytes : ℕ)
    → bytes ≤ max_bytes
    → write_pieces max_bytes pieces bytes ≡ fits max_bytes (bytes + length (flatten pieces))
unfolding write_pieces flatten
write_pieces-fits max_bytes [] bytes h =
    let z : bytes + 0 ≡ bytes = omega arith in
    let l : ltb max_bytes bytes ≡ false = ground arith in rw (z, l) refl
write_pieces-fits max_bytes (piece ∷ pieces) bytes h =
    let s = length-append piece (flatten pieces) in
    ap (then_write (write_pieces max_bytes pieces)) (write_size-fits max_bytes bytes piece h)
    ∙ elim (Bool-cases (ltb max_bytes (bytes + length piece))) [
      | inl e ↦
          let l : ltb max_bytes (bytes + length (piece ++ flatten pieces)) ≡ true = ground arith in
          rw (e, l) refl
      | inr e ↦
          let n : bytes + length piece + length (flatten pieces)
              ≡ bytes + length (piece ++ flatten pieces) =
            omega arith in
          rw e (
            write_pieces-fits max_bytes pieces (bytes + length piece) (ground arith)
            ∙ ap (fits max_bytes) n)
    ]

fits-sized :
    (max_bytes total : ℕ)
    → sized max_bytes (fits max_bytes total) ≡ (
        if ltb max_bytes total
        then err (limit_exceeded "control_message_bytes" max_bytes)
        else ok total)
fits-sized max_bytes total = elim (Bool-cases (ltb max_bytes total)) [
  | inl e ↦ rw e refl
  | inr e ↦ rw e refl
]

-- The counted size is that of the encoded bytes, however the serializer cuts them; over the limit it is
-- an error.
pub message_size-encode :
    (message : Message) (max_bytes permit : ℕ)
    → message_size message max_bytes ≡ (
        let bytes = (encode message permit).bytes in
        if ltb max_bytes (length bytes)
        then err (limit_exceeded "control_message_bytes" max_bytes)
        else ok (length bytes))
unfolding message_size encode
message_size-encode message max_bytes permit =
    let text = flatten message.pieces in
    let l = length-append text (10 ∷ []) in
    ap (λ o. sized max_bytes (then_write (λ bytes. write_size max_bytes bytes (10 ∷ [])) o))
      (write_pieces-fits max_bytes message.pieces 0 (omega arith))
    ∙ elim (Bool-cases (ltb max_bytes (0 + length text))) [
      | inl e ↦
          let w : ltb max_bytes (length (text ++ (10 ∷ []))) ≡ true = ground arith in rw (e, w) refl
      | inr e ↦
          let n : 0 + length text + 1 ≡ length (text ++ (10 ∷ [])) = omega arith in
          rw (e, write_size-fits max_bytes (0 + length text) (10 ∷ []) (ground arith), n)
            (fits-sized max_bytes (length (text ++ (10 ∷ []))))
    ]
