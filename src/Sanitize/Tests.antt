-- ===== src/Sanitize/Tests.antt =====
-- The sanitizer on small inputs.
use mathlib.Core.List.{flatten}
use sandbox_driver.Base.{ℕ, ◌≡◌, refl, List, [], ◌∷◌}
use sandbox_driver.Sanitize.{
  strip_ansi, strip_all, new, sanitize, stream, push, finish, process_all, process_in,
  process_ground, ground_text, ground_byte, process_escape, process_csi, process_c1,
}
use sandbox_driver.Sanitize.Controls.{HasNoControls, sanitize-HasNoControls}
use sandbox_driver.Sanitize.Chunks.{stream-eq-sanitize}
use sandbox_driver.Sanitize.Again.{sanitize_idem}

-- `ESC [ 3 1 m h i ESC [ 0 m`
abbrev red : List ℕ
red = 27 ∷ 91 ∷ 51 ∷ 49 ∷ 109 ∷ 104 ∷ 105 ∷ 27 ∷ 91 ∷ 48 ∷ 109 ∷ []

sanitize-red : sanitize strip_ansi red ≡ 104 ∷ 105 ∷ []
unfolding sanitize push finish process_all process_in process_ground ground_text ground_byte
    process_escape process_csi
sanitize-red = refl

-- `NEL` as a byte and in UTF-8 go, and the last byte of an euro sign stays.
abbrev controls : List ℕ
controls = 0x85 ∷ 0xc2 ∷ 0x85 ∷ 0xe2 ∷ 0x82 ∷ 0xac ∷ 7 ∷ []

sanitize-controls : sanitize strip_all controls ≡ 0xe2 ∷ 0x82 ∷ 0xac ∷ []
unfolding sanitize push finish process_all process_in process_ground ground_text ground_byte
    process_c1
sanitize-controls = refl

sanitize-HasNoControls_example : HasNoControls strip_all (sanitize strip_all controls)
sanitize-HasNoControls_example = sanitize-HasNoControls strip_all controls

-- The escape sequence is cut in two.
stream-eq-sanitize_example :
    stream (new strip_ansi) ((27 ∷ 91 ∷ 51 ∷ []) ∷ (49 ∷ 109 ∷ 104 ∷ []) ∷ [])
    ≡ sanitize strip_ansi (27 ∷ 91 ∷ 51 ∷ 49 ∷ 109 ∷ 104 ∷ [])
unfolding flatten
stream-eq-sanitize_example =
    stream-eq-sanitize strip_ansi ((27 ∷ 91 ∷ 51 ∷ []) ∷ (49 ∷ 109 ∷ 104 ∷ []) ∷ [])

sanitize_idem_example : sanitize strip_all (sanitize strip_all red) ≡ sanitize strip_all red
sanitize_idem_example = sanitize_idem strip_all red
