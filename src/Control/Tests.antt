-- ===== src/Control/Tests.antt =====
-- Two lines in three buffers.
use mathlib.Core.List.{flatten}
use sandbox_driver.Base.{◌≡◌, [], ◌∷◌, arith}
use sandbox_driver.GitBatch.{cut_at}
use sandbox_driver.Control.{line, read_line}
use sandbox_driver.Control.Lines.{whole, read_line-line_of}

read_line-line_of_example :
    whole (read_line 8 ((97 ∷ 98 ∷ []) ∷ (99 ∷ 10 ∷ 100 ∷ []) ∷ (101 ∷ 10 ∷ []) ∷ []) (96 ∷ []))
    ≡ line (96 ∷ 97 ∷ 98 ∷ 99 ∷ 10 ∷ []) (100 ∷ 101 ∷ 10 ∷ [])
unfolding flatten cut_at
read_line-line_of_example =
    read_line-line_of 8 ((97 ∷ 98 ∷ []) ∷ (99 ∷ 10 ∷ 100 ∷ []) ∷ (101 ∷ 10 ∷ []) ∷ []) (96 ∷ [])
      ((λ h. ground arith), ((λ h. ground arith), ((λ h. ground arith), tt))) (omega arith)
