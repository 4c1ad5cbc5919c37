-- ===== src/GitBatch/Tests.antt =====
-- Two objects and a missing one.
use sandbox_driver.Base.{◌≡◌, refl, none, some, List, [], ◌∷◌}
use sandbox_driver.Error.{ok}
use sandbox_driver.GitFailures.{bytes_of}
use sandbox_driver.GitBatch.{parse_batch, parse_usize}
use sandbox_driver.GitBatch.Answers.{Answer, missing, object, print, parse_batch-print}

-- The second object's bytes hold a newline.
abbrev answers : List Answer
answers =
    object (bytes_of "a1") (bytes_of "blob") (bytes_of "9") (bytes_of "too large")
    ∷ missing (bytes_of "b2")
    ∷ object (bytes_of "c3") (bytes_of "blob") (bytes_of "3") (104 ∷ 10 ∷ 105 ∷ [])
    ∷ []

parse_batch-print_example :
    parse_batch (print answers) 3 4 ≡ ok (none ∷ none ∷ some (104 ∷ 10 ∷ 105 ∷ []) ∷ [])
unfolding parse_usize
parse_batch-print_example = parse_batch-print 4 answers (
  (
    ((refl, (refl, tt)), (refl, (refl, tt))),
    ((refl, (refl, (refl, (refl, tt)))), (refl, (refl, (refl, (refl, tt))))),
    ((refl, tt), (refl, tt)),
    refl,
  ),
  (
    (((refl, (refl, tt)), (refl, (refl, tt)))),
    (
      (
        ((refl, (refl, tt)), (refl, (refl, tt))),
        ((refl, (refl, (refl, (refl, tt)))), (refl, (refl, (refl, (refl, tt))))),
        ((refl, tt), (refl, tt)),
        refl,
      ),
      tt,
    ),
  ),
)
