-- ===== src/Status/Tests.antt =====
-- A label that is set twice.
use sandbox_driver.Base.{◌≡◌, refl, some, []}
use sandbox_driver.GitFailures.{bytes_of}
use sandbox_driver.Status.{get, insert}

get-insert_twice :
    get
      (bytes_of "team")
      (insert (bytes_of "team") (bytes_of "b") (insert (bytes_of "team") (bytes_of "a") []))
    ≡ some (bytes_of "b")
unfolding get insert
get-insert_twice = refl
