-- ===== src/GitBatch/Answers.antt =====
-- What `git cat-file --batch` prints is read back (parse.rs).
use sandbox_driver.Base.{
  ℕ, suc, ◌≡◌, refl, sym, ap, ◌∙◌, false, Option, none, some, List, [], ◌∷◌, ◌++◌, length,
  length-append, take-length-append, drop-length-append, ltb, leb, ◌==◌, if◌then◌else◌, ==_refl,
  ==_iff, inl, inr, Bool-cases, arith, All, map,
}
use sandbox_driver.Error.{Result, ok, err, ok_injective}
use sandbox_driver.GitFailures.{bytes_of}
use sandbox_driver.GitBatch.{
  batch_header, parse_usize, Blobs, consed, blob_of, line_of, batch_loop, counted, parse_batch,
}
use sandbox_driver.GitBatch.Fields.{
  Without, cut_at-found, batch_header-object, batch_header-missing,
}

-- Git's answer for an object: missing, or its kind, the text of its size and its bytes.
pub data Answer : Type 0 where
  missing : List ℕ → Answer
  object : List ℕ → List ℕ → List ℕ → List ℕ → Answer

abbrev line : Answer → List ℕ
line (missing name) = name ++ (32 ∷ bytes_of "missing")
line (object name kind size body) = name ++ (32 ∷ (kind ++ (32 ∷ size)))

abbrev data_of : Answer → List ℕ → List ℕ
data_of (missing name) rest = rest
data_of (object name kind size body) rest = body ++ (10 ∷ rest)

-- What git prints for the objects, in order.
abbrev pub print : List Answer → List ℕ
print [] = []
print (a ∷ answers) = line a ++ (10 ∷ data_of a (print answers))

-- No name or field holds a space or a newline, and the size is that of the bytes.
abbrev pub IsPrinted : Answer → Type 0
IsPrinted (missing name) = Without 32 name × Without 10 name
IsPrinted (object name kind size body) =
    (Without 32 name × Without 10 name)
    × (Without 32 kind × Without 10 kind)
    × (Without 32 size × Without 10 size)
    × (parse_usize size ≡ some (length body))

-- The blob of an answer: its bytes, unless it is missing or over the limit.
abbrev pub blob : ℕ → Answer → Option (List ℕ)
blob max_bytes (missing name) = none
blob max_bytes (object name kind size body) =
    if leb (length body) max_bytes then some body else none

Without-append : (c : ℕ) (s t : List ℕ) → Without c s → Without c t → Without c (s ++ t)
Without-append c [] t a b = b
Without-append c (x ∷ s) t (h, a) b = (h, Without-append c s t a b)

line-Without : (a : Answer) → IsPrinted a → Without 10 (line a)
line-Without (missing name) (s, n) =
    Without-append 10 name (32 ∷ bytes_of "missing") n
      (refl, (refl, (refl, (refl, (refl, (refl, (refl, (refl, tt))))))))
line-Without (object name kind size body) ((a, b), (c, d), (e, f), p) =
    Without-append 10 name (32 ∷ (kind ++ (32 ∷ size))) b
      (refl, Without-append 10 kind (32 ∷ size) d (refl, f))

blob_of-answer :
    (again : List ℕ → Result Blobs) (max_bytes : ℕ) (a : Answer) (rest : List ℕ)
    → IsPrinted a
    → blob_of again max_bytes (batch_header (line a)) (data_of a rest)
      ≡ consed (blob max_bytes a) (again rest)
blob_of-answer again max_bytes (missing name) rest (s, n) = rw (batch_header-missing name s) refl
blob_of-answer again max_bytes (object name kind size body) rest ((a, b), (c, d), (e, f), p) =
    let fits : ltb (length (body ++ (10 ∷ rest))) (length body) ≡ false =
      ground (arith, length-append body (10 ∷ rest)) in
    rw
      (
        batch_header-object name kind size (length body) a c e p,
        fits,
        take-length-append body (10 ∷ rest),
        drop-length-append body (10 ∷ rest),
      )
      refl

batch_loop-print :
    (max_bytes : ℕ) (answers : List Answer)
    → All IsPrinted answers
    → batch_loop (length answers) max_bytes (print answers) ≡ ok (map (blob max_bytes) answers)
unfolding batch_loop
batch_loop-print max_bytes [] h = refl
batch_loop-print max_bytes (a ∷ answers) (h, hs) =
    ap (line_of (batch_loop (length answers) max_bytes) max_bytes)
      (cut_at-found 10 (line a) (data_of a (print answers)) (line-Without a h))
    ∙ blob_of-answer (batch_loop (length answers) max_bytes) max_bytes a (print answers) h
    ∙ ap (consed (blob max_bytes a)) (batch_loop-print max_bytes answers hs)

length-map-blob :
    (max_bytes : ℕ) (answers : List Answer) → length (map (blob max_bytes) answers) ≡ length answers
length-map-blob max_bytes [] = refl
length-map-blob max_bytes (a ∷ answers) = ap suc (length-map-blob max_bytes answers)

-- What git prints for the requested objects is read back as their bytes, in order: nothing for a
-- missing object and for one over the limit, and whatever the bytes hold, newlines included.
pub parse_batch-print :
    (max_bytes : ℕ) (answers : List Answer)
    → All IsPrinted answers
    → parse_batch (print answers) (length answers) max_bytes ≡ ok (map (blob max_bytes) answers)
unfolding parse_batch
parse_batch-print max_bytes answers h =
    ap (counted (length answers)) (batch_loop-print max_bytes answers h)
    ∙ rw (length-map-blob max_bytes answers, ==_refl (length answers)) refl

-- Whatever git printed, as many blobs come back as objects were requested, or an error.
pub parse_batch-length :
    (output : List ℕ) (count max_bytes : ℕ) (blobs : Blobs)
    → parse_batch output count max_bytes ≡ ok blobs
    → length blobs ≡ count
unfolding parse_batch
parse_batch-length output count max_bytes blobs h =
    counted-length (batch_loop count max_bytes output) h
  where
    counted-length : (r : Result Blobs) → counted count r ≡ ok blobs → length blobs ≡ count
    counted-length (err e) h = absurd (ground arith)
    counted-length (ok found) h = elim (Bool-cases (length found == count)) [
      | inl q ↦ ap length (sym (ok_injective (rw q at h))) ∙ (==_iff (length found) count).0 q
      | inr q ↦ absurd (ground arith)
    ]
