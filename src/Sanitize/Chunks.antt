-- ===== src/Sanitize/Chunks.antt =====
-- The sanitizer does not see where its input was cut (crates/sandbox-driver/src/sanitize.rs).
use mathlib.Core.List.{flatten}
use sandbox_driver.Base.{ℕ, ◌≡◌, refl, ap, sym, List, [], ◌∷◌, ◌++◌, append_assoc, arith}
use sandbox_driver.Sanitize.Clean.{clean_all}
use sandbox_driver.Sanitize.{
  OutputSanitization, raw, strip_ansi, strip_all, OutputSanitizer, process, process_all, push,
  finish, sanitize, stream, new, before,
}

-- Two buffers in turn are processed as one.
pub process_all-append :
    (s : OutputSanitizer) (xs ys : List ℕ)
    → process_all s (xs ++ ys) ≡ before (process_all s xs).1 (process_all (process_all s xs).0 ys)
unfolding process_all
process_all-append s [] ys = refl
process_all-append s (x ∷ xs) ys = rw (process_all-append (process s x).0 xs ys) (
    ap (λ (out : List ℕ). ((process_all (process_all (process s x).0 xs).0 ys).0, out))
      (sym (append_assoc (process s x).1 _ _)))

pub push-append :
    (p : OutputSanitization) (s : OutputSanitizer) (xs ys : List ℕ)
    → s.policy ≡ p
    → push s (xs ++ ys) ≡ before (push s xs).1 (push (push s xs).0 ys)
unfolding push
push-append raw s xs ys e = ground arith
push-append strip_ansi s xs ys e =
    ground (arith, process_all-append s xs ys, clean_all s strip_ansi xs e (λ h. cc))
push-append strip_all s xs ys e =
    ground (arith, process_all-append s xs ys, clean_all s strip_all xs e (λ h. cc))

push-policy :
    (p : OutputSanitization) (s : OutputSanitizer) (xs : List ℕ)
    → s.policy ≡ p
    → (push s xs).0.policy ≡ p
unfolding push
push-policy raw s xs e = ground arith
push-policy strip_ansi s xs e = ground (arith, clean_all s strip_ansi xs e (λ h. cc))
push-policy strip_all s xs e = ground (arith, clean_all s strip_all xs e (λ h. cc))

push-nil : (s : OutputSanitizer) → push s [] ≡ (s, [])
unfolding push process_all
push-nil s = ground arith

stream-flatten :
    (p : OutputSanitization) (s : OutputSanitizer) (chunks : List (List ℕ))
    → s.policy ≡ p
    → stream s chunks ≡ (push s (flatten chunks)).1 ++ (finish (push s (flatten chunks)).0).1
unfolding stream flatten
stream-flatten p s [] e = rw (push-nil s)
stream-flatten p s (xs ∷ chunks) e = rw (
  push-append p s xs (flatten chunks) e,
  stream-flatten p (push s xs).0 chunks (push-policy p s xs e),
  append_assoc,
)

-- However the input is cut into chunks, the stream returns what the whole buffer returns.
pub stream-eq-sanitize :
    (p : OutputSanitization) (chunks : List (List ℕ))
    → stream (new p) chunks ≡ sanitize p (flatten chunks)
unfolding sanitize
stream-eq-sanitize p chunks = stream-flatten p (new p) chunks refl
