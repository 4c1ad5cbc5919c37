-- ===== src/Sanitize/Again.antt =====
-- Sanitizing twice is sanitizing once (crates/sandbox-driver/src/sanitize.rs).
use sandbox_driver.Base.{
  ℕ, ◌≡◌, ◌≢◌, refl, ◌⊎◌, inl, inr, true, List, [], ◌∷◌, ◌++◌, append_assoc, append-nil, arith, ap,
  sym, ◌∙◌,
}
use sandbox_driver.Sanitize.Chunks.{process_all-append}
use sandbox_driver.Sanitize.Clean.{clean_step}
use sandbox_driver.Sanitize.Kept.{pend}
use sandbox_driver.Sanitize.{
  OutputSanitization, raw, strip_ansi, strip_all, OutputSanitizer, State, process, process_all,
  push, finish, sanitize, new,
}
use sandbox_driver.Sanitize.Follow.{Follows, Matches, hold, process_one}
use sandbox_driver.Sanitize.Tidy.{IsTidy, Matches-step, IsTidy-step}

regroup :
    (a b c d e f : List ℕ) (g : List ℕ)
    → a ++ d ≡ e ++ f
    → b ++ c ≡ d ++ g
    → (a ++ b) ++ c ≡ e ++ (f ++ g)
regroup a b c d e f g h k =
    append_assoc a b c
    ∙ ap (◌++◌ a) k
    ∙ sym (append_assoc a d g)
    ∙ ap (λ (x : List ℕ). x ++ g) h
    ∙ append_assoc e f g

Matches-all :
    (p : OutputSanitization) (bs : List ℕ) (s t : OutputSanitizer)
    → p ≢ raw
    → s.policy ≡ p
    → IsTidy s
    → Follows p s t
    → Matches p t (process_all s bs)
unfolding process_all
Matches-all p [] s t n e h f = (sym (append-nil (pend t)), f)
Matches-all p (b ∷ bs) s t n e h f =
    let (s', out) = process s b in
    let (u, first) = process_all t out in
    let rest = (process_all s' bs).1 in
    let (v, second) = process_all u rest in
    let now = Matches-step s.state p s t b refl n e h f in
    let kept = (clean_step s.state s p b e n).0 in
    let later =
      Matches-all p bs (process s b).0 (process_all t (process s b).1).0 n kept
        (IsTidy-step s.state s b refl h) now.1 in
    rw (process_all-append t out rest)
      (regroup first second (pend v) (pend u) (pend t) out rest now.0 later.0, later.1)

-- `finish` after the last byte, which can be a held 0xc2 that the first sanitizer returned.
flush :
    (p : OutputSanitization) (t : OutputSanitizer)
    → p ≢ raw
    → t.policy ≡ p
    → t.state ≡ State.ground
    → (finish t).1 ≡ pend t
unfolding finish
flush raw t n e g = absurd (n refl)
flush _ t n e g = ground arith

flush_last :
    (p : OutputSanitization) (s t : OutputSanitizer) (last : List ℕ)
    → p ≢ raw
    → Follows p s t
    → (last ≡ []) ⊎ (last ≡ 0xc2 ∷ [])
    → (process_all t last).1 ++ (finish (process_all t last).0).1 ≡ pend t ++ last
flush_last p s t last n f (inl e) =
    rw e (unfold process_all in flush p t n f.policy f.state ∙ sym (append-nil (pend t)))
flush_last p s t last n f (inr e) = rw e (
    rw (process_one t 0xc2 f.state, hold t (λ h. (f.held h).0))
      (ap (◌++◌ (pend t))
        (flush p (record t { pending_c2 = true; utf8_remaining = 0 }) n f.policy f.state)))

pub finish_last : (s : OutputSanitizer) → ((finish s).1 ≡ []) ⊎ ((finish s).1 ≡ 0xc2 ∷ [])
unfolding finish
finish_last s = ground arith

again :
    (p : OutputSanitization) (bs : List ℕ)
    → p ≢ raw
    → let (s, out) = process_all (new p) bs in
      let all = out ++ (finish s).1 in
      (process_all (new p) all).1 ++ (finish (process_all (new p) all).0).1 ≡ all
again p bs n =
    let m =
      Matches-all p bs (new p) (new p) n refl
        (record { held = λ h. refl; outside = λ h. absurd (h refl) })
        (record { policy = refl; state = refl; held = λ h. (refl, refl); room = omega arith }) in
    let (s, out) = process_all (new p) bs in
    let (t, first) = process_all (new p) out in
    let last = (finish s).1 in
    let (u, second) = process_all t last in
    rw (process_all-append (new p) out last) (
      regroup first second (finish u).1 (pend t) [] out last m.0
        (flush_last p s t last n m.1 (finish_last s)))

-- Output that has been sanitized is left alone by the same policy.
pub sanitize_idem :
    (p : OutputSanitization) (bs : List ℕ) → sanitize p (sanitize p bs) ≡ sanitize p bs
unfolding sanitize push
sanitize_idem raw bs = unfold finish in append-nil _
sanitize_idem strip_ansi bs = again strip_ansi bs (λ h. cc)
sanitize_idem strip_all bs = again strip_all bs (λ h. cc)
