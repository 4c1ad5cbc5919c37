-- ===== src/GitRetry/Attempts.antt =====
-- The loop of `retry_git` (git_retry.rs): it returns, and what its attempts are.
use sandbox_driver.Base.{
  ℕ, zero, suc, ◌+◌, ◌-◌, ◌≤◌, ◌<◌, max, ◌≡◌, refl, ◌⊎◌, inl, inr, true, false, Option, none, some,
  List, [], ◌∷◌, ◌++◌, String, length, length-append, arith, Bool-cases, ltb, All, All-append,
}
use sandbox_driver.Error.{Error, timeout, Result, ok, err}
use sandbox_driver.GitRetry.{
  Floats, World, GitCredentials, GitRetryReason, GitAttempt, Retried, report, failed, panicked,
  Delay, gives_up, panics, waits, delay_after, fitting, retry_delay, overflows, GitRetryPolicy,
  deadline, attempt_timeout, delay_for, is_zero, begin, after_attempt, retry_loop, retry_git,
  retry_reason, u32_max,
}

-- An attempt number counts the attempts before it, from one.
abbrev pub Numbered : ℕ → List GitAttempt → Type 0
Numbered k [] = Unit
Numbered k (a ∷ tries) = (a.attempt ≡ k + 1) × Numbered (k + 1) tries

Numbered-append :
    (k : ℕ) (tries : List GitAttempt) (a : GitAttempt)
    → Numbered k tries
    → a.attempt ≡ k + length tries + 1
    → Numbered k (tries ++ (a ∷ []))
Numbered-append k [] a n e = (ground arith, tt)
Numbered-append k (b ∷ tries) a (n, ns) e = (n, Numbered-append (k + 1) tries a ns (omega arith))

abbrev pub Before : ℕ → Option ℕ → Type 0
Before t none = Unit
Before t (some until) = t < until

abbrev pub Passed : ℕ → Option ℕ → Type 0
Passed t none = ⊥
Passed t (some until) = until ≤ t

Delay-cases : (d : Delay) → (d ≡ gives_up) ⊎ (d ≡ panics) ⊎ ((n : ℕ) × (d ≡ waits n))
Delay-cases gives_up = inl refl
Delay-cases panics = inr (inl refl)
Delay-cases (waits n) = inr (inr (n, refl))

module _ (floats : Floats) {T : Type 0} (world : World T) (policy : GitRetryPolicy floats)
    (credentials : Option GitCredentials) (name : String) (start : ℕ) where
  -- An attempt that failed for a reason to repeat it.
  abbrev pub Repeated : GitAttempt → Type 0
  Repeated a =
      (e : Error) × (t : ℕ) × (r : GitRetryReason) × (a.failure ≡ some e)
      × (a.retry_reason ≡ some r)
      × (retry_reason e credentials (world.wall t) ≡ some r)

  -- An attempt that started before the deadline.
  abbrev pub InTime : GitAttempt → Type 0
  InTime a = (t : ℕ) × (a.started_at ≡ world.wall t) × Before t (deadline floats policy start)

  -- The last attempt: what its operation returned, called at `t`.
  abbrev pub Last : GitAttempt → Result T → Type 0
  Last a r =
      (t : ℕ) × (later : ℕ) × (world.operation a.attempt
          (attempt_timeout floats policy (deadline floats policy start) t) t
        ≡ (r, later))
      × (a.failure ≡ none)

  abbrev pub most : ℕ
  most = max policy.max_attempts 1

  abbrev pub Tried : List GitAttempt → Type 0
  Tried tries = Numbered 0 tries × All InTime tries × (length tries ≤ most)

  -- Every attempt but the last failed and was repeated. The call returns the last one's value or
  -- failure; or it timed out behind attempts that were all repeated: the deadline had passed. It panics
  -- only where the backoff behind an attempt that is to be repeated overflows, or the deadline does.
  abbrev pub Conforms : Retried T → Type 0
  Conforms (report v tries) =
      (before : List GitAttempt) × (last : GitAttempt) × (tries ≡ before ++ (last ∷ []))
      × All Repeated before
      × Last last (ok v)
      × Tried tries
  Conforms (failed tries e) =
      ((before : List GitAttempt) × (last : GitAttempt) × (tries ≡ before ++ (last ∷ []))
        × All Repeated before
        × Last last (err e)
        × Tried tries)
      ⊎ ((now : ℕ) × (e ≡ timeout name (now - start))
          × All Repeated tries
          × Tried tries
          × ((policy.per_attempt_timeout ≡ some 0) ⊎ Passed now (deadline floats policy start)))
  Conforms (panicked tries) =
      ((before : List GitAttempt) × (last : GitAttempt) × (e : Error) × (r : GitRetryReason)
        × (tries ≡ before ++ (last ∷ []))
        × All Repeated before
        × Last last (err e)
        × Tried tries
        × (last.retry_reason ≡ some r)
        × (last.attempt < most)
        × (delay_after floats policy.backoff last.attempt ≡ none))
      ⊎ ((longest : ℕ) × (tries ≡ [])
          × (policy.max_elapsed ≡ some longest)
          × (world.latest < start + longest))

  abbrev pub Returns : Option (Retried T) → Type 0
  Returns o = (x : Retried T) × (o ≡ some x) × Conforms x

  InTime-of :
      (tries : List GitAttempt) (now : ℕ) (bound limit : Option ℕ)
      → policy.per_attempt_timeout ≡ bound
      → policy.max_elapsed ≡ limit
      → is_zero (attempt_timeout floats policy (deadline floats policy start) now) ≡ false
      → InTime (begin floats world tries now)
  unfolding attempt_timeout
  InTime-of tries now cap none p q h = (now, refl, rw q tt)
  InTime-of tries now none (some longest) p q h = (now, refl, rw q (ground arith))
  InTime-of tries now (some c) (some longest) p q h = (now, refl, rw q (ground arith))

  timed_out :
      (now : ℕ) (bound limit : Option ℕ)
      → policy.per_attempt_timeout ≡ bound
      → policy.max_elapsed ≡ limit
      → is_zero (attempt_timeout floats policy (deadline floats policy start) now) ≡ true
      → (policy.per_attempt_timeout ≡ some 0) ⊎ Passed now (deadline floats policy start)
  unfolding attempt_timeout
  timed_out now none none p q h = absurd (ground arith)
  timed_out now none (some longest) p q h = inr (rw q (ground arith))
  timed_out now (some c) none p q h = inl (ground arith)
  timed_out now (some zero) (some longest) p q h = inl p
  timed_out now (some (suc c)) (some longest) p q h = inr (rw q (ground arith))

  delay_for-waits :
      (o : Option GitRetryReason) (n : ℕ) (until : Option ℕ) (now d : ℕ)
      → delay_for floats policy o n until now ≡ waits d
      → ((r : GitRetryReason) × (o ≡ some r)) × (n < most)
  delay_for-waits none n until now d e = ground arith
  delay_for-waits (some r) n until now d e = ((r, refl), ground arith)

  fitting-panics :
      (o : Option ℕ) (until : Option ℕ) (now : ℕ) → fitting floats o until now ≡ panics → o ≡ none
  fitting-panics none until now e = refl
  fitting-panics (some d) until now e = ground arith

  delay_for-panics :
      (o : Option GitRetryReason) (n : ℕ) (until : Option ℕ) (now : ℕ)
      → delay_for floats policy o n until now ≡ panics
      → (r : GitRetryReason) × (o ≡ some r)
        × (n < most)
        × (delay_after floats policy.backoff n ≡ none)
  unfolding retry_delay
  delay_for-panics none n until now e = ground arith
  delay_for-panics (some r) n until now e = elim (Bool-cases (ltb n most)) [
    | inl l ↦ (
      r,
      refl,
      ground arith,
      fitting-panics (delay_after floats policy.backoff n) until now (rw l at e),
    )
    | inr l ↦ ground arith
  ]

  abbrev Good : List GitAttempt → Type 0
  Good tries = Numbered 0 tries × All InTime tries × All Repeated tries × (length tries < most)

  tried :
      (last : GitAttempt) (tries : List GitAttempt)
      → Numbered 0 tries
      → All InTime tries
      → length tries < most
      → InTime last
      → last.attempt ≡ length tries + 1
      → Tried (tries ++ (last ∷ []))
  tried last tries n t l i e = (
    Numbered-append 0 tries last n (omega arith),
    All-append InTime tries (last ∷ []) t (i, tt),
    omega (arith, length-append tries (last ∷ [])),
  )

  settle :
      (again : List GitAttempt → ℕ → Option (Retried T)) (tries : List GitAttempt) (now : ℕ)
      (r : Result T) (later : ℕ)
      → most ≤ u32_max
      → world.operation
          (begin floats world tries now).attempt
          (attempt_timeout floats policy (deadline floats policy start) now)
          now
        ≡ (r, later)
      → InTime (begin floats world tries now)
      → Good tries
      → ((more : List GitAttempt) (t : ℕ)
          → Good more
          → length more ≡ length tries + 1
          → Returns (again more t))
      → Returns (
          after_attempt floats world again policy credentials
            (deadline floats policy start)
            tries
            (begin floats world tries now)
            (r, later)
            now)
  settle again tries now (ok v) later m o i (n, t, r, l) k =
      let last = record (begin floats world tries now) { duration = later - now } in
      (
        report v (tries ++ (last ∷ [])),
        refl,
        (tries, last, refl, r, (now, later, o, refl), tried last tries n t l i (omega arith)),
      )
  settle again tries now (err e) later m o i (n, t, r, l) k =
      let reason = retry_reason e credentials (world.wall later) in
      let entry = begin floats world tries now in
      let last = record entry { duration = later - now; retry_reason = reason } in
      let until = deadline floats policy start in
      elim (Delay-cases (delay_for floats policy reason entry.attempt until later)) [
        | inl d ↦ rw d (
          failed (tries ++ (last ∷ [])) e,
          refl,
          inl (tries, last, refl, r, (now, later, o, refl), tried last tries n t l i (omega arith)),
        )
        | inr (inl d) ↦
            let (why, w, below, over) = delay_for-panics reason entry.attempt until later d in
            rw d (
              panicked (tries ++ (last ∷ [])),
              refl,
              inl (
                tries,
                last,
                e,
                why,
                refl,
                r,
                (now, later, o, refl),
                tried last tries n t l i (omega arith),
                w,
                below,
                over,
              ),
            )
        | inr (inr (delay, d)) ↦
            rw d
              let again_last = record last { failure = some e } in
                let ((why, w), below) = delay_for-waits reason entry.attempt until later delay d in
                k (tries ++ (again_last ∷ [])) (world.wake later delay)
                  (let (x, y, z) = tried again_last tries n t l i (omega arith) in
                    (
                      x,
                      y,
                      All-append Repeated tries (again_last ∷ []) r
                          ((e, later, why, refl, w, w), tt),
                      omega (arith, length-append tries (again_last ∷ [])),
                    ))
                  (length-append tries (again_last ∷ []))
      ]

  loop-Conforms :
      (fuel : ℕ) (tries : List GitAttempt) (now : ℕ)
      → most ≤ u32_max
      → Good tries
      → most ≤ fuel + length tries
      → Returns (retry_loop floats world fuel policy credentials name start tries now)
  unfolding retry_loop
  loop-Conforms zero tries now m g h = absurd (let (_, _, _, l) = g in omega arith)
  loop-Conforms (suc fuel) tries now m (n, t, r, l) h =
      let until = deadline floats policy start in
      elim (Bool-cases (is_zero (attempt_timeout floats policy until now))) [
        | inl z ↦ rw z (
          failed tries (timeout name (now - start)),
          refl,
          inr (
            now,
            refl,
            r,
            (n, t, omega arith),
            timed_out now policy.per_attempt_timeout policy.max_elapsed refl refl z,
          ),
        )
        | inr z ↦
            rw z
              let (back, later) =
                  world.operation (begin floats world tries now).attempt
                    (attempt_timeout floats policy until now) now in
                settle (retry_loop floats world fuel policy credentials name start) tries now back
                  later m refl
                  (InTime-of tries now policy.per_attempt_timeout policy.max_elapsed refl refl z)
                  (n, t, r, l) (λ more x g e. loop-Conforms fuel more x m g (omega arith))
      ]

  overflows-longest :
      (limit : Option ℕ)
      → overflows floats limit start world.latest ≡ true
      → (longest : ℕ) × (limit ≡ some longest) × (world.latest < start + longest)
  overflows-longest none h = ground arith
  overflows-longest (some longest) h = (longest, refl, ground arith)

  -- `retry_git` comes to an end, for a policy whose attempts fit 32 bits. Its attempts are numbered from
  -- one, at most `max_attempts` of them (at least one is allowed), each started before the
  -- deadline; every one but the last failed for a reason to repeat it, and the result is what the
  -- last one's operation returned, called with the time it had left. Or the deadline passed. It panics
  -- only where the deadline is no instant, or behind an attempt that is to be repeated and for which
  -- the product of the backoff overflows.
  pub retry_git-Conforms :
      policy.max_attempts ≤ u32_max → Returns (retry_git floats world policy credentials name start)
  unfolding retry_git
  retry_git-Conforms h =
      elim (Bool-cases (overflows floats policy.max_elapsed start world.latest)) [
        | inl e ↦
            let (longest, m, l) = overflows-longest policy.max_elapsed e in
            rw e (panicked [], refl, inr (longest, refl, m, l))
        | inr e ↦
            rw e (loop-Conforms most [] start (omega arith) (tt, tt, tt, omega arith) (omega arith))
      ]
