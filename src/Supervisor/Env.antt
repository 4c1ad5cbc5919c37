-- ===== src/Supervisor/Env.antt =====
-- The environment that a supervisor freezes for its plugins (supervisor.rs).
use sandbox_driver.Base.{
  ◌≡◌, refl, sym, ap, ◌∙◌, inl, inr, Bool, false, Bool-cases, ◌||◌, Option, none, some, List, [],
  ◌∷◌, ℕ, if◌then◌else◌, subst,
}
use sandbox_driver.GitBatch.{texts_equal}
use sandbox_driver.Status.{Labels, get}
use sandbox_driver.Status.Labels.{
  texts_equal_refl, texts_equal→≡, get-insert_same, get-insert_other,
}
use sandbox_driver.Supervisor.{forwarded, frozen_env}

abbrev pub mentions : List ℕ → List (List ℕ) → Bool
mentions key [] = false
mentions key (k ∷ keys) = texts_equal key k || mentions key keys

-- An explicit value, else that of the environment, where the key is to be inherited.
abbrev pub effective :
    (List ℕ → Option (List ℕ)) → List (List ℕ) → List ℕ → Option (List ℕ) → Option (List ℕ)
effective var keys key (some explicit) = some explicit
effective var keys key none = if mentions key keys then var key else none

get-forwarded_other :
    (other key : List ℕ) (explicit inherited : Option (List ℕ)) (env : Labels)
    → texts_equal other key ≡ false
    → get other (forwarded key explicit inherited env) ≡ get other env
get-forwarded_other other key (some v) inherited env h = refl
get-forwarded_other other key none none env h = refl
get-forwarded_other other key none (some v) env h = get-insert_other other key v env h

get-forwarded_same :
    (var : List ℕ → Option (List ℕ)) (keys : List (List ℕ)) (key : List ℕ)
    (explicit inherited : Option (List ℕ)) (env : Labels)
    → get key env ≡ explicit
    → var key ≡ inherited
    → effective var keys key (get key (forwarded key explicit inherited env))
      ≡ effective var (key ∷ keys) key explicit
get-forwarded_same var keys key (some e) inherited env g v = ap (effective var keys key) g
get-forwarded_same var keys key none none env g v = elim (Bool-cases (mentions key keys)) [
  | inl m ↦ rw (g, texts_equal_refl key, m) refl
  | inr m ↦ rw (g, texts_equal_refl key, m) (sym v)
]
get-forwarded_same var keys key none (some value) env g v =
    rw (get-insert_same key value env, texts_equal_refl key) (sym v)

effective-other :
    (var : List ℕ → Option (List ℕ)) (k : List ℕ) (keys : List (List ℕ)) (key : List ℕ)
    (explicit : Option (List ℕ))
    → texts_equal key k ≡ false
    → effective var keys key explicit ≡ effective var (k ∷ keys) key explicit
effective-other var k keys key none h = rw h refl
effective-other var k keys key (some e) h = refl

effective-nil :
    (var : List ℕ → Option (List ℕ)) (key : List ℕ) (explicit : Option (List ℕ))
    → explicit ≡ effective var [] key explicit
effective-nil var key none = refl
effective-nil var key (some e) = refl

-- A plugin sees the explicit value of a variable, else that of the environment at the launch, where the
-- key is to be inherited.
pub get-frozen_env :
    (var : List ℕ → Option (List ℕ)) (keys : List (List ℕ)) (env : Labels) (key : List ℕ)
    → get key (frozen_env var keys env) ≡ effective var keys key (get key env)
unfolding frozen_env
get-frozen_env var [] env key = effective-nil var key (get key env)
get-frozen_env var (k ∷ keys) env key =
    let env1 = forwarded k (get k env) (var k) env in
    elim (Bool-cases (texts_equal key k)) [
      | inl e ↦
          let at_k =
            get-frozen_env var keys env1 k
            ∙ get-forwarded_same var keys k (get k env) (var k) env refl refl in
          subst (λ x. get x (frozen_env var keys env1) ≡ effective var (k ∷ keys) x (get x env))
            (sym (texts_equal→≡ key k e)) at_k
      | inr e ↦
          get-frozen_env var keys env1 key
          ∙ ap (effective var keys key) (get-forwarded_other key k (get k env) (var k) env e)
          ∙ effective-other var k keys key (get key env) e
    ]
