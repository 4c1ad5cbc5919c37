-- ===== src/Registry/Tests.antt =====
-- Runs of a registry (registry.rs).
use sandbox_driver.Base.{
  ℕ, ◌≤◌, ◌≡◌, refl, Option, none, some, List, [], ◌∷◌, ◌⊎◌, false, length, arith,
}
use sandbox_driver.Registry.{
  Entries, get, removed, insert, is_some, try_insert, remove, insert_bounded, drain,
}
use sandbox_driver.Status.Labels.{texts_equal_refl}
use sandbox_driver.Registry.Refines.{
  Op, try_inserts, removes, gets, replies, map_replies, replies-map_replies,
}
use sandbox_driver.Registry.Bounded.{IsPresent, insert_bounded-Keeps}

abbrev a : List ℕ
a = b'a' ∷ []

abbrev b : List ℕ
b = b'b' ∷ []

abbrev c : List ℕ
c = b'c' ∷ []

abbrev ops : List (Op ℕ)
ops = try_inserts a 1 ∷ try_inserts a 2 ∷ gets a ∷ removes a ∷ try_inserts a 3 ∷ gets b ∷ []

answers : replies ops [] ≡ none ∷ some 2 ∷ some 1 ∷ some 1 ∷ none ∷ none ∷ []
unfolding try_insert remove removed insert get
answers = refl

replies-map_replies_example : replies ops [] ≡ map_replies ops (λ id. none)
replies-map_replies_example = replies-map_replies ops

-- The map that lists the entries in their order.
abbrev first_key : Entries ℕ → Option (List ℕ)
first_key [] = none
first_key ((id, value) ∷ entries) = some id

first_key-IsPresent : IsPresent first_key
unfolding get
first_key-IsPresent [] h = ground arith
first_key-IsPresent ((id, value) ∷ entries) h = (id, value, refl, rw (texts_equal_refl id) refl)

abbrev full : Entries ℕ
full = (a, 1) ∷ (b, 2) ∷ []

drained : drain full ≡ (1 ∷ 2 ∷ [], [])
unfolding drain
drained = refl

insert_bounded-Keeps_example :
    let after = insert_bounded first_key c 3 2 full in
    (length after ≤ 2)
    × (get c after ≡ some 3)
    × ((get b after ≡ get b full) ⊎ ((length full ≡ 2) × (is_some (get c full) ≡ false)))
insert_bounded-Keeps_example =
    insert_bounded-Keeps first_key c b 3 2 full first_key-IsPresent (omega arith) (omega arith) refl
