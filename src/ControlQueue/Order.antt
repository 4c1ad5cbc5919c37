-- ===== src/ControlQueue/Order.antt =====
-- The order in which the control queues are drained (control.rs).
use sandbox_driver.Base.{◌≡◌, ◌⊎◌, refl, ap, ◌∙◌, inl, inr, Option, none, some, List, [], ◌∷◌}
use sandbox_driver.ControlQueue.{
  Encoded, Which, normal, events, priority, Control, lane, set_lane, take_from, or_next, recv,
}

List-cases :
    (xs : List Encoded) → (xs ≡ []) ⊎ ((x : Encoded) × (rest : List Encoded) × (xs ≡ x ∷ rest))
List-cases [] = inl refl
List-cases (x ∷ rest) = inr (x, rest, refl)

-- A receive takes the first message of a lane, or leaves all as it is.
abbrev pub Takes : Control → Option (Which × Encoded) × Control → Type 0
Takes c result =
    (result ≡ (none, c))
    ⊎ ((w : Which) × (e : Encoded) × (rest : List Encoded) × ((lane w c).queue ≡ e ∷ rest)
        × (result ≡ (some (w, e), set_lane w (record (lane w c) { queue = rest }) c)))

abbrev pub after_normal : Control → Option (Which × Encoded) × Control
after_normal c = take_from events c.events_lane.queue c

abbrev pub after_priority : Control → Option (Which × Encoded) × Control
after_priority c = or_next (take_from normal c.normal_lane.queue c) after_normal

-- The lanes in the order of the select.
pub recv-priority :
    (c : Control) (queue : List Encoded)
    → c.priority_lane.queue ≡ queue
    → recv c ≡ or_next (take_from priority queue c) after_priority
unfolding recv
recv-priority c queue p = ap (λ q. or_next (take_from priority q c) after_priority) p

recv-normal :
    (c : Control) (queue : List Encoded)
    → c.priority_lane.queue ≡ []
    → c.normal_lane.queue ≡ queue
    → recv c ≡ or_next (take_from normal queue c) after_normal
recv-normal c queue p n =
    recv-priority c [] p ∙ ap (λ q. or_next (take_from normal q c) after_normal) n

pub recv-Takes : (c : Control) → Takes c (recv c)
recv-Takes c = elim (List-cases c.priority_lane.queue) [
  | inr (e, rest, p) ↦ inr (priority, e, rest, p, recv-priority c (e ∷ rest) p)
  | inl p ↦ elim (List-cases c.normal_lane.queue) [
    | inr (e, rest, n) ↦ inr (normal, e, rest, n, recv-normal c (e ∷ rest) p n)
    | inl n ↦ elim (List-cases c.events_lane.queue) [
      | inr (e, rest, v) ↦
          inr (events, e, rest, v, recv-normal c [] p n ∙ ap (λ q. take_from events q c) v)
      | inl v ↦ inl (recv-normal c [] p n ∙ ap (λ q. take_from events q c) v)
    ]
  ]
]
