-- ===== src/Frame/Deliver.antt =====
-- `FrameWriter::deliver` and `write_one` against any script of short writes, stalls and failures
-- (crates/sandbox-driver-protocol/src/channel.rs).
use sandbox_driver.Base.{
  ℕ, true, zero, suc, ◌≡◌, refl, sym, ap, subst, ◌∙◌, List, [], ◌∷◌, ◌++◌, append_assoc, append-nil,
  take, drop, take-append-drop,
}
use sandbox_driver.Error.{is_ok, ok, err}
use sandbox_driver.Frame.{Written, wrote, stalled, failed, Wire, deliver, after, Outcome}

-- A prefix of `bytes` was sent behind `sent`, and all of it where the result is `ok`.
pub record Sends (sent bytes : List ℕ) (o : Outcome) : Type 0 where
  pub done : List ℕ
  pub left : List ℕ
  pub sends : o.0.sent ≡ sent ++ done
  pub parts : done ++ left ≡ bytes
  pub whole : o.1 ≡ ok tt → left ≡ []

stop :
    (sent bytes : List ℕ) (script : List Written) (e : _)
    → Sends sent bytes (record { sent = sent; script = script }, err e)
stop sent bytes script e = record {
  done = [];
  left = bytes;
  sends = sym (append-nil sent);
  parts = refl;
  whole = λ h. cc;
}

Sends-more :
    (sent piece rest : List ℕ) (o : Outcome)
    → Sends (sent ++ piece) rest o
    → Sends sent (piece ++ rest) o
Sends-more sent piece rest o h = record {
  done = piece ++ h.done;
  left = h.left;
  sends = h.sends ∙ append_assoc sent piece h.done;
  parts = append_assoc piece h.done h.left ∙ ap (◌++◌ piece) h.parts;
  whole = h.whole;
}

pub deliver-Sends :
    (script : List Written) (sent bytes : List ℕ) → Sends sent bytes (deliver script sent bytes)
unfolding deliver
deliver-Sends script sent [] = record {
  done = [];
  left = [];
  sends = sym (append-nil sent);
  parts = refl;
  whole = λ h. refl;
}
deliver-Sends [] sent (b ∷ bytes) = stop sent (b ∷ bytes) [] _
deliver-Sends (stalled ∷ script) sent (b ∷ bytes) = stop sent (b ∷ bytes) script _
deliver-Sends (failed ∷ script) sent (b ∷ bytes) = stop sent (b ∷ bytes) script _
deliver-Sends (wrote zero ∷ script) sent (b ∷ bytes) = stop sent (b ∷ bytes) script _
deliver-Sends (wrote (suc n) ∷ script) sent (b ∷ bytes) =
    subst (λ x. Sends sent (b ∷ x) (deliver script (sent ++ b ∷ take n bytes) (drop n bytes)))
      (take-append-drop n bytes)
      (Sends-more sent (b ∷ take n bytes) (drop n bytes) _
        (deliver-Sends script (sent ++ b ∷ take n bytes) (drop n bytes)))

-- One send behind another.
pub after-Sends :
    (sent a b : List ℕ) (o : Outcome) (f : Wire → Outcome)
    → Sends sent a o
    → ((v : Wire) → Sends v.sent b (f v))
    → Sends sent (a ++ b) (after o f)
after-Sends sent a b (v, err e) f h k = record {
  done = h.done;
  left = h.left ++ b;
  sends = h.sends;
  parts = sym (append_assoc h.done h.left b) ∙ ap (λ (x : List ℕ). x ++ b) h.parts;
  whole = λ w. cc;
}
after-Sends sent a b (v, ok u) f h k =
    Sends-more sent a b (f v) (subst (λ x. Sends x b (f v)) (h.sends ∙ ap (◌++◌ sent) all) (k v))
  where
    all : h.done ≡ a
    all = sym (append-nil h.done) ∙ ap (◌++◌ h.done) (sym (h.whole refl)) ∙ h.parts

-- What has been sent when the result is `ok`.
pub sent_whole :
    (sent bytes : List ℕ) (o : Outcome)
    → Sends sent bytes o
    → o.1 ≡ ok tt
    → o.0.sent ≡ sent ++ bytes
sent_whole sent bytes o h e =
    h.sends
    ∙ ap (◌++◌ sent) (sym (append-nil h.done) ∙ ap (◌++◌ h.done) (sym (h.whole e)) ∙ h.parts)

pub eq-ok : (o : Outcome) → is_ok o.1 ≡ true → o.1 ≡ ok tt
eq-ok (w, ok tt) h = refl
eq-ok (w, err e) h = cc
