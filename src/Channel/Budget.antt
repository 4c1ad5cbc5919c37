-- ===== src/Channel/Budget.antt =====
-- The budgets of the listener hold (channel.rs, limits.rs).
use sandbox_driver.Base.{ℕ, Bool, List, [], ◌∷◌}
use sandbox_driver.Error.{Result}
use sandbox_driver.Channel.{
  ChannelListener, Connection, Json, TrustedPeer, expect, arrive, claim, deliver, drop_receiver,
  accept, drop_reader, drop_writer, io_permit, drop_permit, stop_accepting,
}
use sandbox_driver.Channel.Permits.{IsBudgeted}
use sandbox_driver.Channel.Keeps.{
  expect-IsBudgeted, arrive-IsBudgeted, claim-IsBudgeted, deliver-IsBudgeted, accept-IsBudgeted,
  drop_receiver-IsBudgeted, drop_reader-IsBudgeted, drop_writer-IsBudgeted, io_permit-IsBudgeted,
  drop_permit-IsBudgeted, stop_accepting-IsBudgeted,
}

-- What happens to a listener, one step at a time.
pub data Event : Type 0 where
  expects : ℕ → List ℕ → Event
  arrives : Event
  claims : Connection → Event
  delivers : ℕ → Result {0} Unit → ℕ → Event
  accepts : ℕ → Bool → Event
  drops_receiver drops_reader drops_writer lends drops_permit : ℕ → Event
  stops : Event

module _ (json : Json) (peer : TrustedPeer) where
  unfoldable pub happen : Event → ChannelListener → ChannelListener
  happen (expects now token) l = (expect l now token).1
  happen arrives l = (arrive l).1
  happen (claims c) l = (claim json peer l c).1
  happen (delivers id acknowledged now) l = (deliver l id acknowledged now).1
  happen (accepts id timed_out) l = (accept l id timed_out).1
  happen (drops_receiver id) l = drop_receiver l id
  happen (drops_reader id) l = drop_reader l id
  happen (drops_writer id) l = drop_writer l id
  happen (lends id) l = io_permit l id
  happen (drops_permit id) l = drop_permit l id
  happen stops l = stop_accepting l

  unfoldable pub happen_all : List Event → ChannelListener → ChannelListener
  happen_all [] l = l
  happen_all (e ∷ es) l = happen_all es (happen e l)

  happen-IsBudgeted : (e : Event) (l : ChannelListener) → IsBudgeted l → IsBudgeted (happen e l)
  unfolding happen
  happen-IsBudgeted (expects now token) l h = expect-IsBudgeted l now token h
  happen-IsBudgeted arrives l h = arrive-IsBudgeted l h
  happen-IsBudgeted (claims c) l h = claim-IsBudgeted json peer l c h
  happen-IsBudgeted (delivers id acknowledged now) l h = deliver-IsBudgeted l id acknowledged now h
  happen-IsBudgeted (accepts id timed_out) l h = accept-IsBudgeted l id timed_out h
  happen-IsBudgeted (drops_receiver id) l h = drop_receiver-IsBudgeted l id h
  happen-IsBudgeted (drops_reader id) l h = drop_reader-IsBudgeted l id h
  happen-IsBudgeted (drops_writer id) l h = drop_writer-IsBudgeted l id h
  happen-IsBudgeted (lends id) l h = io_permit-IsBudgeted l id h
  happen-IsBudgeted (drops_permit id) l h = drop_permit-IsBudgeted l id h
  happen-IsBudgeted stops l h = stop_accepting-IsBudgeted l h

  -- Whatever happens to a listener, in any order, no budget is overdrawn: the channels that hold an
  -- I/O permit, the opens that are pending or being admitted, and the handshakes.
  pub happen_all-IsBudgeted :
      (es : List Event) (l : ChannelListener) → IsBudgeted l → IsBudgeted (happen_all es l)
  unfolding happen_all
  happen_all-IsBudgeted [] l h = h
  happen_all-IsBudgeted (e ∷ es) l h =
      happen_all-IsBudgeted es (happen e l) (happen-IsBudgeted e l h)
