-- ===== src/Runloop.antt =====
-- pinenut/src/runloop.rs: a queue of events and the thread that handles them in order. A step is one
-- event sent by the owner, or one taken by the thread.
pub mod Fifo
use pinenut.Prelude.{
  List, [], ◌∷◌, ◌++◌, Bool, true, false, if◌then◌else◌, Option, none, some, Result, ok, err,
}

-- The error of an event sent to a runloop that has stopped.
pub data SendError : Type 0 where
  stopped : SendError

-- The channel, the thread's `Context` and its handler.
pub record Runloop (H Event : Type 0) : Type 0 where
  pub queue : List Event
  pub is_stopped : Bool
  pub handler : H

-- `Handle::handle`: the handler after an event, and whether it stops the runloop.
abbrev pub Handle : Type 0 → Type 0 → Type 0
Handle H Event = Event → H → H × Bool

module _ {H Event : Type 0} (handle : Handle H Event) where
  -- `Runloop::run`
  unfoldable pub run : H → Runloop H Event
  run handler = record { queue = []; is_stopped = false; handler = handler }

  -- `Runloop::on`
  unfoldable pub send : Event → Runloop H Event → Result SendError (Unit {0}) × Runloop H Event
  send e l =
      if l.is_stopped then (err stopped, l) else (ok tt, record l { queue = l.queue ++ (e ∷ []) })

  abbrev pub after_event : H × Bool → List Event → Runloop H Event
  after_event (handler, is_stopped) events = record {
    queue = events;
    is_stopped = is_stopped;
    handler = handler;
  }

  abbrev pub take_event : H → List Event → Option (Runloop H Event)
  take_event handler [] = none
  take_event handler (e ∷ events) = some (after_event (handle e handler) events)

  -- A round of the thread: `none` when it has ended or waits for an event.
  unfoldable pub receive : Runloop H Event → Option (Runloop H Event)
  receive l = if l.is_stopped then none else take_event l.handler l.queue
