-- ===== src/Logger/Io/Shutdown.antt =====
-- The thread that writes files ends when the logger is shut down, and not before the events sent.
use pinenut.Prelude.{ℕ, ◌≡◌, ◌≢◌, refl, List, [], ◌∷◌, ◌++◌, true, false, All}
use pinenut.Chrono.{Chrono}
use pinenut.Runloop.{Runloop}
use pinenut.Runloop.Fifo.{Reach, Stops, receive-Stops}
use pinenut.Logfile.Files.{FileSystem}
use pinenut.TimeDimension.{TimeDimension}
use pinenut.Logger.{IoEvent, write_chunk, trim, shutdown}
use pinenut.Logger.Io.{Io, handle}

module _ (c : Chrono) {F D : Type 0} (fs : FileSystem F D) (identifier : List ℕ)
    (rotation : TimeDimension) (now : c.DateTime) where
  handle-goes_on :
      (e : IoEvent)
      → e ≢ shutdown
      → (st : Io c F D × List ℕ) → (handle c fs identifier rotation now e st).1 ≡ false
  unfolding handle
  handle-goes_on write_chunk e st = refl
  handle-goes_on (trim lifetime) e st = refl
  handle-goes_on shutdown e st = absurd (e refl)

  handle-stops :
      (st : Io c F D × List ℕ) → (handle c fs identifier rotation now shutdown st).1 ≡ true
  unfolding handle
  handle-stops st = refl

  handle-goes_on_each :
      (events : List IoEvent)
      → All (λ e. e ≢ shutdown) events
      → All
          (λ e. (st : Io c F D × List ℕ) → (handle c fs identifier rotation now e st).1 ≡ false)
          events
  handle-goes_on_each [] h = tt
  handle-goes_on_each (e ∷ events) h = (handle-goes_on e h.0, handle-goes_on_each events h.1)

  -- Once the shutdown is sent, the thread that writes files, with nothing sent meanwhile, handles every
  -- event that was sent before it, in order, whatever the disk does, and ends. It runs, and no other
  -- shutdown is in its queue before that one.
  pub shutdown-Stops :
      (start : Io c F D × List ℕ) (before after : List IoEvent) {sent done : List IoEvent}
      (l : Runloop (Io c F D × List ℕ) IoEvent)
      → Reach (handle c fs identifier rotation now) start sent done l
      → l.is_stopped ≡ false
      → l.queue ≡ before ++ (shutdown ∷ after)
      → All (λ e. e ≢ shutdown) before
      → Stops (handle c fs identifier rotation now) start sent (done ++ (before ++ (shutdown ∷ [])))
  shutdown-Stops start before after l reach going queue none =
      receive-Stops (handle c fs identifier rotation now) start before after shutdown l reach going
        queue (handle-goes_on_each before none) handle-stops
