-- ===== src/Runloop/Fifo.antt =====
-- The events are handled in the order in which they were sent, none twice, and a runloop that is told to
-- stop does.
use pinenut.Prelude.{
  ◌≡◌, refl, sym, ap, subst, ◌∙◌, List, [], ◌∷◌, ◌++◌, append_assoc, true, false, Bool-cases, inl,
  inr, All, some, ok,
}
use pinenut.Runloop.{Runloop, Handle, run, send, receive, after_event}

module _ {H Event : Type 0} (handle : Handle H Event) where
  -- What can have happened: `sent` are the events sent, `done` those handled.
  pub data Reach (start : H) : List Event → List Event → Runloop H Event → Type 0 where
    begins : Reach start [] [] (run handle start)
    sends :
        {sent done : List Event} {l l' : Runloop H Event} (e : Event)
        → Reach start sent done l
        → send handle e l ≡ (ok tt, l')
        → Reach start (sent ++ (e ∷ [])) done l'
    receives :
        {sent done : List Event} {l l' : Runloop H Event} (e : Event) (events : List Event)
        → Reach start sent done l
        → l.queue ≡ e ∷ events
        → receive handle l ≡ some l'
        → Reach start sent (done ++ (e ∷ [])) l'

  -- The handler as one that is given the events one after the other.
  abbrev pub handle_all : List Event → H → H
  handle_all [] h = h
  handle_all (e ∷ events) h = handle_all events (handle e h).0

  handle_all-append :
      (xs ys : List Event) (h : H) → handle_all (xs ++ ys) h ≡ handle_all ys (handle_all xs h)
  handle_all-append [] ys h = refl
  handle_all-append (x ∷ xs) ys h = handle_all-append xs ys (handle x h).0

  pub record Fifo (start : H) (sent done : List Event) (l : Runloop H Event) : Type 0 where
    pub in_order : sent ≡ done ++ l.queue
    pub handler : l.handler ≡ handle_all done start

  send-ok :
      (e : Event) (l l' : Runloop H Event)
      → send handle e l ≡ (ok tt, l')
      → (l'.queue ≡ l.queue ++ (e ∷ [])) × (l'.handler ≡ l.handler)
  unfolding send
  send-ok e l l' step = elim (Bool-cases l.is_stopped) [
    | inl ended ↦ absurd (cc (rw ended at step))
    | inr going ↦
        let same : record l { queue = l.queue ++ (e ∷ []) } ≡ l' = cc (rw going at step) in
        (ap (λ k. k.queue) (sym same), ap (λ k. k.handler) (sym same))
  ]

  receive-some :
      (e : Event) (events : List Event) (l l' : Runloop H Event)
      → l.queue ≡ e ∷ events
      → receive handle l ≡ some l'
      → (l'.queue ≡ events) × (l'.handler ≡ (handle e l.handler).0)
  unfolding receive
  receive-some e events l l' front step = elim (Bool-cases l.is_stopped) [
    | inl ended ↦ absurd (cc (rw ended at step))
    | inr going ↦
        let same : after_event handle (handle e l.handler) events ≡ l' =
          cc (rw (going, front) at step) in
        (ap (λ k. k.queue) (sym same), ap (λ k. k.handler) (sym same))
  ]

  -- Whatever the interleaving of the sender and the thread, the events handled are the first of those
  -- sent and the queue the others, in order, none lost and none twice, and the handler is what these
  -- events make of the one at the start.
  pub Reach-Fifo :
      (start : H) {sent done : List Event} {l : Runloop H Event}
      → Reach start sent done l
      → Fifo start sent done l
  unfolding run send receive
  Reach-Fifo start begins = record { in_order = refl; handler = refl }
  Reach-Fifo start (sends {sent} {done} {l} {l'} e r step) =
      let before = Reach-Fifo start r in
      let (queue, same) = send-ok e l l' step in
      record {
        in_order =
            ap (λ t. t ++ (e ∷ [])) before.in_order
            ∙ append_assoc done l.queue (e ∷ [])
            ∙ ap (λ q. done ++ q) (sym queue);
        handler = same ∙ before.handler;
      }
  Reach-Fifo start (receives {sent} {done} {l} {l'} e events r front step) =
      let before = Reach-Fifo start r in
      let (queue, after) = receive-some e events l l' front step in
      record {
        in_order =
            before.in_order
            ∙ ap (λ q. done ++ q) front
            ∙ sym (append_assoc done (e ∷ []) events)
            ∙ ap (λ q. (done ++ (e ∷ [])) ++ q) (sym queue);
        handler =
            after
            ∙ ap (λ h. (handle e h).0) before.handler
            ∙ sym (handle_all-append done (e ∷ []) start);
      }

  -- A runloop that runs on until it has stopped: what was handled by then.
  pub record Stops (start : H) (sent done : List Event) : Type 0 where
    pub after : Runloop H Event
    pub reach : Reach start sent done after
    pub stopped : after.is_stopped ≡ true

  -- If an event that always stops the runloop is in the queue, behind some that never do, then the
  -- thread, with nothing sent meanwhile, handles those and this event in order and stops.
  pub receive-Stops :
      (start : H) (before after : List Event) (stop : Event) {sent done : List Event}
      (l : Runloop H Event)
      → Reach start sent done l
      → l.is_stopped ≡ false
      → l.queue ≡ before ++ (stop ∷ after)
      → All (λ e. (h : H) → (handle e h).1 ≡ false) before
      → ((h : H) → (handle stop h).1 ≡ true)
      → Stops start sent (done ++ (before ++ (stop ∷ [])))
  unfolding receive
  receive-Stops start [] after stop {sent} {done} l r going queue never always = record {
    after = after_event handle (handle stop l.handler) after;
    reach = receives stop after r queue (rw (going, queue) refl);
    stopped = always l.handler;
  }
  receive-Stops start (e ∷ before) after stop {sent} {done} l r going queue never always =
      let next = after_event handle (handle e l.handler) (before ++ (stop ∷ after)) in
      let step = receives e (before ++ (stop ∷ after)) r queue (rw (going, queue) refl) in
      subst (Stops start sent) (append_assoc done (e ∷ []) (before ++ (stop ∷ [])))
        (receive-Stops start before after stop next step (never.0 l.handler) refl never.1 always)
