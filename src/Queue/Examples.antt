-- ===== src/Queue/Examples.antt =====
-- A reader waits, is woken by a message, and the queue is cleared with a second message in it.
use ds.Base.{◌≤◌, refl, true, [], ◌∷◌, codes}
use ds.Queue.{new_queue, put, take_front, get, clear_queue}
use ds.Queue.Ending.{IsReturned, Reaches-IsReturned}
use ds.Queue.Order.{
  World, delivered, cleared, Reaches, here, then_step, starts_waiting, puts, wakes, clears, started,
  IsOrderly, Reaches-IsOrderly,
}

abbrev reading : World
reading = record started { waiting = 1 }

abbrev offered : World
offered = record reading { queue = put reading.queue (codes "a"); sent = codes "a" ∷ [] }

abbrev woken : World
woken = record offered {
  queue = (take_front offered.queue).0;
  waiting = 0;
  left = delivered (codes "a") ∷ [];
}

abbrev refilled : World
refilled = record woken { queue = put woken.queue (codes "b"); sent = codes "a" ∷ codes "b" ∷ [] }

abbrev closed : World
closed = record refilled {
  queue = record { messages = []; terminated = true };
  left = delivered (codes "a") ∷ cleared (codes "b") ∷ [];
}

closed-reached : Reaches started closed
unfolding get take_front put new_queue clear_queue
closed-reached =
    then_step started refilled closed
      (then_step started woken refilled
        (then_step started offered woken
          (then_step started reading offered
            (then_step started started reading (here started) (starts_waiting started refl))
            (puts reading (codes "a")))
          (wakes offered 0 refl))
        (puts woken (codes "b")))
      (clears refilled true (record { messages = []; terminated = true }) refl)

Reaches-IsOrderly_example : IsOrderly closed
Reaches-IsOrderly_example = Reaches-IsOrderly closed closed-reached

-- A message that comes after the end.
abbrev late : World
late = record closed {
  queue = put closed.queue (codes "c");
  sent = codes "a" ∷ codes "b" ∷ codes "c" ∷ [];
}

Reaches-IsReturned_example : IsReturned (get late.queue) × (late.waiting ≤ closed.waiting)
unfolding put
Reaches-IsReturned_example =
    Reaches-IsReturned closed late refl
      (then_step closed closed late (here closed) (puts closed (codes "c")))
