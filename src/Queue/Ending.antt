-- ===== src/Queue/Ending.antt =====
-- Sources/Core/MessageQueue.cpp: the threads once clear(true) has ended the queue.
use mathlib.Core.Path.{subst}
use ds.Base.{
  ℕ, ◌≤◌, ◌≡◌, refl, ◌∙◌, sym, Bool, true, false, Option, some, List, [], ◌∷◌, Bytes, arith,
}
use ds.Queue.{MessageQueue, put, take_front, Attempt, returns, waits, get, clear_queue}
use ds.Queue.Order.{
  World, Step, puts, gets, starts_waiting, wakes, times_out, clears, Reaches, here, then_step,
}

-- The call returns at once.
abbrev pub IsReturned : Attempt → Type 0
IsReturned (returns q message) = Unit {0}
IsReturned waits = ⊥

-- The queue is ended, and no more calls wait than did.
abbrev IsEnded : ℕ → World → Type 0
IsEnded n w = (w.queue.terminated ≡ true) × (w.waiting ≤ n)

take_front-terminated :
    (ms : List Bytes) (t : Bool)
    → (take_front (record { messages = ms; terminated = t })).0.terminated ≡ t
unfolding take_front
take_front-terminated [] t = refl
take_front-terminated (m ∷ ms) t = refl

get-terminated :
    (ms : List Bytes) (t : Bool) (q : MessageQueue) (message : Option Bytes)
    → get (record { messages = ms; terminated = t }) ≡ returns q message
    → q.terminated ≡ t
unfolding get take_front
get-terminated [] true q message e =
    let same : q ≡ record { messages = []; terminated = true } = cc in rw same refl
get-terminated [] false q message e = cc
get-terminated (m ∷ ms) t q message e =
    let same : q ≡ record { messages = ms; terminated = t } = cc in rw same refl

get-IsReturned : (ms : List Bytes) → IsReturned (get (record { messages = ms; terminated = true }))
unfolding get take_front
get-IsReturned [] = tt
get-IsReturned (m ∷ ms) = tt

get-IsReturned_of : (q : MessageQueue) → q.terminated ≡ true → IsReturned (get q)
get-IsReturned_of q h =
    subst (λ t. IsReturned (get (record { messages = q.messages; terminated = t }))) (sym h)
      (get-IsReturned q.messages)

clear_queue-terminated :
    (ms : List Bytes) (t : Bool) (q : MessageQueue) (terminating : Bool)
    → clear_queue (record { messages = ms; terminated = t }) terminating ≡ some q
    → t ≡ true
    → q.terminated ≡ true
unfolding clear_queue
clear_queue-terminated ms true q true e h = cc
clear_queue-terminated ms true q false e h =
    let same : q ≡ record { messages = []; terminated = true } = cc in rw same refl
clear_queue-terminated ms false q terminating e h = cc

Step-IsEnded : (n : ℕ) (w w' : World) → Step w w' → IsEnded n w → IsEnded n w'
unfolding put
Step-IsEnded n _ _ (puts w s) h = h
Step-IsEnded n _ _ (gets w q o e) (t, k) =
    (get-terminated w.queue.messages w.queue.terminated q o e ∙ t, k)
Step-IsEnded n _ _ (starts_waiting w e) (t, k) =
    absurd (subst IsReturned e (get-IsReturned_of w.queue t))
Step-IsEnded n _ _ (wakes w m e) (t, k) =
    (take_front-terminated w.queue.messages w.queue.terminated ∙ t, omega arith)
Step-IsEnded n _ _ (times_out w m e) (t, k) = (t, omega arith)
Step-IsEnded n _ _ (clears w terminating q e) (t, k) =
    (clear_queue-terminated w.queue.messages w.queue.terminated q terminating e t, k)

-- Once clear(true) has ended the queue, then whatever the threads do, every call of get returns at
-- once, with no wait, and the number of calls that still wait never grows.
pub Reaches-IsReturned :
    (v w : World)
    → v.queue.terminated ≡ true
    → Reaches v w
    → IsReturned (get w.queue) × (w.waiting ≤ v.waiting)
Reaches-IsReturned v w t r =
    let (ended, fewer) = reach v.waiting v w r (t, omega arith) in
    (get-IsReturned_of w.queue ended, fewer)
  where
    reach : (n : ℕ) (v w : World) → Reaches v w → IsEnded n v → IsEnded n w
    reach n _ _ (here w) h = h
    reach n _ _ (then_step v u w r s) h = Step-IsEnded n u w s (reach n v u r h)
