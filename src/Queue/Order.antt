-- ===== src/Queue/Order.antt =====
-- Any interleaving of threads that put, get and clear; `wait` changes nothing.
use ds.Base.{
  ℕ, suc, ◌≡◌, refl, sym, ap, ◌∙◌, Bool, true, false, Option, none, some, List, [], ◌∷◌, ◌++◌,
  append_assoc, Bytes, map,
}
use ds.Queue.{MessageQueue, new_queue, put, take_front, returns, waits, get, clear_queue}

-- How a message leaves the queue.
pub data Exit : Type 0 where
  delivered cleared : Bytes → Exit

abbrev pub message_of : Exit → Bytes
message_of (delivered s) = s
message_of (cleared s) = s

-- The queue, the number of calls of `get` that wait, and what was put in and what left so far.
pub record World : Type 0 where
  pub queue : MessageQueue
  pub waiting : ℕ
  pub sent : List Bytes
  pub left : List Exit

abbrev pub delivery : Option Bytes → List Exit
delivery none = []
delivery (some s) = delivered s ∷ []

-- One step of one thread.
pub data Step : World → World → Type 0 where
  puts :
      (w : World) (s : Bytes) → Step w (record w { queue = put w.queue s; sent = w.sent ++ s ∷ [] })
  gets :
      (w : World) (q : MessageQueue) (o : Option Bytes)
      → get w.queue ≡ returns q o
      → Step w (record w { queue = q; left = w.left ++ delivery o })
  starts_waiting : (w : World) → get w.queue ≡ waits → Step w (record w { waiting = suc w.waiting })
  wakes :
      (w : World) (n : ℕ)
      → w.waiting ≡ suc n
      → Step w (record w {
        queue = (take_front w.queue).0;
        waiting = n;
        left = w.left ++ delivery (take_front w.queue).1;
      })
  times_out : (w : World) (n : ℕ) → w.waiting ≡ suc n → Step w (record w { waiting = n })
  clears :
      (w : World) (terminating : Bool) (q : MessageQueue)
      → clear_queue w.queue terminating ≡ some q
      → Step w (record w {
        queue = q;
        left = w.left ++ map {A = Bytes} {B = Exit} cleared w.queue.messages;
      })

pub data Reaches : World → World → Type 0 where
  here : (w : World) → Reaches w w
  then_step : (w w' w'' : World) → Reaches w w' → Step w' w'' → Reaches w w''

abbrev pub started : World
started = record { queue = new_queue; waiting = 0; sent = []; left = [] }

-- Everything that was put in has left, in the order in which it came, or is in the queue.
abbrev pub IsOrderly : World → Type 0
IsOrderly w = w.sent ≡ map message_of w.left ++ w.queue.messages

map-append : (f : Exit → Bytes) (xs ys : List Exit) → map f (xs ++ ys) ≡ map f xs ++ map f ys
map-append f [] ys = refl
map-append f (x ∷ xs) ys = ap (λ t. f x ∷ t) (map-append f xs ys)

taken :
    (q : MessageQueue)
    → map message_of (delivery (take_front q).1) ++ (take_front q).0.messages ≡ q.messages
unfolding take_front
taken q = by_messages q.messages q.terminated
  where
    by_messages :
        (ms : List Bytes) (t : Bool)
        → map message_of (delivery (take_front (record { messages = ms; terminated = t })).1)
            ++ (take_front (record { messages = ms; terminated = t })).0.messages
          ≡ ms
    by_messages [] t = refl
    by_messages (m ∷ ms) t = refl

get_taken :
    (ms : List Bytes) (t : Bool) (q : MessageQueue) (o : Option Bytes)
    → get (record { messages = ms; terminated = t }) ≡ returns q o
    → map message_of (delivery o) ++ q.messages ≡ ms
unfolding get take_front
get_taken [] true q o e =
    let same : q ≡ record { messages = []; terminated = true } = cc in
    let empty : o ≡ none = cc in rw (same, empty) refl
get_taken [] false q o e = cc
get_taken (m ∷ ms) t q o e =
    let same : q ≡ record { messages = ms; terminated = t } = cc in
    let front : o ≡ some m = cc in rw (same, front) refl

left_more :
    (sent : List Bytes) (left more : List Exit) (before after : List Bytes)
    → sent ≡ map message_of left ++ before
    → map message_of more ++ after ≡ before
    → sent ≡ map message_of (left ++ more) ++ after
left_more sent left more before after h e =
    h
    ∙ rw
        (
          sym e,
          map-append message_of left more,
          append_assoc (map message_of left) (map message_of more) after,
        )
        refl

cleared_all : (ms : List Bytes) → map message_of (map {A = Bytes} {B = Exit} cleared ms) ++ [] ≡ ms
cleared_all [] = refl
cleared_all (m ∷ ms) = ap (λ t. m ∷ t) (cleared_all ms)

cleared_empty :
    (ms : List Bytes) (t terminating : Bool) (q : MessageQueue)
    → clear_queue (record { messages = ms; terminated = t }) terminating ≡ some q
    → q.messages ≡ []
unfolding clear_queue
cleared_empty ms t false q e =
    let same : record { messages = []; terminated = t } ≡ q = cc in rw (sym same) refl
cleared_empty ms false true q e =
    let same : record { messages = []; terminated = true } ≡ q = cc in rw (sym same) refl
cleared_empty ms true true q e = cc

Step-IsOrderly : (w w' : World) → Step w w' → IsOrderly w → IsOrderly w'
unfolding put
Step-IsOrderly _ _ (puts w s) h =
    rw h (append_assoc (map message_of w.left) w.queue.messages (s ∷ []))
Step-IsOrderly _ _ (gets w q o e) h =
    left_more w.sent w.left (delivery o) w.queue.messages q.messages h
      (get_taken w.queue.messages w.queue.terminated q o e)
Step-IsOrderly _ _ (starts_waiting w e) h = h
Step-IsOrderly _ _ (wakes w n e) h =
    left_more w.sent w.left (delivery (take_front w.queue).1) w.queue.messages
      (take_front w.queue).0.messages h (taken w.queue)
Step-IsOrderly _ _ (times_out w n e) h = h
Step-IsOrderly _ _ (clears w terminating q e) h =
    left_more w.sent w.left (map cleared w.queue.messages) w.queue.messages q.messages h (
      rw (cleared_empty w.queue.messages w.queue.terminated terminating q e)
        (cleared_all w.queue.messages))

-- In any interleaving of threads that put, get and clear, with notifications, timeouts and
-- spurious wakeups at any time, the messages that were put into a new queue are those that left it,
-- in this order, followed by those that it still holds: none is lost, doubled or overtaken.
pub Reaches-IsOrderly : (w : World) → Reaches started w → IsOrderly w
unfolding new_queue
Reaches-IsOrderly w r = reach started w r refl
  where
    reach : (v w : World) → Reaches v w → IsOrderly v → IsOrderly w
    reach _ _ (here w) h = h
    reach _ _ (then_step v u w r s) h = Step-IsOrderly u w s (reach v u r h)
