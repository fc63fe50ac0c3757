-- ===== src/Queue.antt =====
-- Sources/Core/MessageQueue.cpp: the queue between the thread that receives packets and the thread
-- that runs the session. Each function holds the lock except while it waits, so that its parts before
-- and after a wait are steps of their own. A wait ends with a notification, with a timeout, or
-- spuriously.
pub mod Order
pub mod Ending
mod Examples
use ds.Base.{
  Bool, true, false, not, ◌&&◌, Option, none, some, List, [], ◌∷◌, ◌++◌, Bytes, if◌then◌else◌,
  is_empty,
}

pub record MessageQueue : Type 0 where
  pub messages : List Bytes
  pub terminated : Bool

unfoldable pub new_queue : MessageQueue
new_queue = record { messages = []; terminated = false }

unfoldable pub put : MessageQueue → Bytes → MessageQueue
put q message = record q { messages = q.messages ++ message ∷ [] }

-- The message at the front, if there is one, and else an empty one. What `get` does once a wait has
-- ended other than by a timeout.
unfoldable pub take_front : MessageQueue → MessageQueue × Option Bytes
take_front q = elim q.messages [
  | [] ↦ (q, none)
  | message ∷ rest ↦ (record q { messages = rest }, some message)
]

-- What `get` does before it may wait: it returns, or it waits. The empty string that it returns
-- without a message is `none`.
pub data Attempt : Type 0 where
  returns : MessageQueue → Option Bytes → Attempt
  waits : Attempt

unfoldable pub get : MessageQueue → Attempt
unfolding take_front
get q =
    let (q', message) = take_front q in
    if not (is_empty q.messages)
    then returns q' message
    else if q.terminated
    then returns q none
    else waits

-- What `wait` says at once, or `none` if it waits.
unfoldable pub wait : MessageQueue → Option Bool
wait q = if not (is_empty q.messages) then some true else if q.terminated then some false else none

-- What `wait` says after it waited: with no limit, whether there is a message, and else whether the
-- wait ended in time.
wait_ended : MessageQueue → Bool → Bool → Bool
wait_ended q limited timed_out = if not limited then not (is_empty q.messages) else not timed_out

-- `none` is a failed assertion: the queue was terminated before.
unfoldable pub clear_queue : MessageQueue → Bool → Option MessageQueue
clear_queue q terminating =
    if not terminating
    then some (record q { messages = [] })
    else if q.terminated
    then none
    else some (record { messages = []; terminated = true })
