-- ===== src/Session/Threads.antt =====
-- Sources/Core/SessionThread.cpp, the thread that receives packets, and how the session gets them from it:
-- Sources/Host/Common/QueueChannel.cpp and receive(true) of Sources/GDBRemote/SessionBase.cpp.
use ds.Base.{
  ℕ, Bool, true, false, not, ◌&&◌, ◌≡◌, ◌≢◌, refl, Option, none, some, List, [], ◌∷◌, Bytes, ◌==◌,
  if◌then◌else◌, ◌>>=◌, length, contains, is_empty, inl, inr, Bool-cases, arith,
}
use ds.Interpreter.{Handler}
use ds.Queue.{MessageQueue, returns, waits, put, get, take_front, clear_queue}
use ds.Session.{
  Channel, CompatibilityMode, Reaction, Dispatch, dispatched, acknowledged, refused_by_peer,
  dropped, on_packet_data, on_command_received,
}

-- `data.length() == 1 && data[0] == '\x03'`
unfoldable pub is_interrupt : Bytes → Bool
is_interrupt [] = false
is_interrupt (c ∷ s) = is_empty s && c == 3

-- QueueChannel::receive of a connected channel. A message that is put during the wait of 0 ms is one
-- that was put before.
receive_queued : MessageQueue → MessageQueue × Bytes
receive_queued q = elim (get q) [
  | returns q' message ↦ (q', elim message [ none ↦ [] | some text ↦ text ])
  | waits ↦ (q, [])
]

module _ (ch : Channel) where
  open ch use {State, connected}

  -- The channel, the queue, and what the interpreter did with the packet if it got it.
  abbrev pub Served : Type 0
  Served = State × MessageQueue × Option Reaction

  -- The interpreter gets the packet at once.
  pub interpreted :
      State → CompatibilityMode → Bool → List Handler → MessageQueue → Bytes → Bool → Option Served
  interpreted s mode ackmode handlers q bytes valid = do
    (s', reaction) ← on_packet_data ch s mode ackmode handlers bytes valid
    some (s', q, some reaction)

  -- SessionThread::onPacketData
  pub on_thread_packet :
      State → CompatibilityMode → Bool → List Handler → MessageQueue → Bytes → Bool → Option Served
  unfolding interpreted
  on_thread_packet s mode ackmode handlers q bytes valid =
      let interrupted = (do
        q' ← clear_queue q false
        interpreted s mode ackmode handlers q' bytes valid) in
      if is_interrupt bytes
      then interrupted
      else if ackmode && not valid
      then interpreted s mode ackmode handlers q bytes valid
      else some (s, put q bytes, none)

  -- SessionBase::receive(true), once QueueChannel::wait has returned.
  pub receive_cooked :
      State → CompatibilityMode → Bool → List Handler → MessageQueue → Option Served
  unfolding interpreted receive_queued
  receive_cooked s mode ackmode handlers q =
      let (q', bytes) = receive_queued q in
      if not (connected s)
      then some (s, q, none)
      else if is_empty bytes
      then some (s, q', none)
      else interpreted s mode ackmode handlers q' bytes true

  -- An invalid packet gets a NAK at most.
  invalid_lem :
      (s : State) (mode : CompatibilityMode) (handlers : List Handler) (bytes : Bytes)
      → (s' : State) × (r : Reaction) × (on_packet_data ch s mode true handlers bytes false
          ≡ some (s', r))
        × ((d : Dispatch) → r ≢ dispatched d)
  unfolding on_packet_data
  invalid_lem s mode handlers bytes =
      let received = on_command_received ch s true false in
      elim (Bool-cases (length bytes == 1 && contains b'+' bytes)) [
        | inl e ↦ rw e (s, acknowledged, refl, λ d q. cc)
        | inr e ↦ elim (Bool-cases (length bytes == 1 && contains b'-' bytes)) [
          | inl f ↦ rw (e, f) (s, refused_by_peer, refl, λ d q. cc)
          | inr f ↦ rw (e, f) (received.0, dropped, ground arith, λ d q. cc)
        ]
      ]

  receive-put :
      (s : State) (mode : CompatibilityMode) (handlers : List Handler) (ended : Bool) (c : ℕ)
      (bytes : Bytes)
      → connected s ≡ true
      → receive_cooked s mode false handlers
          (put (record { messages = []; terminated = ended }) (c ∷ bytes))
        ≡ interpreted s mode false handlers
            (record { messages = []; terminated = ended })
            (c ∷ bytes)
            true
  unfolding receive_cooked put get take_front
  receive-put s mode handlers ended c bytes on = rw on refl

  -- What becomes of a packet, other than an interrupt, whose checksum is wrong. With acknowledgments the
  -- receiving thread gives it to the interpreter, which does not dispatch it, whatever it holds and whatever
  -- the table is, and the queue stays as it is. Without them it is put into the queue; if the queue was empty
  -- and the channel is connected, the session takes it from there and does with it what it does with a
  -- valid packet of the same text.
  pub on_thread_packet-invalid :
      (s : State) (mode : CompatibilityMode) (handlers : List Handler) (q : MessageQueue)
      (ended : Bool) (c : ℕ) (bytes : Bytes)
      → is_interrupt (c ∷ bytes) ≡ false
      → connected s ≡ true
      → ((s' : State) × (r : Reaction) × (on_thread_packet s mode true handlers q (c ∷ bytes) false
            ≡ some (s', q, some r))
          × ((d : Dispatch) → r ≢ dispatched d))
        × ((on_thread_packet s mode false handlers
                (record { messages = []; terminated = ended })
                (c ∷ bytes)
                false
              >>= λ step. receive_cooked step.0 mode false handlers step.1)
            ≡ interpreted s mode false handlers
                (record { messages = []; terminated = ended })
                (c ∷ bytes)
                true)
  unfolding on_thread_packet
  on_thread_packet-invalid s mode handlers q ended c bytes other on =
      let (s', r, e, n) = invalid_lem s mode handlers (c ∷ bytes) in
      (
        (s', r, rw (other, interpreted) (rw e refl), n),
        rw other (receive-put s mode handlers ended c bytes on),
      )
