-- ===== src/Handlers/Xfer/Speed.antt =====
-- qSpeedTest of Sources/GDBRemote/Session.cpp: the loop that fills the reply.
use ds.Base.{
  ℕ, zero, suc, ◌+◌, ◌-◌, ◌%◌, ◌^◌, ◌≤◌, ◌<◌, ◌≡◌, refl, ◌∙◌, inl, inr, false, none, some,
  if◌then◌else◌, [], ◌∷◌, ◌++◌, Bytes, codes, ltb, ltb→lt, Bool-cases, ==_ne, length, take,
  length-append, arith,
}
use ds.Handlers.World.{Delegate, World, payload, push}
use ds.Handlers.Xfer.{fill, filler, speed_reply}

not_ltb : (a b : ℕ) → ltb a b ≡ false → b ≤ a
not_ltb a b h = ground arith

length-take_le : (n : ℕ) (s : Bytes) → n ≤ length s → length (take n s) ≡ n
length-take_le zero s h = refl
length-take_le (suc n) [] h = absurd (omega arith)
length-take_le (suc n) (c ∷ s) h = omega (arith, length-take_le n s (omega arith))

length-take_ge : (n : ℕ) (s : Bytes) → length s ≤ n → length (take n s) ≡ length s
length-take_ge zero [] h = refl
length-take_ge (suc n) [] h = refl
length-take_ge zero (c ∷ s) h = absurd (omega arith)
length-take_ge (suc n) (c ∷ s) h = omega (arith, length-take_ge n s (omega arith))

-- A round adds a character at least, and never goes too far.
round_grows :
    (total : ℕ) (text : Bytes)
    → length text < total
    → (length text < length (text ++ take (total - length text) filler))
      × (length (text ++ take (total - length text) filler) ≤ total)
round_grows total text h = elim (Bool-cases (ltb 36 (total - length text))) [
  | inl long ↦ omega (
    arith,
    ltb→lt 36 (total - length text) long,
    length-append text (take (total - length text) filler),
    length-take_ge (total - length text) filler
        (omega (arith, ltb→lt 36 (total - length text) long)),
  )
  | inr short ↦ omega (
    arith,
    not_ltb 36 (total - length text) short,
    length-append text (take (total - length text) filler),
    length-take_le (total - length text) filler
        (omega (arith, not_ltb 36 (total - length text) short)),
  )
]

length-fill :
    (fuel total : ℕ) (text : Bytes)
    → length text ≤ total
    → total - length text < fuel
    → length (fill fuel total text) ≡ total
unfolding fill
length-fill zero total text h enough = absurd (omega arith)
length-fill (suc fuel) total text h enough = elim (Bool-cases (ltb (length text) total)) [
  | inl more ↦
      let (grows, within) = round_grows total text (ltb→lt _ _ more) in
      rw more
        (length-fill fuel total (text ++ take (total - length text) filler) within (omega arith))
  | inr done ↦ rw done (omega (arith, not_ltb (length text) total done))
]

length-fill_done :
    (fuel total : ℕ) (text : Bytes)
    → total ≤ length text
    → length (fill fuel total text) ≡ length text
unfolding fill
length-fill_done zero total text h = refl
length-fill_done (suc fuel) total text h = ground arith

-- What size_t makes of the length: a sum that overflows is below the five characters of `data:`.
length-total :
    (size : ℕ)
    → size < 2 ^ 64
    → length (fill (size + 1) ((5 + size) % 2 ^ 64) (codes "data:"))
      ≡ (if ltb (5 + size) (2 ^ 64) then 5 + size else 5)
length-total size h = elim (Bool-cases (ltb (5 + size) (2 ^ 64))) [
  | inl fits ↦
      let below = ltb→lt (5 + size) (2 ^ 64) fits in
      rw fits (
        length-fill (size + 1) ((5 + size) % 2 ^ 64) (codes "data:") (omega arith) (omega arith)
        ∙ omega arith)
  | inr over ↦
      let above = not_ltb (5 + size) (2 ^ 64) over in
      rw over (length-fill_done (size + 1) ((5 + size) % 2 ^ 64) (codes "data:") (omega arith))
]

module _ (d : Delegate) where
  -- For every size that a uint64_t holds and that is not 0, qSpeedTest ends in one of two ways, as reserve can
  -- or cannot get the memory: one reply is sent, whose length is five more than the size, or five if this
  -- sum overflows a size_t; or the exception leaves the handler and nothing is sent.
  pub length-speed_reply :
      (size : ℕ) (w : World d)
      → 0 < size
      → size < 2 ^ 64
      → (text : Bytes) × (speed_reply d size w ≡ (
          if d.reserves ((5 + size) % 2 ^ 64)
          then some (record w { sent = w.sent ++ payload text ∷ [] })
          else none))
        × (length text ≡ (if ltb (5 + size) (2 ^ 64) then 5 + size else 5))
  unfolding speed_reply push
  length-speed_reply size w some_size fits = (
    fill (size + 1) ((5 + size) % 2 ^ 64) (codes "data:"),
    rw (==_ne size 0 (λ e. omega arith)) refl,
    length-total size fits,
  )
