-- ===== src/Handlers/Xfer/Download.antt =====
-- qXfer reads of Sources/GDBRemote/Session.cpp, and the slices of an object that
-- DebugSessionImplBase::onXferRead of Sources/GDBRemote/DebugSessionImpl.cpp answers with.
use ds.Base.{
  ℕ, zero, suc, ◌+◌, ◌-◌, ◌^◌, ◌≤◌, ◌<◌, ◌≡◌, refl, sym, ap, ◌∙◌, inl, inr, Bool, true, false,
  Option, none, some, List, [], ◌∷◌, ◌++◌, Bytes, ◌==◌, leb, leb→le, if◌then◌else◌, ◌>>=◌,
  Bool-cases, length, take, drop, arith, Lacks, is_empty, length-drop,
}
use ds.Errors.{success}
use ds.Handlers.Calls.{on_xfer_read}
use ds.Handlers.World.{Delegate, World, Sent, payload, escaped_payload, failure, push, send}
use ds.Handlers.Memory.{or_invalid}
use ds.Handlers.Memory.Cycle.{chk_send-success}
use ds.Handlers.Xfer.{read_reply, transfer, handle_q_xfer}
use ds.Handlers.Xfer.Objects.{read_text, parse_transfer-read_text}

-- `buffer = whole.substr(offset)`, cut to the length, with `last` if all of it is there; an offset behind the
-- end is std::out_of_range.
unfoldable pub slice : Bytes → ℕ → ℕ → Option (Bytes × Bool)
slice whole offset size =
    if leb offset (length whole)
    then some (take size (drop offset whole), leb (length (drop offset whole)) size)
    else none

-- The text of the last reply.
unfoldable pub last_text : List Sent → Option Bytes
last_text [] = none
last_text (payload text ∷ []) = some text
last_text (escaped_payload text ∷ []) = none
last_text (failure code ∷ []) = none
last_text (r ∷ s ∷ rest) = last_text (s ∷ rest)

last_text-append :
    (sent : List Sent) (text : Bytes) → last_text (sent ++ payload text ∷ []) ≡ some text
unfolding last_text
last_text-append [] text = refl
last_text-append (r ∷ []) text = refl
last_text-append (r ∷ s ∷ rest) text = last_text-append (s ∷ rest) text

take_all : (n : ℕ) (s : Bytes) → length s ≤ n → take n s ≡ s
take_all zero [] h = refl
take_all (suc n) [] h = refl
take_all zero (c ∷ s) h = absurd (omega arith)
take_all (suc n) (c ∷ s) h = ap (λ t. c ∷ t) (take_all n s (omega arith))

length-take : (n : ℕ) (s : Bytes) → n ≤ length s → length (take n s) ≡ n
length-take zero s h = refl
length-take (suc n) [] h = absurd (omega arith)
length-take (suc n) (c ∷ s) h = omega (arith, length-take n s (omega arith))

take-drop : (n : ℕ) (s : Bytes) → take n s ++ drop n s ≡ s
take-drop zero s = refl
take-drop (suc n) [] = refl
take-drop (suc n) (c ∷ s) = ap (λ t. c ∷ t) (take-drop n s)

abbrev no_bytes : Bytes
no_bytes = []

drop_nil : (n : ℕ) → drop n no_bytes ≡ no_bytes
drop_nil zero = refl
drop_nil (suc n) = refl

drop-drop : (m n : ℕ) (s : Bytes) → drop m (drop n s) ≡ drop (n + m) s
drop-drop m zero s = let e : m ≡ 0 + m = omega arith in ap (λ k. drop k s) e
drop-drop m (suc n) [] = drop_nil m ∙ sym (drop_nil (suc n + m))
drop-drop m (suc n) (c ∷ s) =
    let e : suc (n + m) ≡ suc n + m = omega arith in drop-drop m n s ∙ ap (λ k. drop k (c ∷ s)) e

not_leb : (a b : ℕ) → leb a b ≡ false → b < a
not_leb a b h = ground arith

-- What a debugger makes of a reply: `l` ends the object, and after anything else it goes on behind the piece.
unfoldable pub take_reply : (ℕ → Option Bytes) → ℕ → Bytes → Option Bytes
take_reply next offset [] = none
take_reply next offset (c ∷ piece) =
    if c == b'l' then some piece else next (offset + length piece) >>= λ rest. some (piece ++ rest)

module _ (d : Delegate) (object annex : Bytes) (size : ℕ) where
  open d use {Target, perform}

  -- A debugger that reads an object with qXfer packets of the same length, so many at most.
  unfoldable pub download : ℕ → ℕ → World d → Option Bytes
  unfolding last_text take_reply
  download zero offset w = none
  download (suc fuel) offset w = handle_q_xfer d (read_text object annex offset size) w >>= λ w'.
      last_text w'.sent >>= λ text. take_reply (λ next. download fuel next w') offset text

  module _ (whole : Bytes) (lo : Lacks b':' object) (la : Lacks b':' annex) (some_size : 1 ≤ size)
      (hs : size < 2 ^ 64) (hw : length whole < 2 ^ 64)
      (serves : (t : Target) (offset : ℕ) (piece : Bytes) (last : Bool)
        → slice whole offset size ≡ some (piece, last)
        → perform t (on_xfer_read object annex offset size) ≡ (t, success, (piece, last))) where
    -- The world after one packet, for an offset inside the object.
    after : ℕ → World d → World d
    after offset w = record w {
      sent =
          w.sent
          ++ payload
              (read_reply (take size (drop offset whole)) (leb (length (drop offset whole)) size))
            ∷ [];
    }

    slice_in :
        (offset : ℕ)
        → offset ≤ length whole
        → slice whole offset size
          ≡ some (take size (drop offset whole), leb (length (drop offset whole)) size)
    unfolding slice
    slice_in offset h = ground arith

    one_packet :
        (offset : ℕ) (w : World d)
        → offset ≤ length whole
        → handle_q_xfer d (read_text object annex offset size) w ≡ some (after offset w)
    unfolding handle_q_xfer or_invalid transfer push after
    one_packet offset w h =
        rw (parse_transfer-read_text object annex offset size lo la (omega arith) hs) (
          chk_send-success d (on_xfer_read object annex offset size)
            (λ (buffer, last). send d (read_reply buffer last)) w w.target
            (take size (drop offset whole), leb (length (drop offset whole)) size)
            (serves w.target offset _ _ (slice_in offset h)))

    download_step :
        (fuel offset : ℕ) (w : World d)
        → offset ≤ length whole
        → download (suc fuel) offset w
          ≡ take_reply
              (λ next. download fuel next (after offset w))
              offset
              (read_reply (take size (drop offset whole)) (leb (length (drop offset whole)) size))
    unfolding download after
    download_step fuel offset w h =
        rw
          (
            one_packet offset w h,
            last_text-append w.sent (
                read_reply (take size (drop offset whole)) (leb (length (drop offset whole)) size)),
          )
          refl

    -- The last piece, and a piece with more behind it.
    last_piece :
        (next : ℕ → Option Bytes) (offset : ℕ) (s : Bytes)
        → leb (length s) size ≡ true
        → take_reply next offset (read_reply (take size s) (leb (length s) size)) ≡ some s
    unfolding take_reply read_reply
    last_piece next offset s h = rw (h, take_all size s (leb→le _ _ h)) refl

    is_empty-take : (s : Bytes) → size < length s → is_empty (take size s) ≡ false
    is_empty-take s h = full (take size s) (omega (arith, length-take size s (omega arith)))
      where
        full : (t : Bytes) → 1 ≤ length t → is_empty t ≡ false
        full [] k = absurd (omega arith)
        full (c ∷ t) k = refl

    middle_piece :
        (next : ℕ → Option Bytes) (offset : ℕ) (s rest : Bytes)
        → leb (length s) size ≡ false
        → next (offset + size) ≡ some rest
        → take_reply next offset (read_reply (take size s) (leb (length s) size))
          ≡ some (take size s ++ rest)
    unfolding take_reply read_reply
    middle_piece next offset s rest h e =
        rw (h, is_empty-take s (ground arith), length-take size s (ground arith), e) refl

    download_from :
        (fuel offset : ℕ) (w : World d)
        → offset ≤ length whole
        → length whole - offset < fuel
        → download fuel offset w ≡ some (drop offset whole)
    download_from zero offset w h enough = absurd (omega arith)
    download_from (suc fuel) offset w h enough =
        download_step fuel offset w h ∙ elim (Bool-cases (leb (length (drop offset whole)) size)) [
          | inl all ↦ last_piece _ offset (drop offset whole) all
          | inr more ↦
              let longer : size < length whole - offset =
                omega (arith, not_leb _ _ more, length-drop offset whole) in
              middle_piece _ offset (drop offset whole) (drop (offset + size) whole) more
                (download_from fuel (offset + size) (after offset w) (omega arith) (omega arith))
              ∙ ap (λ t. some (take size (drop offset whole) ++ t))
                  (sym (drop-drop size offset whole))
              ∙ ap some (take-drop size (drop offset whole))
        ]

    -- A debugger that reads with a length of 1 at least, and whose delegate answers with slices of the
    -- object, gets the whole object in so many packets as the object has bytes and one, at most.
    pub download-whole : (w : World d) → download (length whole + 1) 0 w ≡ some whole
    download-whole w = download_from (length whole + 1) 0 w (omega arith) (omega arith)
