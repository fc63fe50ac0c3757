-- ===== src/Session/Replies.antt =====
-- The replies of the session that report an error.
use ds.Base.{ℕ, ◌≡◌, ◌≢◌, refl, Option, none, some, [], ◌∷◌, Bytes}
use ds.Hex.{nibble_to_hex, hex_to_byte}
use ds.Errors.{ErrorCode, error_number, success, unknown, unsupported}
use ds.Session.{CompatibilityMode, gdb, gdb_multiprocess, lldb, lldb_thread, error_reply}

-- The number in the last two characters of a reply.
pub number_of : Bytes → Option ℕ
number_of (a ∷ c ∷ d ∷ []) = hex_to_byte c d
number_of (a ∷ b ∷ c ∷ d ∷ []) = hex_to_byte c d
number_of s = none

-- In the modes that a session runs in, an error other than the two that mean an unknown packet is
-- reported by a reply that begins with 'E' and whose last two characters are its number.
pub error_reply-number :
    (mode : CompatibilityMode) (code : ErrorCode)
    → mode ≢ lldb_thread
    → code ≢ success
    → code ≢ unknown
    → code ≢ unsupported
    → (s : Bytes) × (error_reply mode code ≡ some (b'E' ∷ s))
      × (number_of (b'E' ∷ s) ≡ some (error_number code))
unfolding error_reply nibble_to_hex number_of hex_to_byte error_number
error_reply-number gdb success m a b c = absurd (a refl)
error_reply-number gdb unknown m a b c = absurd (b refl)
error_reply-number gdb unsupported m a b c = absurd (c refl)
error_reply-number gdb _ m a b c = (_, refl, refl)
error_reply-number gdb_multiprocess success m a b c = absurd (a refl)
error_reply-number gdb_multiprocess unknown m a b c = absurd (b refl)
error_reply-number gdb_multiprocess unsupported m a b c = absurd (c refl)
error_reply-number gdb_multiprocess _ m a b c = (_, refl, refl)
error_reply-number lldb success m a b c = absurd (a refl)
error_reply-number lldb unknown m a b c = absurd (b refl)
error_reply-number lldb unsupported m a b c = absurd (c refl)
error_reply-number lldb _ m a b c = (_, refl, refl)
error_reply-number lldb_thread _ m a b c = absurd (m refl)
