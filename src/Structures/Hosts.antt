-- ===== src/Structures/Hosts.antt =====
-- HostInfo of Sources/GDBRemote/Structures.cpp, on other systems than Apple's. std::sscanf with
-- "%u.%u.%u" is written out as the C standard and glibc describe it.
use ds.Base.{
  ℕ, ◌+◌, ◌-◌, ◌*◌, ◌%◌, ◌^◌, Bool, true, false, not, ◌&&◌, Option, none, some, List, [], ◌∷◌, ◌++◌,
  Bytes, codes, ◌==◌, ltb, leb, if◌then◌else◌, ◌>>=◌, is_empty,
}
use ds.Hex.{to_hex}
use ds.Structures.Numbers.{dec, is_blank}
use ds.Structures.CpuTypes.{CpuType, Endian, arch_name_in, endian_name}
use ds.Structures.Replies.{Field, field, field_if, print_fields}

-- The members that encode reads.
pub record HostInfo : Type 0 where
  pub cpu_type : CpuType
  pub cpu_sub_type : ℕ
  pub host_name : Bytes
  pub os_type : Bytes
  pub os_vendor : Bytes
  pub os_build : Bytes
  pub os_kernel : Bytes
  pub os_version : Bytes
  pub endian : Endian
  pub pointer_size : ℕ
  pub default_packet_timeout : ℕ
  pub watchpoint_exceptions_received_before : Bool

abbrev is_digit : ℕ → Bool
is_digit c = leb b'0' c && leb c b'9'

-- The digits; a value that does not fit an unsigned long is 2 ^ 64.
unfoldable pub scan_decimal : ℕ → Bytes → ℕ × Bytes
scan_decimal acc [] = (acc, [])
scan_decimal acc (c ∷ s) =
    let value = acc * 10 + (c - b'0') in
    let rest = scan_decimal (if ltb value (2 ^ 64) then value else 2 ^ 64) s in
    if is_digit c then rest else (acc, c ∷ s)

-- The value as an unsigned int; one out of range is the greatest unsigned long, whatever its sign.
unfoldable pub narrowed : Bool → ℕ → ℕ
narrowed negative value =
    if leb (2 ^ 64) value
    then (2 ^ 64 - 1) % 2 ^ 32
    else if negative
    then (2 ^ 64 - value) % 2 ^ 32
    else value % 2 ^ 32

-- At least one digit must stand there.
unfoldable pub scan_digits_of : Bool → Bytes → Option (ℕ × Bytes)
unfolding scan_decimal narrowed
scan_digits_of negative [] = none
scan_digits_of negative (c ∷ s) =
    let (value, rest) = scan_decimal 0 (c ∷ s) in
    if is_digit c then some (narrowed negative value, rest) else none

-- %u: blanks, a sign, the digits, as an unsigned int.
unfoldable pub scan_unsigned : Bytes → Option (ℕ × Bytes)
unfolding scan_digits_of
scan_unsigned [] = none
scan_unsigned (c ∷ s) =
    let rest = scan_unsigned s in
    if is_blank c
    then rest
    else if c == b'-'
    then scan_digits_of true s
    else if c == b'+'
    then scan_digits_of false s
    else scan_digits_of false (c ∷ s)

-- A dot, and %u.
unfoldable pub scan_dotted : Bytes → Option (ℕ × Bytes)
unfolding scan_unsigned
scan_dotted [] = none
scan_dotted (c ∷ s) = if c == b'.' then scan_unsigned s else none

-- What sscanf does not assign stays 0; without a first number it assigns nothing.
unfoldable pub after_major : ℕ → Option (ℕ × Bytes) → Bytes
unfolding scan_dotted dec
after_major major none = dec major ++ codes ".0.0"
after_major major (some (minor, rest)) =
    dec major
    ++ (codes "."
        ++ (dec minor
            ++ (codes "." ++ (elim (scan_dotted rest) as (λ x. Bytes) [
              | none ↦ codes "0"
              | some (revision, end) ↦ dec revision
            ]))))

unfoldable pub os_version_text : Bytes → Option Bytes
unfolding scan_unsigned scan_dotted after_major
os_version_text s = do (major, rest) ← scan_unsigned s; some (after_major major (scan_dotted rest))

unfoldable pub os_version_field : Bytes → List Field → List Field
unfolding os_version_text
os_version_field version rest = elim (os_version_text version) [
  | none ↦ rest
  | some text ↦ (codes "os_version", text) ∷ rest
]

unfoldable pub host_fields : HostInfo → List Field
unfolding arch_name_in endian_name os_version_field to_hex dec
host_fields h = field (codes "arch") (arch_name_in h.cpu_type h.cpu_sub_type h.endian) (
    field (codes "ostype") h.os_type (
      field_if (not (is_empty h.os_vendor)) (codes "vendor") h.os_vendor (
        field_if (not (is_empty h.os_build)) (codes "os_build") (to_hex h.os_build) (
          field_if (not (is_empty h.os_kernel)) (codes "os_kernel") (to_hex h.os_kernel) (
            os_version_field h.os_version (
              field_if (not (is_empty h.host_name)) (codes "hostname") (to_hex h.host_name) (
                field (codes "endian") (endian_name h.endian) (
                  field (codes "ptrsize") (dec h.pointer_size) (
                    field (codes "watchpoint_exceptions_received")
                      (if h.watchpoint_exceptions_received_before
                        then codes "before"
                        else codes "after")
                      (field_if (not (h.default_packet_timeout == 0))
                        (codes "default_packet_timeout") (dec h.default_packet_timeout) []))))))))))

-- HostInfo::encode.
unfoldable pub encode_host : HostInfo → Bytes
unfolding host_fields print_fields
encode_host h = print_fields (host_fields h)
