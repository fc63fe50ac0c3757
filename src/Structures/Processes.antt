-- ===== src/Structures/Processes.antt =====
-- ProcessInfo of Sources/GDBRemote/Structures.cpp, on POSIX.
use ds.Base.{
  ℕ, ◌-◌, ◌^◌, Bool, not, List, [], ◌++◌, Bytes, codes, ◌==◌, ltb, if◌then◌else◌, is_empty,
}
use ds.Hex.{to_hex}
use ds.Session.{CompatibilityMode}
use ds.Structures.Numbers.{hex, dec}
use ds.Structures.CpuTypes.{CpuType, Endian, arch_name, endian_name}
use ds.Structures.Replies.{Field, field, field_if, print_fields}
use ds.Structures.Stops.{is_lldb}

-- The members that encode reads. A pid_t is its bit pattern.
pub record ProcessInfo : Type 0 where
  pub pid : ℕ
  pub parent_pid : ℕ
  pub name : Bytes
  pub real_uid : ℕ
  pub real_gid : ℕ
  pub effective_uid : ℕ
  pub effective_gid : ℕ
  pub cpu_type : CpuType
  pub cpu_sub_type : ℕ
  pub native_cpu_type : ℕ
  pub native_cpu_sub_type : ℕ
  pub endian : Endian
  pub pointer_size : ℕ
  pub os_type : Bytes
  pub os_vendor : Bytes

unfoldable pub or_unknown : Bytes → Bytes
or_unknown s = if is_empty s then codes "unknown" else s

unfoldable pub triple : ProcessInfo → Bytes
unfolding or_unknown arch_name
triple p =
    arch_name p.cpu_type p.cpu_sub_type
    ++ (codes "-" ++ (or_unknown p.os_vendor ++ (codes "-" ++ or_unknown p.os_type)))

-- `<< DEC` of a pid_t: a minus sign before the size of a negative one.
unfoldable pub signed_dec : ℕ → Bytes
unfolding dec
signed_dec n = if ltb n (2 ^ 31) then dec n else codes "-" ++ dec (2 ^ 32 - n)

-- The alternate version.
unfoldable pub alternate_fields : ProcessInfo → List Field
unfolding triple signed_dec dec to_hex
alternate_fields p = field (codes "pid") (signed_dec p.pid) (
    field (codes "uid") (dec p.real_uid) (
      field (codes "gid") (dec p.real_gid) (
        field (codes "ppid") (signed_dec p.parent_pid) (
          field (codes "euid") (dec p.effective_uid) (
            field (codes "egid") (dec p.effective_gid) (
              field (codes "name") (to_hex p.name)
                (field (codes "triple") (to_hex (triple p)) [])))))))

-- What differs between the modes.
unfoldable pub kind_fields : ProcessInfo → CompatibilityMode → List Field → List Field
unfolding triple hex to_hex
kind_fields p mode rest =
    if is_lldb mode
    then field (codes "triple") (to_hex (triple p)) rest
    else field (codes "cputype") (hex p.native_cpu_type) (
        field_if (not (p.native_cpu_sub_type == 0)) (codes "cpusubtype") (hex p.native_cpu_sub_type)
          rest)

-- The pointer's size has no base of its own: it is hexadecimal still.
unfoldable pub process_fields : ProcessInfo → CompatibilityMode → List Field
unfolding kind_fields endian_name hex
process_fields p mode = field (codes "pid") (hex p.pid) (
    field (codes "real-uid") (hex p.real_uid) (
      field (codes "real-gid") (hex p.real_gid) (
        field (codes "parent-pid") (hex p.parent_pid) (
          field (codes "effective-uid") (hex p.effective_uid) (
            field (codes "effective-gid") (hex p.effective_gid) (
              kind_fields p mode (
                field (codes "endian") (endian_name p.endian) (
                  field (codes "ptrsize") (hex p.pointer_size) (
                    field (codes "vendor") p.os_vendor
                      (field (codes "ostype") p.os_type []))))))))))

-- ProcessInfo::encode.
unfoldable pub encode_process : ProcessInfo → CompatibilityMode → Bool → Bytes
unfolding alternate_fields process_fields print_fields
encode_process p mode alternate =
    if alternate then print_fields (alternate_fields p) else print_fields (process_fields p mode)
