-- ===== src/Structures/CpuTypes.antt =====
-- Sources/Core/CPUTypes.cpp, with the types of Headers/DebugServer2/Core/CPUTypes.h and the byte orders of
-- Headers/DebugServer2/Constants.h. A subtype is its number: only those of ARM are looked at.
use ds.Base.{ℕ, Bool, true, false, ◌||◌, ◌&&◌, Bytes, codes, ◌==◌, leb, if◌then◌else◌}

pub data CpuType : Type 0 where
  any_cpu all_cpus all64_cpus vax romp mc680x0 i386 x86_64 mips mips64 mc98000 : CpuType
  hppa hppa64 arm arm64 mc88000 sparc sparc64 i860 alpha powerpc powerpc64 : CpuType

pub data Endian : Type 0 where
  unknown_endian big little pdp : Endian

-- GetCPUTypeName.
unfoldable pub cpu_type_name : CpuType → Bytes
cpu_type_name any_cpu = codes "ANY"
cpu_type_name vax = codes "VAX"
cpu_type_name romp = codes "ROMP"
cpu_type_name mc680x0 = codes "M68K"
cpu_type_name i386 = codes "I386"
cpu_type_name x86_64 = codes "X86-64"
cpu_type_name mips = codes "MIPS"
cpu_type_name mips64 = codes "MIPS64"
cpu_type_name mc98000 = codes "POWERPC"
cpu_type_name hppa = codes "HPPA"
cpu_type_name hppa64 = codes "HPPA64"
cpu_type_name arm = codes "ARM"
cpu_type_name arm64 = codes "ARM64"
cpu_type_name mc88000 = codes "M88K"
cpu_type_name sparc = codes "SPARC"
cpu_type_name sparc64 = codes "SPARC64"
cpu_type_name i860 = codes "I860"
cpu_type_name alpha = codes "ALPHA"
cpu_type_name powerpc = codes "POWERPC"
cpu_type_name powerpc64 = codes "POWERPC64"
cpu_type_name other = codes "UNKNOWN"

-- The subtypes of ARM from V7 to V7K, V7M and V7EM.
unfoldable pub is_arm_v7 : ℕ → Bool
is_arm_v7 subtype = (leb 9 subtype && leb subtype 12) || (subtype == 15 || subtype == 16)

-- GetArchName of a type and a subtype.
unfoldable pub arch_name : CpuType → ℕ → Bytes
unfolding is_arm_v7
arch_name arm subtype = if is_arm_v7 subtype then codes "armv7" else codes "arm"
arch_name any_cpu subtype = codes "any"
arch_name vax subtype = codes "vax"
arch_name romp subtype = codes "romp"
arch_name mc680x0 subtype = codes "m68k"
arch_name i386 subtype = codes "i386"
arch_name x86_64 subtype = codes "x86_64"
arch_name mips subtype = codes "mips"
arch_name mips64 subtype = codes "mips64"
arch_name mc98000 subtype = codes "powerpc"
arch_name hppa subtype = codes "parisc"
arch_name hppa64 subtype = codes "parisc64"
arch_name arm64 subtype = codes "aarch64"
arch_name mc88000 subtype = codes "m88k"
arch_name sparc subtype = codes "sparc"
arch_name sparc64 subtype = codes "sparc64"
arch_name i860 subtype = codes "i860"
arch_name alpha subtype = codes "alpha"
arch_name powerpc subtype = codes "powerpc"
arch_name powerpc64 subtype = codes "powerpc64"
arch_name other subtype = codes "unknown"

-- `endian == kEndianLittle`
abbrev pub is_little : Endian → Bool
is_little little = true
is_little other = false

-- GetArchName with the byte order.
unfoldable pub arch_name_in : CpuType → ℕ → Endian → Bytes
unfolding arch_name is_arm_v7
arch_name_in arm subtype endian =
    if is_little endian
    then (if is_arm_v7 subtype then codes "armv7" else codes "arm")
    else codes "armeb"
arch_name_in powerpc subtype endian =
    if is_little endian then codes "powerpcle" else codes "powerpc"
arch_name_in powerpc64 subtype endian =
    if is_little endian then codes "powerpc64le" else codes "powerpc64"
arch_name_in mips subtype endian = if is_little endian then codes "mipsel" else codes "mipseb"
arch_name_in mips64 subtype endian = if is_little endian then codes "mips64el" else codes "mips64eb"
arch_name_in other subtype endian = arch_name other subtype

-- The name that the encoders print, `unknown` by default.
unfoldable pub endian_name : Endian → Bytes
endian_name big = codes "big"
endian_name little = codes "little"
endian_name pdp = codes "pdp"
endian_name unknown_endian = codes "unknown"
