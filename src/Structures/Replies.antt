-- ===== src/Structures/Replies.antt =====
-- Sources/GDBRemote/Structures.cpp: Feature::parse and the structures whose text is a list of
-- `key:value;`. An ostringstream is the text that was put into it.
use ds.Base.{
  ℕ, suc, ◌/◌, ◌%◌, Bool, true, false, not, ◌||◌, Option, none, some, List, [], ◌∷◌, ◌++◌, Bytes,
  codes, ◌==◌, if◌then◌else◌, is_empty, take, drop, get_or,
}
use ds.Hex.{to_hex}
use ds.Packet.Helpers.{escape}
use ds.Structures.Numbers.{hex, dec, padded}

pub data FeatureFlag : Type 0 where
  not_supported supported query_supported : FeatureFlag

pub record Feature : Type 0 where
  pub name : Bytes
  pub value : Bytes
  pub flag : FeatureFlag

abbrev pub is_mark : ℕ → Bool
is_mark c = (c == b'?' || c == b'+') || (c == b'-' || c == b'=')

-- find_last_of("?+-=")
unfoldable pub last_mark : Bytes → Option ℕ
last_mark [] = none
last_mark (c ∷ s) = elim (last_mark s) [
  | some i ↦ some (suc i)
  | none ↦ if is_mark c then some 0 else none
]

-- The switch on the mark.
unfoldable pub marked : Feature → Bytes → ℕ → Feature
marked feature behind mark =
    if mark == b'?'
    then record feature { flag = query_supported }
    else if mark == b'+'
    then record feature { flag = supported }
    else if mark == b'-'
    then record feature { flag = not_supported }
    else record feature { flag = supported; value = behind }

-- Feature::parse: what it leaves in the structure, and its result.
unfoldable pub parse_feature : Feature → Bytes → Feature × Bool
unfolding last_mark marked
parse_feature feature s = elim (last_mark s) [
  | none ↦ (feature, false)
  | some pos ↦
      (marked (record feature { name = take pos s }) (drop (suc pos) s) (get_or s pos 0), true)
]

-- The parts of a text, in order: a key with its value, which may be left out.
abbrev pub Field : Type 0
Field = Bytes × Bytes

abbrev pub field : Bytes → Bytes → List Field → List Field
field key value rest = (key, value) ∷ rest

abbrev pub field_if : Bool → Bytes → Bytes → List Field → List Field
field_if test key value rest = if test then (key, value) ∷ rest else rest

unfoldable pub print_fields : List Field → Bytes
print_fields [] = []
print_fields ((key, value) ∷ rest) =
    key ++ (codes ":" ++ (value ++ (codes ";" ++ print_fields rest)))

-- The members that MemoryRegionInfo::encode reads; a protection is a set of flags 1 (execute), 2
-- (write) and 4 (read), as a uint32_t.
pub record MemoryRegionInfo : Type 0 where
  pub start : ℕ
  pub length : ℕ
  pub protection : ℕ
  pub name : Bytes

unfoldable pub permissions : ℕ → Bytes
permissions protection =
    (if protection / 4 % 2 == 1 then codes "r" else [])
    ++ ((if protection / 2 % 2 == 1 then codes "w" else [])
        ++ (if protection % 2 == 1 then codes "x" else []))

unfoldable pub region_fields : MemoryRegionInfo → List Field
unfolding permissions padded hex to_hex
region_fields r = field (codes "start") (padded 8 (hex r.start)) (
    field (codes "size") (padded 8 (hex r.length)) (
      field_if (not (r.protection == 0)) (codes "permissions") (permissions r.protection)
        (field_if (not (is_empty r.name)) (codes "name") (to_hex r.name) [])))

-- MemoryRegionInfo::encode.
unfoldable pub encode_region : MemoryRegionInfo → Bytes
unfolding region_fields print_fields
encode_region r = print_fields (region_fields r)

pub record ServerVersion : Type 0 where
  pub name : Bytes
  pub version : Bytes
  pub patch_level : Bytes
  pub release_name : Bytes
  pub major_version : ℕ
  pub minor_version : ℕ
  pub build_number : ℕ

unfoldable pub version_fields : ServerVersion → List Field
unfolding dec
version_fields v = field (codes "name") v.name (
    field_if (not (is_empty v.version)) (codes "version") v.version (
      field_if (not (is_empty v.patch_level)) (codes "patch_level") v.patch_level (
        field_if (not (is_empty v.release_name)) (codes "release_name") v.release_name (
          field (codes "build_number") (dec v.build_number) (
            field (codes "major_version") (dec v.major_version)
              (field (codes "minor_version") (dec v.major_version) []))))))

-- ServerVersion::encode.
unfoldable pub encode_version : ServerVersion → Bytes
unfolding version_fields print_fields
encode_version v = print_fields (version_fields v)

-- An int is its bit pattern.
pub record ProgramResult : Type 0 where
  pub status : ℕ
  pub signal : ℕ
  pub output : Bytes

-- ProgramResult::encode.
unfoldable pub encode_result : ProgramResult → Bytes
unfolding padded hex escape
encode_result r =
    codes "F,"
    ++ (padded 8 (hex r.status)
        ++ (codes "," ++ (padded 8 (hex r.signal) ++ (codes "," ++ escape r.output))))
