-- ===== src/Structures/Registers.antt =====
-- RegisterInfo of Sources/GDBRemote/Structures.cpp: the description of a register, as fields or as XML.
use ds.Base.{
  ℕ, Bool, true, false, not, Option, none, some, List, [], ◌∷◌, ◌++◌, Bytes, codes, if◌then◌else◌,
  is_empty,
}
use ds.Structures.Numbers.{hex, dec}
use ds.Structures.Replies.{Field, field, field_if, print_fields}

pub data Encoding : Type 0 where
  no_encoding unsigned_int signed_int ieee754 vector : Encoding

pub data Format : Type 0 where
  no_format binary decimal hexadecimal float vector_uint8 vector_sint8 : Format
  vector_uint16 vector_sint16 vector_uint32 vector_sint32 vector_uint128 vector_float32 : Format

-- An index or an offset below 0 is `none`; the counts are of their widths.
pub record RegisterInfo : Type 0 where
  pub set_name : Bytes
  pub register_name : Bytes
  pub alternate_name : Bytes
  pub generic_name : Bytes
  pub bit_size : ℕ
  pub byte_offset : Option ℕ
  pub ehframe_register_index : Option ℕ
  pub dwarf_register_index : Option ℕ
  pub regno : ℕ
  pub encoding : Encoding
  pub format : Format
  pub container_registers : List ℕ
  pub invalidate_registers : List ℕ

-- nullptr is `none`.
unfoldable pub encoding_name : Encoding → Option Bytes
encoding_name no_encoding = none
encoding_name unsigned_int = some (codes "uint")
encoding_name signed_int = some (codes "sint")
encoding_name ieee754 = some (codes "ieee754")
encoding_name vector = some (codes "vector")

unfoldable pub format_name : Format → Option Bytes
format_name no_format = none
format_name binary = some (codes "binary")
format_name decimal = some (codes "decimal")
format_name hexadecimal = some (codes "hex")
format_name float = some (codes "float")
format_name vector_uint8 = some (codes "vector-uint8")
format_name vector_sint8 = some (codes "vector-sint8")
format_name vector_uint16 = some (codes "vector-uint16")
format_name vector_sint16 = some (codes "vector-sint16")
format_name vector_uint32 = some (codes "vector-uint32")
format_name vector_sint32 = some (codes "vector-sint32")
format_name vector_uint128 = some (codes "vector-uint128")
format_name vector_float32 = some (codes "vector-float32")

abbrev pub field_of : Bytes → Option Bytes → List Field → List Field
field_of key none rest = rest
field_of key (some value) rest = (key, value) ∷ rest

unfoldable pub index_of : Option ℕ → Option Bytes
unfolding dec
index_of none = none
index_of (some i) = some (dec i)

-- The offset, with 0 for one below it.
unfoldable pub offset_text : Option ℕ → Bytes
unfolding dec
offset_text none = dec 0
offset_text (some offset) = dec offset

-- The numbers of registers with commas between them.
unfoldable pub register_numbers : Bool → List ℕ → Bytes
unfolding dec hex
register_numbers xml [] = []
register_numbers xml (n ∷ []) = if xml then dec n else hex n
register_numbers xml (n ∷ next ∷ ns) =
    (if xml then dec n else hex n) ++ (codes "," ++ register_numbers xml (next ∷ ns))

-- `xml_set` is the index of the group, or `none` for a number below 0, which is no XML.
abbrev pub is_xml : Option ℕ → Bool
is_xml none = false
is_xml (some group) = true

abbrev pub named : Bool → Bytes → Bytes → Bytes
named xml in_xml in_fields = if xml then in_xml else in_fields

-- The set, or its group.
unfoldable pub set_field : RegisterInfo → Option ℕ → List Field → List Field
unfolding dec
set_field r none rest = field_if (not (is_empty r.set_name)) (codes "set") r.set_name rest
set_field r (some group) rest =
    field_if (not (is_empty r.set_name)) (codes "group_id") (dec group) rest

unfoldable pub register_fields : RegisterInfo → Option ℕ → List Field
unfolding encoding_name format_name index_of offset_text register_numbers set_field dec
register_fields r xml_set =
    let xml = is_xml xml_set in
    field (codes "name") r.register_name (
      field_if (not (is_empty r.alternate_name)) (named xml (codes "altname") (codes "alt-name"))
        r.alternate_name
        (field (codes "bitsize") (dec r.bit_size) (
          field (codes "offset") (offset_text r.byte_offset) (
            field_of (codes "encoding") (encoding_name r.encoding) (
              field_of (codes "format") (format_name r.format) (
                set_field r xml_set (
                  field_if xml (codes "regnum") (dec r.regno) (
                    field_of (named xml (codes "ehframe_regnum") (codes "ehframe"))
                      (index_of r.ehframe_register_index)
                      (field_of (named xml (codes "dwarf_regnum") (codes "dwarf"))
                        (index_of r.dwarf_register_index)
                        (field_if (not (is_empty r.generic_name)) (codes "generic") r.generic_name (
                          field_if (not (is_empty r.container_registers))
                            (named xml (codes "value_regnums") (codes "container-regs"))
                            (register_numbers xml r.container_registers)
                            (field_if (not (is_empty r.invalidate_registers))
                              (named xml (codes "invalidate_regnums") (codes "invalidate-regs"))
                              (register_numbers xml r.invalidate_registers) []))))))))))))

unfoldable pub print_attributes : List Field → Bytes
print_attributes [] = []
print_attributes ((key, value) ∷ rest) =
    key ++ (codes "=" ++ (b'"' ∷ value ++ (b'"' ∷ codes " " ++ print_attributes rest)))

-- RegisterInfo::encode.
unfoldable pub encode_register : RegisterInfo → Option ℕ → Bytes
unfolding register_fields print_attributes print_fields
encode_register r xml_set =
    if is_xml xml_set
    then codes "<reg " ++ (print_attributes (register_fields r xml_set) ++ codes "/>")
    else print_fields (register_fields r xml_set)
