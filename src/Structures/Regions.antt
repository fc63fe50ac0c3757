-- ===== src/Structures/Regions.antt =====
-- MemoryRegionInfo of Sources/GDBRemote/Structures.cpp: what a debugger reads of its text.
use ds.Base.{
  ℕ, ◌+◌, ◌/◌, ◌%◌, ◌^◌, ◌<◌, ◌≡◌, ◌≢◌, refl, ap, ◌∙◌, inl, inr, Bool, true, false, not, ◌&&◌,
  Option, none, some, List, [], ◌∷◌, Bytes, codes, ◌==◌, ==_iff, if◌then◌else◌, is_empty, contains,
  All, Lacks, AreBytes, Bool-cases, arith, passes_under, passes_under-at,
}
use ds.Hex.{nibble_to_hex, hex_to_nibble, to_hex, hex_to_bytes}
use ds.Hex.RoundTrip.{hex_to_bytes-to_hex}
use ds.Structures.Numbers.{hex, padded, strtoul, is_some_digit}
use ds.Structures.Numbers.RoundTrip.{IsDigit, hex_to_nibble-nibble_to_hex}
use ds.Structures.Numbers.Padded.{padded-IsDigit, strtoul-padded}
use ds.Structures.Replies.{
  Field, field_if, permissions, MemoryRegionInfo, region_fields, encode_region,
}
use ds.Structures.Fields.{read_fields, AreFields, read_fields-print_fields}

-- Whether two texts are equal.
unfoldable pub same_text : Bytes → Bytes → Bool
same_text [] [] = true
same_text [] (d ∷ t) = false
same_text (c ∷ s) [] = false
same_text (c ∷ s) (d ∷ t) = c == d && same_text s t

-- The value of a key, empty if there is none.
unfoldable pub value_of : Bytes → List Field → Bytes
unfolding same_text
value_of key [] = []
value_of key ((k, v) ∷ rest) = let later = value_of key rest in if same_text k key then v else later

abbrev flag_of : ℕ → ℕ → Bytes → ℕ
flag_of letter flag s = if contains letter s then flag else 0

abbrev text_or_empty : Option Bytes → Bytes
text_or_empty none = []
text_or_empty (some s) = s

-- The region that a text describes.
unfoldable pub region_of : List Field → MemoryRegionInfo
unfolding value_of strtoul hex_to_bytes
region_of fields =
    let letters = value_of (codes "permissions") fields in
    record {
      start = (strtoul (value_of (codes "start") fields)).number;
      length = (strtoul (value_of (codes "size") fields)).number;
      protection = flag_of b'r' 4 letters + flag_of b'w' 2 letters + flag_of b'x' 1 letters;
      name = text_or_empty (hex_to_bytes (value_of (codes "name") fields));
    }

digit_no_semicolon : (c : ℕ) → IsDigit c → c ≢ b';'
unfolding hex_to_nibble
digit_no_semicolon c h = ground arith

digits-Lacks : (s : Bytes) → All IsDigit s → Lacks b';' s
digits-Lacks [] h = tt
digits-Lacks (c ∷ s) (h, hs) = (digit_no_semicolon c h, digits-Lacks s hs)

nibble_no_semicolon : (n : ℕ) → n < 16 → nibble_to_hex n ≢ b';'
nibble_no_semicolon n h =
    digit_no_semicolon (nibble_to_hex n) (ap is_some_digit (hex_to_nibble-nibble_to_hex n h))

to_hex-Lacks : (s : Bytes) → AreBytes s → Lacks b';' (to_hex s)
unfolding to_hex
to_hex-Lacks [] h = tt
to_hex-Lacks (n ∷ s) (h, hs) = (
  nibble_no_semicolon (n / 16) (omega arith),
  (nibble_no_semicolon (n % 16) (omega arith), to_hex-Lacks s hs),
)

-- The permissions, checked one by one.
permission_table :
    passes_under
      (λ p.
        let s = permissions p in
        flag_of b'r' 4 s + flag_of b'w' 2 s + flag_of b'x' 1 s == p && not (contains b';' s))
      8
    ≡ true
unfolding passes_under permissions
permission_table = refl

both : (a b : Bool) → (a && b) ≡ true → (a ≡ true) × (b ≡ true)
both a b h = (ground arith, ground arith)

negated : (a : Bool) → not a ≡ true → a ≡ false
negated a h = ground arith

contains-Lacks : (b : ℕ) (s : Bytes) → contains b s ≡ false → Lacks b s
contains-Lacks b [] h = tt
contains-Lacks b (c ∷ s) h = (ground arith, contains-Lacks b s (ground arith))

read_permissions :
    (p : ℕ)
    → p < 8
    → (flag_of b'r' 4 (permissions p)
          + flag_of b'w' 2 (permissions p)
          + flag_of b'x' 1 (permissions p)
        ≡ p)
      × Lacks b';' (permissions p)
read_permissions p h =
    let passed = passes_under-at _ 8 p h permission_table in
    let (same, none_there) = both _ _ passed in
    ((==_iff _ p).0 same, contains-Lacks b';' (permissions p) (negated _ none_there))

field_if-AreFields :
    (test : Bool) (k v : Bytes) (rest : List Field)
    → Lacks b':' k
    → Lacks b';' v
    → AreFields rest
    → AreFields (field_if test k v rest)
field_if-AreFields true k v rest hk hv h = ((hk, hv), h)
field_if-AreFields false k v rest hk hv h = h

-- A field of another key does not matter.
value_of-skip :
    (test : Bool) (key k v : Bytes) (rest : List Field)
    → same_text k key ≡ false
    → value_of key (field_if test k v rest) ≡ value_of key rest
unfolding value_of
value_of-skip true key k v rest h = rw h refl
value_of-skip false key k v rest h = refl

named :
    (name : Bytes)
    → value_of (codes "name") (field_if (not (is_empty name)) (codes "name") (to_hex name) [])
      ≡ to_hex name
unfolding value_of same_text to_hex
named [] = refl
named (c ∷ s) = refl

unpermitted : (p : ℕ) → (p == 0) ≡ true → permissions p ≡ []
unfolding permissions
unpermitted p z = rw ((==_iff p 0).0 z) refl

module _ (r : MemoryRegionInfo) where
  abbrev tail : List Field
  tail = field_if (not (is_empty r.name)) (codes "name") (to_hex r.name) []

  permission_value : value_of (codes "permissions") (region_fields r) ≡ permissions r.protection
  unfolding region_fields value_of same_text
  permission_value = elim (Bool-cases (r.protection == 0)) [
    | inl z ↦
        rw (z, unpermitted r.protection z)
          (value_of-skip (not (is_empty r.name)) (codes "permissions") (codes "name")
            (to_hex r.name) [] refl)
    | inr z ↦ rw z refl
  ]

  name_value : value_of (codes "name") (region_fields r) ≡ to_hex r.name
  unfolding region_fields value_of same_text
  name_value =
      value_of-skip (not (r.protection == 0)) (codes "name") (codes "permissions")
        (permissions r.protection) tail refl
      ∙ named r.name

  start_value :
      r.start < 2 ^ 64 → (strtoul (value_of (codes "start") (region_fields r))).number ≡ r.start
  unfolding region_fields value_of same_text
  start_value h = ap (λ x. x.number) (strtoul-padded 8 r.start h)

  size_value :
      r.length < 2 ^ 64 → (strtoul (value_of (codes "size") (region_fields r))).number ≡ r.length
  unfolding region_fields value_of same_text
  size_value h = ap (λ x. x.number) (strtoul-padded 8 r.length h)

  region_of-region_fields :
      r.start < 2 ^ 64
      → r.length < 2 ^ 64
      → r.protection < 8
      → AreBytes r.name
      → region_of (region_fields r) ≡ r
  unfolding region_of
  region_of-region_fields s l p n =
      let (flags, _) = read_permissions r.protection p in
      rw
        (
          start_value s,
          size_value l,
          permission_value,
          flags,
          name_value,
          hex_to_bytes-to_hex r.name n,
        )
        refl

  region_fields-AreFields : r.protection < 8 → AreBytes r.name → AreFields (region_fields r)
  unfolding region_fields
  region_fields-AreFields p n =
      let (_, letters) = read_permissions r.protection p in
      (
        (
          contains-Lacks b':' (codes "start") refl,
          digits-Lacks (padded 8 (hex r.start)) (padded-IsDigit 8 r.start),
        ),
        (
          (
            contains-Lacks b':' (codes "size") refl,
            digits-Lacks (padded 8 (hex r.length)) (padded-IsDigit 8 r.length),
          ),
          field_if-AreFields (not (r.protection == 0)) (codes "permissions")
              (permissions r.protection) tail (contains-Lacks b':' (codes "permissions") refl)
              letters
              (field_if-AreFields (not (is_empty r.name)) (codes "name") (to_hex r.name) []
                (contains-Lacks b':' (codes "name") refl) (to_hex-Lacks r.name n) tt),
        ),
      )

  -- A debugger that reads the text of a memory region finds the region: its start, its length, its
  -- protection (of the three flags) and its name, whatever bytes it has.
  pub region_of-encode_region :
      r.start < 2 ^ 64
      → r.length < 2 ^ 64
      → r.protection < 8
      → AreBytes r.name
      → region_of (read_fields (encode_region r)) ≡ r
  unfolding encode_region
  region_of-encode_region s l p n =
      ap region_of (read_fields-print_fields (region_fields r) (region_fields-AreFields p n))
      ∙ region_of-region_fields s l p n
