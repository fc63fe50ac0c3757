-- ===== src/Structures/Fields.antt =====
-- Sources/GDBRemote/Structures.cpp: a reader of the `key:value;` texts, as the debugger has one.
use ds.Base.{
  ℕ, ◌≡◌, refl, sym, ap, ◌∙◌, Bool, true, false, List, [], ◌∷◌, ◌++◌, append-nil, append_assoc,
  Bytes, ◌==◌, ==_ne, if◌then◌else◌, All, Lacks,
}
use ds.Structures.Replies.{Field, print_fields}

-- The fields of a text: whether a value is being read, its key, and the characters so far.
unfoldable pub scan_fields : Bool → Bytes → Bytes → Bytes → List Field
scan_fields in_value key acc [] = []
scan_fields false key acc (c ∷ s) =
    let value = scan_fields true acc [] s in
    let more = scan_fields false key (acc ++ c ∷ []) s in if c == b':' then value else more
scan_fields true key acc (c ∷ s) =
    let next = scan_fields false [] [] s in
    let more = scan_fields true key (acc ++ c ∷ []) s in
    if c == b';' then (key, acc) ∷ next else more

unfoldable pub read_fields : Bytes → List Field
unfolding scan_fields
read_fields s = scan_fields false [] [] s

-- Keys without colons, values without semicolons.
abbrev pub AreFields : List Field → Type 0
AreFields = All (λ (key, value). Lacks b':' key × Lacks b';' value)

append_one : (acc t s : Bytes) (c : ℕ) → acc ++ (c ∷ t) ≡ (acc ++ c ∷ []) ++ t
append_one acc t s c = sym (append_assoc acc (c ∷ []) t)

scan_fields-key :
    (k acc t s : Bytes)
    → Lacks b':' t
    → scan_fields false k acc (t ++ b':' ∷ s) ≡ scan_fields true (acc ++ t) [] s
unfolding scan_fields
scan_fields-key k acc [] s h = rw (append-nil acc) refl
scan_fields-key k acc (c ∷ t) s (h, hs) =
    rw (==_ne c b':' h, append_one acc t s c) (scan_fields-key k (acc ++ c ∷ []) t s hs)

scan_fields-value :
    (k acc t s : Bytes)
    → Lacks b';' t
    → scan_fields true k acc (t ++ b';' ∷ s) ≡ (k, acc ++ t) ∷ scan_fields false [] [] s
unfolding scan_fields
scan_fields-value k acc [] s h = rw (append-nil acc) refl
scan_fields-value k acc (c ∷ t) s (h, hs) =
    rw (==_ne c b';' h, append_one acc t s c) (scan_fields-value k (acc ++ c ∷ []) t s hs)

-- What print_fields wrote is read back, if no key has a colon and no value a semicolon.
pub read_fields-print_fields :
    (fields : List Field) → AreFields fields → read_fields (print_fields fields) ≡ fields
unfolding read_fields print_fields
read_fields-print_fields [] h = unfold scan_fields in refl
read_fields-print_fields ((key, value) ∷ rest) ((k, v), h) =
    scan_fields-key [] [] key (value ++ (b';' ∷ print_fields rest)) k
    ∙ scan_fields-value key [] value (print_fields rest) v
    ∙ ap (λ x. (key, value) ∷ x) (read_fields-print_fields rest h)
