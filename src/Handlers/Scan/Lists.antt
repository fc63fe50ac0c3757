-- ===== src/Handlers/Scan/Lists.antt =====
-- Session::ParseList of Sources/GDBRemote/Session.cpp against joining with the separator.
use mathlib.Core.Path.{subst}
use ds.Base.{
  ℕ, ◌≡◌, ◌≢◌, refl, sym, ap, ◌∙◌, ◌⊎◌, inl, inr, false, some, List, [], ◌∷◌, ◌++◌, Bytes, ◌==◌,
  ==_ne, ==_refl, ==_iff, Bool-cases, append-nil, append_assoc, is_empty, All, Lacks, All-append,
  ne_of_==,
}
use ds.Handlers.Scan.{pieces, parse_list}

-- The pieces with the separator between them.
abbrev pub join : ℕ → List Bytes → Bytes
join separator [] = []
join separator (p ∷ []) = p
join separator (p ∷ q ∷ ps) = p ++ (separator ∷ join separator (q ∷ ps))

-- There is a last piece, and it is not empty.
abbrev pub EndsFull : List Bytes → Type 0
EndsFull [] = ⊥
EndsFull (p ∷ []) = is_empty p ≡ false
EndsFull (p ∷ q ∷ ps) = EndsFull (q ∷ ps)

one_more : (acc : Bytes) (c : ℕ) (s : Bytes) → (acc ++ c ∷ []) ++ s ≡ acc ++ (c ∷ s)
one_more acc c s = append_assoc acc (c ∷ []) s

pieces-plain : (sep : ℕ) (p acc : Bytes) → Lacks sep p → pieces sep acc p ≡ (acc ++ p) ∷ []
unfolding pieces
pieces-plain sep [] acc h = ap (λ t. t ∷ []) (sym (append-nil acc))
pieces-plain sep (c ∷ p) acc (ne, h) =
    rw (==_ne c sep ne) (pieces-plain sep p (acc ++ c ∷ []) h ∙ ap (λ t. t ∷ []) (one_more acc c p))

pieces-separated :
    (sep : ℕ) (p acc : Bytes) (d : ℕ) (r : Bytes)
    → Lacks sep p
    → pieces sep acc (p ++ (sep ∷ d ∷ r)) ≡ (acc ++ p) ∷ pieces sep [] (d ∷ r)
unfolding pieces
pieces-separated sep [] acc d r h =
    rw (==_refl sep) (ap (λ t. t ∷ pieces sep [] (d ∷ r)) (sym (append-nil acc)))
pieces-separated sep (c ∷ p) acc d r (ne, h) = rw (==_ne c sep ne) (
    pieces-separated sep p (acc ++ c ∷ []) d r h
    ∙ ap (λ t. t ∷ pieces sep [] (d ∷ r)) (one_more acc c p))

-- A text that is not empty is written as its first character and the rest.
full_text : (s : Bytes) → is_empty s ≡ false → (d : ℕ) × (r : Bytes) × (s ≡ d ∷ r)
full_text [] h = cc
full_text (d ∷ r) h = (d, r, refl)

is_empty-append : (p s : Bytes) (c : ℕ) → is_empty (p ++ (c ∷ s)) ≡ false
is_empty-append [] s c = refl
is_empty-append (d ∷ p) s c = refl

is_empty-join : (sep : ℕ) (ps : List Bytes) → EndsFull ps → is_empty (join sep ps) ≡ false
is_empty-join sep [] h = absurd h
is_empty-join sep (p ∷ []) h = h
is_empty-join sep (p ∷ q ∷ ps) h = is_empty-append p (join sep (q ∷ ps)) sep

pieces-join :
    (sep : ℕ) (ps : List Bytes)
    → All (Lacks sep) ps
    → EndsFull ps
    → pieces sep [] (join sep ps) ≡ ps
pieces-join sep [] h e = absurd e
pieces-join sep (p ∷ []) (h, _) e = pieces-plain sep p [] h
pieces-join sep (p ∷ q ∷ ps) (h, hs) e =
    let (d, r, whole) = full_text (join sep (q ∷ ps)) (is_empty-join sep (q ∷ ps) e) in
    ap (λ t. pieces sep [] (p ++ (sep ∷ t))) whole
    ∙ pieces-separated sep p [] d r h
    ∙ ap (λ t. p ∷ pieces sep [] t) (sym whole)
    ∙ ap (λ t. p ∷ t) (pieces-join sep (q ∷ ps) hs e)

parse_list_full :
    (sep : ℕ) (s : Bytes) → is_empty s ≡ false → parse_list sep s ≡ some (pieces sep [] s)
unfolding parse_list
parse_list_full sep [] h = cc
parse_list_full sep (c ∷ s) h = refl

-- A list of pieces, of which none contains the separator and the last is not empty, survives joining
-- followed by ParseList.
pub parse_list-join :
    (sep : ℕ) (ps : List Bytes)
    → All (Lacks sep) ps
    → EndsFull ps
    → parse_list sep (join sep ps) ≡ some ps
parse_list-join sep ps h e =
    parse_list_full sep (join sep ps) (is_empty-join sep ps e) ∙ ap some (pieces-join sep ps h e)

-- There is a piece at least.
pieces_full : (sep : ℕ) (s acc : Bytes) → is_empty (pieces sep acc s) ≡ false
unfolding pieces
pieces_full sep [] acc = refl
pieces_full sep (c ∷ s) acc = elim (Bool-cases (c == sep)) [
  | inl e ↦ rw e refl
  | inr e ↦ rw e (pieces_full sep s (acc ++ c ∷ []))
]

join-cons :
    (sep : ℕ) (p : Bytes) (ps : List Bytes)
    → is_empty ps ≡ false
    → join sep (p ∷ ps) ≡ p ++ (sep ∷ join sep ps)
join-cons sep p [] h = cc
join-cons sep p (q ∷ ps) h = refl

-- The pieces joined are the text, or lack only a separator at its end.
abbrev Rejoins : ℕ → List Bytes → Bytes → Type 0
Rejoins sep ps s = (join sep ps ≡ s) ⊎ (join sep ps ++ sep ∷ [] ≡ s)

rejoined :
    (sep : ℕ) (p : Bytes) (ps : List Bytes) (s : Bytes)
    → is_empty ps ≡ false
    → Rejoins sep ps s
    → Rejoins sep (p ∷ ps) (p ++ (sep ∷ s))
rejoined sep p ps s full (inl e) = inl (join-cons sep p ps full ∙ ap (λ t. p ++ (sep ∷ t)) e)
rejoined sep p ps s full (inr e) = inr (
    ap (λ t. t ++ sep ∷ []) (join-cons sep p ps full)
    ∙ append_assoc p (sep ∷ join sep ps) (sep ∷ [])
    ∙ ap (λ t. p ++ (sep ∷ t)) e)

pieces_skip :
    (sep c : ℕ) (s acc : Bytes)
    → (c == sep) ≡ false
    → pieces sep acc (c ∷ s) ≡ pieces sep (acc ++ c ∷ []) s
unfolding pieces
pieces_skip sep c s acc e = rw e refl

pieces_last : (sep : ℕ) (acc : Bytes) → pieces sep acc (sep ∷ []) ≡ acc ∷ []
unfolding pieces
pieces_last sep acc = rw (==_refl sep) refl

pieces_next :
    (sep d : ℕ) (r acc : Bytes) → pieces sep acc (sep ∷ d ∷ r) ≡ acc ∷ pieces sep [] (d ∷ r)
unfolding pieces
pieces_next sep d r acc = rw (==_refl sep) refl

-- The step at a separator: what follows is rejoined, if anything follows.
after_separator :
    (sep : ℕ) (s acc : Bytes)
    → Rejoins sep (pieces sep [] s) s
    → Rejoins sep (pieces sep acc (sep ∷ s)) (acc ++ (sep ∷ s))
after_separator sep [] acc ih =
    subst (λ ps. Rejoins sep ps (acc ++ sep ∷ [])) (sym (pieces_last sep acc)) (inr refl)
after_separator sep (d ∷ r) acc ih =
    subst (λ ps. Rejoins sep ps (acc ++ (sep ∷ d ∷ r))) (sym (pieces_next sep d r acc))
      (rejoined sep acc (pieces sep [] (d ∷ r)) (d ∷ r) (pieces_full sep (d ∷ r) []) ih)

pieces-Rejoins : (sep : ℕ) (s acc : Bytes) → Rejoins sep (pieces sep acc s) (acc ++ s)
pieces-Rejoins sep [] acc =
    subst (λ ps. Rejoins sep ps (acc ++ [])) (sym (pieces-plain sep [] acc tt)) (inl refl)
pieces-Rejoins sep (c ∷ s) acc = elim (Bool-cases (c == sep)) [
  | inl e ↦
      subst (λ x. Rejoins sep (pieces sep acc (x ∷ s)) (acc ++ (x ∷ s))) (sym ((==_iff c sep).0 e))
        (after_separator sep s acc (pieces-Rejoins sep s []))
  | inr e ↦
      subst (λ ps. Rejoins sep ps (acc ++ (c ∷ s))) (sym (pieces_skip sep c s acc e))
        (subst (Rejoins sep (pieces sep (acc ++ c ∷ []) s)) (one_more acc c s)
          (pieces-Rejoins sep s (acc ++ c ∷ [])))
]

after_separator-Lacks :
    (sep : ℕ) (s acc : Bytes)
    → Lacks sep acc
    → All (Lacks sep) (pieces sep [] s)
    → All (Lacks sep) (pieces sep acc (sep ∷ s))
after_separator-Lacks sep [] acc h ih = subst (All (Lacks sep)) (sym (pieces_last sep acc)) (h, tt)
after_separator-Lacks sep (d ∷ r) acc h ih =
    subst (All (Lacks sep)) (sym (pieces_next sep d r acc)) (h, ih)

pieces-Lacks : (sep : ℕ) (s acc : Bytes) → Lacks sep acc → All (Lacks sep) (pieces sep acc s)
pieces-Lacks sep [] acc h =
    subst (All (Lacks sep)) (sym (pieces-plain sep [] acc tt))
      (subst (Lacks sep) (sym (append-nil acc)) h, tt)
pieces-Lacks sep (c ∷ s) acc h = elim (Bool-cases (c == sep)) [
  | inl e ↦
      subst (λ x. All (Lacks sep) (pieces sep acc (x ∷ s))) (sym ((==_iff c sep).0 e))
        (after_separator-Lacks sep s acc h (pieces-Lacks sep s [] tt))
  | inr e ↦ subst (All (Lacks sep)) (sym (pieces_skip sep c s acc e)) (
      pieces-Lacks sep s (acc ++ c ∷ [])
        (All-append (λ x. x ≢ sep) acc (c ∷ []) h (ne_of_== c sep e, tt)))
]

-- ParseList makes pieces of a text that is not empty, none of which contains the separator; joined again
-- they are the text, but for a separator at its end, behind which there is no empty piece.
pub join-parse_list :
    (sep c : ℕ) (s : Bytes)
    → (ps : List Bytes) × (parse_list sep (c ∷ s) ≡ some ps)
      × All (Lacks sep) ps
      × ((join sep ps ≡ c ∷ s) ⊎ (join sep ps ++ sep ∷ [] ≡ c ∷ s))
unfolding parse_list
join-parse_list sep c s =
    (pieces sep [] (c ∷ s), refl, pieces-Lacks sep (c ∷ s) [] tt, pieces-Rejoins sep (c ∷ s) [])
