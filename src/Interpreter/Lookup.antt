-- ===== src/Interpreter/Lookup.antt =====
-- When findHandler finds the handler of a command. Its search is a bisection, so the table must be
-- ordered not by the commands alone: a prefix handler must not be followed by a command that it
-- matches.
use Prim.Native.Nat.{Ordering}
use mathlib.Core.Path.{subst}
use ds.Base.{
  ℕ, zero, suc, ◌≡◌, ◌≢◌, refl, sym, ap, ◌∙◌, ◌⊎◌, inl, inr, none, some, List, Bytes, [], ◌∷◌, ◌++◌,
  take, drop, length, All,
}
use ds.Interpreter.{
  Mode, equals, starts_with, Handler, compare_bytes, compare_in, handler_compare, find_handler,
}
use ds.Interpreter.Order.{compare_bytes_refl, eq_of_compare_bytes, lt-append, lt_trans, take_mono}

-- What a handler is registered for: one command, or all that begin with its own.
abbrev pub Accepts : Mode → Bytes → Bytes → Type 0
Accepts equals own command = command ≡ own
Accepts starts_with own command = (rest : Bytes) × (command ≡ own ++ rest)

abbrev pub Matches : Handler → Bytes → Type 0
Matches h command = Accepts h.mode h.command command

abbrev pub Before : Handler → Handler → Type 0
Before h g = handler_compare h g.command ≡ Ordering.lt

abbrev pub IsOrdered : List Handler → Type 0
IsOrdered [] = Unit {0}
IsOrdered (h ∷ hs) = All (Before h) hs × IsOrdered hs

take_of_prefix : (s r : Bytes) → take (length s) (s ++ r) ≡ s
take_of_prefix [] r = refl
take_of_prefix (a ∷ s) r = ap (λ t. a ∷ t) (take_of_prefix s r)

prefix_of_take : (n : ℕ) (s c : Bytes) → s ≡ take n c → (rest : Bytes) × (c ≡ s ++ rest)
prefix_of_take zero s c e = (c, rw e)
prefix_of_take (suc n) s [] e = ([], rw e)
prefix_of_take (suc n) s (a ∷ c) e =
    let (rest, p) = prefix_of_take n (take n c) c refl in (rest, rw e (ap (λ t. a ∷ t) p))

Accepts-eq : (m : Mode) (own c : Bytes) → Accepts m own c → compare_in m own c ≡ Ordering.eq
unfolding compare_in
Accepts-eq equals own c h = rw h (compare_bytes_refl own)
Accepts-eq starts_with own c (rest, e) = rw (e, take_of_prefix own rest) (compare_bytes_refl own)

eq-Accepts : (m : Mode) (own c : Bytes) → compare_in m own c ≡ Ordering.eq → Accepts m own c
unfolding compare_in
eq-Accepts equals own c h = sym (eq_of_compare_bytes own c h)
eq-Accepts starts_with own c h = prefix_of_take (length own) own c (eq_of_compare_bytes own _ h)

take-append : (n : ℕ) (t r : Bytes) → (v : Bytes) × (take n (t ++ r) ≡ take n t ++ v)
take-append zero t r = ([], refl)
take-append (suc n) [] r = (take (suc n) r, refl)
take-append (suc n) (a ∷ t) r = let (v, e) = take-append n t r in (v, ap (λ x. a ∷ x) e)

-- What compares less than a text compares less than all that begins with it.
less-append :
    (m : Mode) (own t r : Bytes)
    → compare_in m own t ≡ Ordering.lt
    → compare_in m own (t ++ r) ≡ Ordering.lt
unfolding compare_in
less-append equals own t r h = lt-append own t r h
less-append starts_with own t r h =
    let (v, e) = take-append (length own) t r in rw e (lt-append own (take (length own) t) v h)

less_mono :
    (m : Mode) (own t c : Bytes)
    → compare_in m own t ≡ Ordering.lt
    → compare_bytes t c ≡ Ordering.lt
    → compare_in m own c ≡ Ordering.lt
unfolding compare_in
less_mono equals own t c h k = lt_trans own t c h k
less_mono starts_with own t c h k = elim (take_mono (length own) t c k) [
  | inl e ↦ rw (sym e) h
  | inr l ↦ lt_trans own (take (length own) t) (take (length own) c) h l
]

take-append-drop : (n : ℕ) (c : Bytes) → c ≡ take n c ++ drop n c
take-append-drop zero c = refl
take-append-drop (suc n) [] = refl
take-append-drop (suc n) (a ∷ c) = ap (λ t. a ∷ t) (take-append-drop n c)

lt_of_less :
    (m : Mode) (own c : Bytes)
    → compare_in m own c ≡ Ordering.lt
    → compare_bytes own c ≡ Ordering.lt
unfolding compare_in
lt_of_less equals own c h = h
lt_of_less starts_with own c h =
    rw (take-append-drop (length own) c)
      (lt-append own (take (length own) c) (drop (length own) c) h)

pub Before-less :
    (h g : Handler) (c : Bytes)
    → Before h g
    → handler_compare g c ≡ Ordering.lt
    → handler_compare h c ≡ Ordering.lt
unfolding handler_compare
Before-less h g c b l = less_mono h.mode h.command g.command c b (lt_of_less g.mode g.command c l)

before-Accepts :
    (m : Mode) (h : Handler) (own c : Bytes)
    → handler_compare h own ≡ Ordering.lt
    → Accepts m own c
    → handler_compare h c ≡ Ordering.lt
unfolding handler_compare
before-Accepts equals h own c b e = rw e b
before-Accepts starts_with h own c b (rest, e) = rw e (less-append h.mode h.command own rest b)

All-at {ℓ} :
    (P : Handler → Type ℓ) (xs ys : List Handler) (h : Handler) → All P (xs ++ h ∷ ys) → P h
All-at P [] ys h a = a.0
All-at P (x ∷ xs) ys h a = All-at P xs ys h a.1

-- In an ordered table, findHandler finds the handler that a command is meant for.
pub find_handler_complete :
    (xs ys : List Handler) (h : Handler) (c : Bytes)
    → IsOrdered (xs ++ h ∷ ys)
    → Matches h c
    → find_handler (xs ++ h ∷ ys) c ≡ some h
unfolding find_handler handler_compare
find_handler_complete [] ys h c o m =
    rw (Accepts-eq h.mode h.command c m) (rw (Accepts-eq h.mode h.command c m) refl)
find_handler_complete (x ∷ xs) ys h c (b, o) m =
    rw (before-Accepts h.mode x h.command c (All-at (Before x) xs ys h b) m)
      (find_handler_complete xs ys h c o m)

find-lt :
    (x : Handler) (hs : List Handler) (c : Bytes)
    → handler_compare x c ≡ Ordering.lt
    → find_handler (x ∷ hs) c ≡ find_handler hs c
unfolding find_handler
find-lt x hs c l = rw l refl

find-eq :
    (x : Handler) (hs : List Handler) (c : Bytes)
    → handler_compare x c ≡ Ordering.eq
    → find_handler (x ∷ hs) c ≡ some x
unfolding find_handler
find-eq x hs c l = rw l (rw l refl)

find-gt :
    (x : Handler) (hs : List Handler) (c : Bytes)
    → handler_compare x c ≡ Ordering.gt
    → find_handler (x ∷ hs) c ≡ none
unfolding find_handler
find-gt x hs c l = rw l (rw l refl)

Ordering-cases : (o : Ordering) → (o ≡ Ordering.lt) ⊎ (o ≡ Ordering.eq) ⊎ (o ≡ Ordering.gt)
Ordering-cases Ordering.lt = inl refl
Ordering-cases Ordering.eq = inr (inl refl)
Ordering-cases Ordering.gt = inr (inr refl)

-- Whatever findHandler returns is a handler of the table that the command is meant for, in any table.
pub find_handler_sound :
    (hs : List Handler) (c : Bytes) {h : Handler}
    → find_handler hs c ≡ some h
    → ((xs : List Handler) × (ys : List Handler) × (hs ≡ xs ++ h ∷ ys)) × Matches h c
find_handler_sound [] c e = unfold find_handler in cc
find_handler_sound (x ∷ hs) c {h} e = elim (Ordering-cases (handler_compare x c)) [
  | inl l ↦
      let (at, m) = find_handler_sound hs c (sym (find-lt x hs c l) ∙ e) in
      ((x ∷ at.0, at.1, ap (λ t. x ∷ t) at.2), m)
  | inr (inl q) ↦
      let same : x ≡ h = cc (find-eq x hs c q) in
      (
        ([], hs, ap (λ t. t ∷ hs) same),
        subst (λ t. Matches t c) same (unfold handler_compare in eq-Accepts x.mode x.command c q),
      )
  | inr (inr g) ↦ cc (find-gt x hs c g)
]

-- No handler behind the one that the search stops at compares less.
abbrev pub IsPartitioned : List Handler → Bytes → Type 0
IsPartitioned [] c = Unit {0}
IsPartitioned (h ∷ hs) c =
    (handler_compare h c ≢ Ordering.lt → All (λ g. handler_compare g c ≢ Ordering.lt) hs)
    × IsPartitioned hs c

none_less :
    (h : Handler) (hs : List Handler) (c : Bytes)
    → All (Before h) hs
    → handler_compare h c ≢ Ordering.lt
    → All (λ g. handler_compare g c ≢ Ordering.lt) hs
none_less h [] c b n = tt
none_less h (g ∷ hs) c (b, bs) n = ((λ l. n (Before-less h g c b l)), none_less h hs c bs n)

-- An ordered table is partitioned by every command, as std::lower_bound requires.
pub ordered-IsPartitioned : (hs : List Handler) (c : Bytes) → IsOrdered hs → IsPartitioned hs c
ordered-IsPartitioned [] c o = tt
ordered-IsPartitioned (h ∷ hs) c (b, o) = (none_less h hs c b, ordered-IsPartitioned hs c o)
