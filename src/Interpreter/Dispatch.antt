-- ===== src/Interpreter/Dispatch.antt =====
-- Every command of the session reaches its handler.
use ds.Base.{
  ℕ, zero, suc, ◌≡◌, refl, sym, ap, ◌⊎◌, inl, inr, Bool, true, ◌&&◌, some, List, [], ◌∷◌, ◌++◌,
  Bytes, arith, All, drop, Bool-cases,
}
use mathlib.Core.Path.{subst}
use ds.Interpreter.{
  Handler, compare_bytes, is_lt, handler_compare, insert, sort, register_handler, find_handler,
  lower_bound,
}
use ds.Interpreter.Lookup.{Before, IsOrdered, Matches, find_handler_complete, Before-less}
use ds.Interpreter.Table.{session_handlers, register_all, session_table, sorted_handlers}

-- Membership, with the place that it is found at.
abbrev pub In : Handler → List Handler → Type 0
In h [] = ⊥
In h (x ∷ hs) = (h ≡ x) ⊎ In h hs

In-at :
    (h : Handler) (hs : List Handler)
    → In h hs
    → (xs : List Handler) × (ys : List Handler) × (hs ≡ xs ++ h ∷ ys)
In-at h [] i = absurd i
In-at h (x ∷ hs) (inl e) = ([], hs, ap (λ t. t ∷ hs) (sym e))
In-at h (x ∷ hs) (inr i) = let (xs, ys, e) = In-at h hs i in (x ∷ xs, ys, ap (λ t. x ∷ t) e)

pub In-drop : (n : ℕ) (hs : List Handler) (h : Handler) → In h (drop n hs) → In h hs
In-drop zero hs h i = i
In-drop (suc n) [] h i = i
In-drop (suc n) (x ∷ hs) h i = inr (In-drop n hs h i)

insert-In : (h g : Handler) (hs : List Handler) → (h ≡ g) ⊎ In h hs → In h (insert g hs)
unfolding insert
insert-In h g [] i = i
insert-In h g (x ∷ hs) i = elim (Bool-cases (is_lt (compare_bytes x.command g.command))) [
  | inl less ↦ rw less (behind (λ j. insert-In h g hs j) i)
  | inr not_less ↦ rw not_less i
]
  where
    behind :
        ((h ≡ g) ⊎ In h hs → In h (insert g hs))
        → (h ≡ g) ⊎ In h (x ∷ hs)
        → (h ≡ x) ⊎ In h (insert g hs)
    behind keep (inl e) = inr (keep (inl e))
    behind keep (inr (inl e)) = inl e
    behind keep (inr (inr j)) = inr (keep (inr j))

sort-In : (h : Handler) (hs : List Handler) → In h hs → In h (sort hs)
unfolding sort
sort-In h [] i = i
sort-In h (x ∷ hs) (inl e) = insert-In h x (sort hs) (inl e)
sort-In h (x ∷ hs) (inr i) = insert-In h x (sort hs) (inr (sort-In h hs i))

append-In_left : (h : Handler) (xs ys : List Handler) → In h xs → In h (xs ++ ys)
append-In_left h [] ys i = absurd i
append-In_left h (x ∷ xs) ys (inl e) = inl e
append-In_left h (x ∷ xs) ys (inr i) = inr (append-In_left h xs ys i)

append-In_last : (h : Handler) (xs : List Handler) → In h (xs ++ h ∷ [])
append-In_last h [] = inl refl
append-In_last h (x ∷ xs) = inr (append-In_last h xs)

-- registerHandler never drops a handler, and it takes up the new one if it says so.
register_handler-In :
    (table : List Handler) (g h : Handler) → In h table → In h (register_handler table g).0
unfolding register_handler
register_handler-In table g h i =
    ground (arith, sort-In h (table ++ g ∷ []) (append-In_left h table (g ∷ []) i))

register_handler-In_new :
    (table : List Handler) (g : Handler)
    → (register_handler table g).1 ≡ true
    → In g (register_handler table g).0
unfolding register_handler
register_handler-In_new table g done =
    ground (arith, sort-In g (table ++ g ∷ []) (append-In_last g table))

register_all-In_table :
    (table hs : List Handler) (h : Handler) → In h table → In h (register_all table hs).0
unfolding register_all
register_all-In_table table [] h i = i
register_all-In_table table (g ∷ hs) h i =
    register_all-In_table (register_handler table g).0 hs h (register_handler-In table g h i)

-- If every registration succeeds, every handler is in the table.
pub register_all-In :
    (table hs : List Handler) (h : Handler)
    → (register_all table hs).1 ≡ true
    → In h hs
    → In h (register_all table hs).0
unfolding register_all
register_all-In table [] h done i = absurd i
register_all-In table (g ∷ hs) h done (inl e) = rw e (
    register_all-In_table (register_handler table g).0 hs g
      (register_handler-In_new table g (ground arith)))
register_all-In table (g ∷ hs) h done (inr i) =
    register_all-In (register_handler table g).0 hs h (ground arith) i

-- Neighbours are enough, since the order is transitive.
is_chain : Handler → List Handler → Bool
is_chain h [] = true
is_chain h (g ∷ hs) = is_lt (handler_compare h g.command) && is_chain g hs

is_ordered : List Handler → Bool
unfolding is_chain
is_ordered [] = true
is_ordered (h ∷ hs) = is_chain h hs

Before-All :
    (h g : Handler) (hs : List Handler) → Before h g → All (Before g) hs → All (Before h) hs
Before-All h g [] b bs = tt
Before-All h g (k ∷ hs) b (c, bs) = (Before-less h g k.command b c, Before-All h g hs b bs)

is_chain-IsOrdered : (h : Handler) (hs : List Handler) → is_chain h hs ≡ true → IsOrdered (h ∷ hs)
unfolding is_chain
is_chain-IsOrdered h [] e = (tt, tt)
is_chain-IsOrdered h (g ∷ hs) e =
    let b : Before h g = ground arith in
    let (bs, rest) = is_chain-IsOrdered g hs (ground arith) in
    ((b, Before-All h g hs b bs), (bs, rest))

is_ordered-IsOrdered : (hs : List Handler) → is_ordered hs ≡ true → IsOrdered hs
unfolding is_ordered
is_ordered-IsOrdered [] e = tt
is_ordered-IsOrdered (h ∷ hs) e = is_chain-IsOrdered h hs e

registered : register_all [] session_handlers ≡ (sorted_handlers, true)
unfolding register_all session_handlers sorted_handlers register_handler find_handler
    handler_compare lower_bound sort compare_bytes insert
registered = refl

pub table_sorted : session_table ≡ sorted_handlers
unfolding session_table
table_sorted = ap (λ r. r.0) registered

sorted_handlers-In : (h : Handler) → In h session_handlers → In h sorted_handlers
sorted_handlers-In h i =
    subst (In h) (ap (λ r. r.0) registered)
      (register_all-In [] session_handlers h (ap (λ r. r.1) registered) i)

sorted_ordered : is_ordered sorted_handlers ≡ true
unfolding sorted_handlers handler_compare compare_bytes is_ordered
sorted_ordered = refl

-- Every handler that the session registers is found for every command that it is registered for: no
-- handler of the table hides another, in spite of the prefix handlers and of the bisection.
pub session-find_handler :
    (h : Handler) (c : Bytes)
    → In h session_handlers
    → Matches h c
    → find_handler session_table c ≡ some h
session-find_handler h c i m =
    let (xs, ys, e) = In-at h sorted_handlers (sorted_handlers-In h i) in
    let o : IsOrdered (xs ++ h ∷ ys) =
      rw (sym e) (is_ordered-IsOrdered sorted_handlers sorted_ordered) in
    rw (table_sorted, e) (find_handler_complete xs ys h c o m)
