-- ===== src/Breakpoint/Software/Restore.antt =====
-- Software breakpoints in memory: what enabling writes, and what disabling restores.
use ds.Base.{
  ℕ, ◌≡◌, refl, sym, ◌∙◌, inl, inr, Bool, true, false, not, ◌&&◌, ◌||◌, Option, none, some, [], ◌∷◌,
  Bytes, ◌==◌, if◌then◌else◌, ==_iff, ==_refl, ne_of_==, Bool-cases, Option-cases,
}
use ds.Errors.{ErrorCode, success}
use ds.Breakpoint.Sites.{Site, Map, find, store, erase, IsMap}
use ds.Breakpoint.Sites.Laws.{find-store, find-erase_ne, find-erase_self, store-IsMap, erase-IsMap}
use ds.Breakpoint.Manager.{code}
use ds.Breakpoint.Software.{Memory, Software, patch, written, restored, old_bytes, disable_location}

-- What the manager relies on: one mapped byte can be read and written, a read of an unmapped one
-- fails, and a write of no bytes does nothing.
pub record IsMemory (mem : Memory) : Type 0 where
  pub byte : mem.State → ℕ → Option ℕ
  pub read_mapped : (s : mem.State) (a b : ℕ) → byte s a ≡ some b → mem.read s a 1 ≡ inr (b ∷ [])
  pub read_unmapped :
      (s : mem.State) (a : ℕ) → byte s a ≡ none → (e : ErrorCode) × (mem.read s a 1 ≡ inl e)
  pub write_mapped :
      (s : mem.State) (a b v : ℕ)
      → byte s a ≡ some b
      → (t : mem.State) × (mem.write s a (v ∷ []) ≡ (t, success))
        × ((j : ℕ) → byte t j ≡ (if a == j then some v else byte s j))
  pub write_nothing : (s : mem.State) (a : ℕ) → mem.write s a [] ≡ (s, success)

-- A byte under a breakpoint, and what is kept of it.
abbrev pub masked : Bool → Option ℕ → Option ℕ
masked true none = none
masked true (some b) = some 0xcc
masked false o = o

abbrev pub saved : Bool → Option ℕ → Option Bytes
saved true none = none
saved true (some b) = some (b ∷ [])
saved false o = none

abbrev pub with : ℕ → (ℕ → Bool) → ℕ → Bool
with k D j = k == j || D j

abbrev pub without : ℕ → (ℕ → Bool) → ℕ → Bool
without k D j = not (k == j) && D j

module _ (mem : Memory) (laws : IsMemory mem) where
  open mem use {State, read, write}
  open laws use {byte, read_mapped, read_unmapped, write_mapped, write_nothing}

  -- The breakpoints of the addresses in `D` are in the memory, which was `orig` without them.
  pub record IsPatched (orig : State) (D : ℕ → Bool) (r : Software mem) : Type 0 where
    pub shows : (j : ℕ) → byte r.memory j ≡ masked (D j) (byte orig j)
    pub keeps : (j : ℕ) → find j r.insns ≡ saved (D j) (byte orig j)
    pub sorted : IsMap r.insns

  -- An address that is not mapped does not change what is seen.
  grow_unmapped :
      (orig : State) (D : ℕ → Bool) (k j : ℕ)
      → D k ≡ false
      → byte orig k ≡ none
      → (masked (D j) (byte orig j) ≡ masked (with k D j) (byte orig j))
        × (saved (D j) (byte orig j) ≡ saved (with k D j) (byte orig j))
  grow_unmapped orig D k j f n = elim (Bool-cases (k == j)) [
    | inl e ↦ rw (sym ((==_iff k j).0 e), f, n, ==_refl k) (refl, refl)
    | inr e ↦ rw e (refl, refl)
  ]

  -- A mapped one shows the opcode, and its byte is kept.
  grow_mapped :
      (orig : State) (D : ℕ → Bool) (k b j : ℕ)
      → byte orig k ≡ some b
      → ((if k == j then some 0xcc else masked (D j) (byte orig j))
          ≡ masked (with k D j) (byte orig j))
        × ((if k == j then some (b ∷ []) else saved (D j) (byte orig j))
            ≡ saved (with k D j) (byte orig j))
  grow_mapped orig D k b j n = elim (Bool-cases (k == j)) [
    | inl e ↦ rw (sym ((==_iff k j).0 e), n, ==_refl k) (refl, refl)
    | inr e ↦ rw e (refl, refl)
  ]

  patch_failed :
      (r : Software mem) (k : ℕ) (e : ErrorCode)
      → read r.memory k 1 ≡ inl e
      → patch mem r k (0xcc ∷ []) ≡ (r, code e)
  unfolding patch
  patch_failed r k e q = rw (q, patch) refl

  patch_done :
      (r : Software mem) (k : ℕ) (old : Bytes) (t : State)
      → read r.memory k 1 ≡ inr old
      → write r.memory k (0xcc ∷ []) ≡ (t, success)
      → patch mem r k (0xcc ∷ [])
        ≡ (record r { memory = t; insns = store k old r.insns }, code success)
  unfolding patch written
  patch_done r k old t q w = rw (q, patch) (rw w refl)

  -- Enabling a site of size 1 that is not enabled yet.
  pub patch-IsPatched :
      (orig : State) (D : ℕ → Bool) (r : Software mem) (k : ℕ)
      → IsPatched orig D r
      → D k ≡ false
      → IsPatched orig (with k D) (patch mem r k (0xcc ∷ [])).0
  patch-IsPatched orig D r k p f = elim (Option-cases (byte orig k)) [
    | inl n ↦
        let (e, q) = read_unmapped r.memory k (p.shows k ∙ rw (f, n)) in
        rw (patch_failed r k e q) (record {
          shows = λ j. p.shows j ∙ (grow_unmapped orig D k j f n).0;
          keeps = λ j. p.keeps j ∙ (grow_unmapped orig D k j f n).1;
          sorted = p.sorted;
        })
    | inr (b, n) ↦
        let here : byte r.memory k ≡ some b = p.shows k ∙ rw (f, n) in
        let (t, w, seen) = write_mapped r.memory k b 0xcc here in
        rw (patch_done r k (b ∷ []) t (read_mapped r.memory k b here) w) (record {
          shows = λ j. seen j ∙ rw (p.shows j) (grow_mapped orig D k b j n).0;
          keeps =
              λ j. find-store k j (b ∷ []) r.insns ∙ rw (p.keeps j) (grow_mapped orig D k b j n).1;
          sorted = store-IsMap k (b ∷ []) r.insns p.sorted;
        })
  ]

  -- What is seen once the byte is back.
  shrink :
      (orig : State) (D : ℕ → Bool) (k j : ℕ) (o : Option ℕ)
      → D k ≡ true
      → byte orig k ≡ o
      → ((if k == j then o else masked (D j) (byte orig j)) ≡ masked (without k D j) (byte orig j))
        × ((if k == j then none else saved (D j) (byte orig j))
            ≡ saved (without k D j) (byte orig j))
  shrink orig D k j o f n = elim (Bool-cases (k == j)) [
    | inl e ↦ rw (sym ((==_iff k j).0 e), ==_refl k, n) (refl, refl)
    | inr e ↦ rw e (refl, refl)
  ]

  find-erase :
      (k j : ℕ) (m : Map Bytes) → IsMap m → find j (erase k m) ≡ (if k == j then none else find j m)
  find-erase k j m u = elim (Bool-cases (k == j)) [
    | inl e ↦ rw (sym ((==_iff k j).0 e), ==_refl k) (find-erase_self k m u)
    | inr e ↦ rw e (find-erase_ne k j m (ne_of_== k j e))
  ]

  disable_done :
      (r : Software mem) (s : Site) (o : Option Bytes) (t : State)
      → find s.address r.insns ≡ o
      → write r.memory s.address (old_bytes mem o) ≡ (t, success)
      → disable_location mem r s
        ≡ (record r { memory = t; insns = erase s.address r.insns }, code success)
  unfolding disable_location restored
  disable_done r s o t e w = rw (e, w) refl

  -- A byte that reads as before where it is not mapped.
  same_unmapped :
      (orig : State) (D : ℕ → Bool) (k j : ℕ)
      → D k ≡ true
      → byte orig k ≡ none
      → masked (D j) (byte orig j) ≡ (if k == j then none else masked (D j) (byte orig j))
  same_unmapped orig D k j f n = elim (Bool-cases (k == j)) [
    | inl e ↦ rw (sym ((==_iff k j).0 e), ==_refl k, f, n) refl
    | inr e ↦ rw e refl
  ]

  -- Disabling a site puts its byte back, if it was mapped.
  pub disable-IsPatched :
      (orig : State) (D : ℕ → Bool) (r : Software mem) (s : Site)
      → IsPatched orig D r
      → D s.address ≡ true
      → IsPatched orig (without s.address D) (disable_location mem r s).0
  disable-IsPatched orig D r s p f =
      let k : ℕ = s.address in
      elim (Option-cases (byte orig k)) [
        | inl n ↦
            let e : find k r.insns ≡ none = p.keeps k ∙ rw (f, n) in
            rw (disable_done r s none r.memory e (unfold old_bytes in write_nothing r.memory k))
              (record {
                shows =
                    λ j. p.shows j ∙ same_unmapped orig D k j f n ∙ (shrink orig D k j none f n).0;
                keeps = λ j.
                    find-erase k j r.insns p.sorted ∙ rw (p.keeps j) (shrink orig D k j none f n).1;
                sorted = erase-IsMap k r.insns p.sorted;
              })
        | inr (b, n) ↦
            let e : find k r.insns ≡ some (b ∷ []) = p.keeps k ∙ rw (f, n) in
            let (t, w, seen) = write_mapped r.memory k 0xcc b (p.shows k ∙ rw (f, n)) in
            rw (disable_done r s (some (b ∷ [])) t e (unfold old_bytes in w)) (record {
              shows = λ j. seen j ∙ rw (p.shows j) (shrink orig D k j (some b) f n).0;
              keeps = λ j.
                  find-erase k j r.insns p.sorted
                  ∙ rw (p.keeps j) (shrink orig D k j (some b) f n).1;
              sorted = erase-IsMap k r.insns p.sorted;
            })
      ]
