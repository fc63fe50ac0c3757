-- ===== src/Arm/Step/Placed.antt =====
-- PrepareSoftwareSingleStep of Sources/Architecture/ARM/SoftwareSingleStep.cpp with
-- SoftwareBreakpointManager::add of Sources/Core/ARM/SoftwareBreakpointManager.cpp: the breakpoints
-- that are set.
use mathlib.Core.Path.{subst}
use ds.Base.{
  ℕ, ◌≡◌, refl, ap, ◌∙◌, ◌≢◌, ◌⊎◌, inl, inr, Bool, true, false, ◌||◌, some, ◌==◌, if_both, sym,
  arith,
}
use ds.Errors.{ErrorCode, success, invalid_argument}
use ds.Arm.Step.{Cpu, Targets, unset_pc, done}
use ds.Arm.Step.Prepare.{start_pc, targets, place, place_next, place_targets, prepare}
use ds.Arm.Step.Added.{M, IsPlaced, place-IsPlaced, one_shot_at, one_shot_at-store}
use ds.Arm.Step.Sized.{OnDone, is_size, IsSized, prepare_thumb-IsSized, prepare_arm-IsSized}
use ds.Arm.Breakpoints.{without_thumb_bit}
use ds.Breakpoint.Sites.{Address}
use ds.Breakpoint.Manager.{Returned, code}
use ds.Breakpoint.Software.{Memory}

or_left : (b c : Bool) → b ≡ true → (b || c) ≡ true
or_left b c h = ground arith

or_right : (b c : Bool) → c ≡ true → (b || c) ≡ true
or_right b c h = ground arith

or_map : (b c d : Bool) → (c ≡ true → d ≡ true) → (b || c) ≡ true → (b || d) ≡ true
or_map true c d f h = refl
or_map false c d f h = f h

code_ne : code success ≢ code invalid_argument
code_ne e = cc

decided :
    {P : Type 0} (result : Returned) → (result ≡ code success → P) → (result ≢ code success) ⊎ P
decided (code success) f = inr (f refl)
decided result f = inl (λ e. cc)

module _ (mem : Memory) (read_cpu_state : mem.State → ErrorCode ⊎ Cpu) where
  -- An address is unset, or a one-shot breakpoint is there.
  abbrev pub IsCovered : M mem read_cpu_state → ℕ → Type 0
  IsCovered m pc = (pc == unset_pc || one_shot_at m.sites (without_thumb_bit pc)) ≡ true

  placed-IsCovered :
      (m : M mem read_cpu_state) (pc : ℕ) (r : M mem read_cpu_state × Returned)
      → IsPlaced mem read_cpu_state m pc r
      → r.1 ≡ code success
      → IsCovered r.0 pc
  placed-IsCovered m pc (m', result) (inl (free, same, ok)) h = or_left _ _ free
  placed-IsCovered m pc (m', result) (inr (inl (s, e, shot))) h =
      let a = without_thumb_bit pc in
      or_right _ _ (
        subst (λ x. one_shot_at x a ≡ true) (sym e)
          (one_shot_at-store a a s m.sites shot (inl refl)))
  placed-IsCovered m pc (m', result) (inr (inr (same, bad))) h = absurd (code_ne (sym h ∙ bad))

  placed-keeps :
      (m : M mem read_cpu_state) (pc j : ℕ) (r : M mem read_cpu_state × Returned)
      → IsPlaced mem read_cpu_state m pc r
      → IsCovered m j
      → IsCovered r.0 j
  placed-keeps m pc j (m', result) (inl (free, same, ok)) h =
      subst (λ x. IsCovered x j) (sym same) h
  placed-keeps m pc j (m', result) (inr (inl (s, e, shot))) h =
      or_map _ _ _
        (λ known.
          subst (λ x. one_shot_at x (without_thumb_bit j) ≡ true) (sym e)
            (one_shot_at-store (without_thumb_bit pc) _ s m.sites shot (inr known)))
        h
  placed-keeps m pc j (m', result) (inr (inr (same, bad))) h =
      subst (λ x. IsCovered x j) (sym same) h

  -- The second place, once the first one returned a code.
  place_next-done :
      (t : Targets) (m m' : M mem read_cpu_state) (result : Returned)
      → place mem read_cpu_state m t.branch_pc t.branch_size ≡ some (m', result)
      → IsPlaced mem read_cpu_state m t.branch_pc (m', result)
      → (t.next_pc == unset_pc || is_size t.next_size) ≡ true
      → (r : M mem read_cpu_state × Returned) × (place_targets mem read_cpu_state m (done t)
          ≡ some r)
        × (r.1 ≡ code success → IsCovered r.0 t.branch_pc × IsCovered r.0 t.next_pc)
  unfolding place_targets place_next
  place_next-done t m m' (code success) e placed next =
      let (r, e', placed') = place-IsPlaced mem read_cpu_state m' t.next_pc t.next_size next in
      (
        r,
        rw e e',
        λ ok. (
          placed-keeps m' t.next_pc t.branch_pc r placed'
              (placed-IsCovered m t.branch_pc (m', code success) placed refl),
          placed-IsCovered m' t.next_pc r placed' ok,
        ),
      )
  place_next-done t m m' result e placed next = ((m', result), rw e refl, λ ok. cc)

  -- Both places, one after the other.
  place_targets-done :
      (m : M mem read_cpu_state) (t : Targets)
      → IsSized t
      → (r : M mem read_cpu_state × Returned) × (place_targets mem read_cpu_state m (done t)
          ≡ some r)
        × (r.1 ≡ code success → IsCovered r.0 t.branch_pc × IsCovered r.0 t.next_pc)
  unfolding place_targets
  place_targets-done m t (next, branch, some_set) =
      let ((m', result), e, placed) =
        place-IsPlaced mem read_cpu_state m t.branch_pc t.branch_size branch in
      place_next-done t m m' result e placed next

  targets-IsSized :
      (memory : mem.State) (cpu : Cpu) (address : Address)
      → OnDone IsSized (targets mem read_cpu_state memory cpu address)
  unfolding targets
  targets-IsSized memory cpu address =
      if_both (OnDone IsSized) cpu.thumb
        (prepare_thumb-IsSized mem memory (start_pc cpu address) cpu)
        (prepare_arm-IsSized mem memory (start_pc cpu address) cpu)

  -- Once the instruction at the start address is decoded into targets (of ARM or of Thumb, as the
  -- state says), PrepareSoftwareSingleStep fails no assertion and chooses no size by DS2BUG, whatever
  -- the manager holds and however memory behaves: it returns. At least one target has a size, and
  -- either it does not return kSuccess or the branch's target and the next instruction each have a
  -- one-shot breakpoint, unless they are unset.
  pub prepare_places :
      (m : M mem read_cpu_state) (cpu : Cpu) (address : Address) (t : Targets)
      → targets mem read_cpu_state m.rest.memory cpu address ≡ done t
      → (is_size t.next_size || is_size t.branch_size) ≡ true
        × ((r : M mem read_cpu_state × Returned) × (prepare mem read_cpu_state m cpu address
              ≡ some r)
            × ((r.1 ≢ code success) ⊎ (IsCovered r.0 t.branch_pc × IsCovered r.0 t.next_pc)))
  unfolding prepare
  prepare_places m cpu address t e =
      let (next, branch, some_set) =
        subst (OnDone IsSized) e (targets-IsSized m.rest.memory cpu address) in
      let (r, placed, covered) = place_targets-done m t (next, branch, some_set) in
      (some_set, (r, ap (place_targets mem read_cpu_state m) e ∙ placed, decided r.1 covered))
