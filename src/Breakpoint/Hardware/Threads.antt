-- ===== src/Breakpoint/Hardware/Threads.antt =====
-- A watchpoint in the debug registers of one thread.
use ds.Base.{ℕ, zero, suc, ◌<◌, ◌≡◌, ◌≢◌, refl, ap, ◌∙◌, inr, false, List, [], ◌∷◌, set}
use ds.Errors.{success}
use ds.Breakpoint.Control.{Bits, zeros, enable_debug_ctrl_reg, disable_debug_ctrl_reg}
use ds.Breakpoint.Control.Slots.{
  slot, encoded, Expressible, enable_debug_ctrl_reg-slot, disable_debug_ctrl_reg-slot,
}
use ds.Breakpoint.Hardware.{Cpu, DebugRegisters, enable_thread, disable_thread}

-- The debug registers are writable, and read back as they were written.
pub record IsCpu (cpu : Cpu) : Type 0 where
  pub reads_back :
      (s : cpu.State) (regs : DebugRegisters)
      → (t : cpu.State) × (cpu.write s regs ≡ (t, success)) × (cpu.read t ≡ inr regs)

set-set : (ls : List ℕ) (i a b : ℕ) → set (set ls i a) i b ≡ set ls i b
set-set [] i a b = refl
set-set (l ∷ ls) zero a b = refl
set-set (l ∷ ls) (suc i) a b = ap (λ t. l ∷ t) (set-set ls i a b)

module _ (cpu : Cpu) where
  enable_step :
      (s t : cpu.State) (regs : DebugRegisters) (idx address mode size : ℕ) (c : Bits)
      → cpu.read s ≡ inr regs
      → enable_debug_ctrl_reg regs.control idx mode size ≡ inr c
      → cpu.write s
          (record { addresses = set regs.addresses idx address; status = zeros; control = c })
        ≡ (t, success)
      → enable_thread cpu s idx address mode size ≡ (t, success)
  unfolding enable_thread
  enable_step s t regs idx address mode size c r e w =
      rw (r, enable_thread) (rw (e, enable_thread) w)

  disable_step :
      (s t : cpu.State) (regs : DebugRegisters) (idx : ℕ)
      → cpu.read s ≡ inr regs
      → cpu.write s (record regs {
        addresses = set regs.addresses idx 0;
        control = disable_debug_ctrl_reg regs.control idx;
      })
        ≡ (t, success)
      → disable_thread cpu s idx ≡ (t, success)
  unfolding disable_thread
  disable_step s t regs idx r w = rw (r, disable_thread) w

  -- On a thread whose debug registers can be written, enabling a watchpoint of an expressible mode and
  -- size succeeds: the slot then reads as the encoding of both and holds the address, and the other
  -- slots are as before. Disabling it after that succeeds too: the slot is off, its address 0, and the
  -- other slots are still as before.
  pub disable_thread-enable_thread :
      (s : cpu.State) (regs : DebugRegisters) (idx address mode size : ℕ)
      → IsCpu cpu
      → cpu.read s ≡ inr regs
      → idx < 4
      → Expressible mode size
      → (t t' : cpu.State) × (enabled disabled : DebugRegisters) × (enable_thread cpu s idx address
            mode size
          ≡ (t, success))
        × (cpu.read t ≡ inr enabled)
        × (slot enabled.control idx ≡ encoded mode size)
        × (enabled.addresses ≡ set regs.addresses idx address)
        × ((i : ℕ) → i < 4 → i ≢ idx → slot enabled.control i ≡ slot regs.control i)
        × (disable_thread cpu t idx ≡ (t', success))
        × (cpu.read t' ≡ inr disabled)
        × ((slot disabled.control idx).on ≡ false)
        × (disabled.addresses ≡ set regs.addresses idx 0)
        × ((i : ℕ) → i < 4 → i ≢ idx → slot disabled.control i ≡ slot regs.control i)
  disable_thread-enable_thread s regs idx address mode size laws r lt x =
      let (c, e, made, kept, _) = enable_debug_ctrl_reg-slot regs.control idx mode size lt x in
      let (off, still) = disable_debug_ctrl_reg-slot c idx lt in
      let up : DebugRegisters = record {
        addresses = set regs.addresses idx address;
        status = zeros;
        control = c;
      } in
      let down : DebugRegisters = record up {
        addresses = set up.addresses idx 0;
        control = disable_debug_ctrl_reg c idx;
      } in
      let (t, w, b) = laws.reads_back s up in
      let (t', w', b') = laws.reads_back t down in
      (
        t,
        t',
        up,
        down,
        enable_step s t regs idx address mode size c r e w,
        b,
        made,
        refl,
        kept,
        disable_step t t' up idx b w',
        b',
        off,
        set-set regs.addresses idx address 0,
        (λ i a n. still i a n ∙ kept i a n),
      )
