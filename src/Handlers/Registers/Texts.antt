-- ===== src/Handlers/Registers/Texts.antt =====
-- Sources/GDBRemote/Session.cpp: the registers that g prints, read by G.
use ds.Base.{
  ℕ, ◌+◌, ◌*◌, ◌/◌, ◌≡◌, ◌⊎◌, refl, sym, ap, ◌∙◌, inl, inr, false, List, [], ◌∷◌, ◌++◌, Bytes,
  length, take, drop, take-append, drop-append, length-append, All, arith,
}
use ds.Structures.CpuTypes.{Endian}
use ds.Structures.Stops.{is_lldb}
use ds.Handlers.Calls.{on_write_general_registers}
use ds.Handlers.World.{Delegate, World, report}
use ds.Handlers.Scan.{format_address}
use ds.Handlers.Scan.Addresses.{Fits, parse_address-format_address, length-format_address}
use ds.Handlers.Memory.{or_invalid}
use ds.Handlers.Registers.{parse_registers, format_registers, thread_of, handle_upper_g}

module _ (regsize : ℕ) (endian : Endian) where
  abbrev width : ℕ
  width = regsize / 8 * 2

  first_register :
      (value : ℕ) (rest : Bytes)
      → Fits regsize value
      → (take width (format_address regsize endian value ++ rest)
          ≡ format_address regsize endian value)
        × (drop width (format_address regsize endian value ++ rest) ≡ rest)
  first_register value rest fits =
      let text = format_address regsize endian value in
      let wide = length-format_address regsize endian value fits in
      (
        ap (λ n. take n (text ++ rest)) (sym wide) ∙ take-append text rest,
        ap (λ n. drop n (text ++ rest)) (sym wide) ∙ drop-append text rest,
      )

  pub parse_registers-format_registers :
      (regs : List ℕ)
      → All (Fits regsize) regs
      → parse_registers regsize endian width (length regs) (format_registers regsize endian regs)
        ≡ regs
  unfolding parse_registers format_registers
  parse_registers-format_registers [] h = refl
  parse_registers-format_registers (value ∷ regs) (fits, h) =
      let (first, others) = first_register value (format_registers regsize endian regs) fits in
      rw (first, others, parse_address-format_address regsize endian value fits)
        (ap (λ l. value ∷ l) (parse_registers-format_registers regs h))

  length-format_registers :
      (regs : List ℕ)
      → All (Fits regsize) regs
      → length (format_registers regsize endian regs) ≡ length regs * width
  unfolding format_registers
  length-format_registers [] h = omega arith
  length-format_registers (value ∷ regs) (fits, h) =
      length-append (format_address regsize endian value) (format_registers regsize endian regs)
      ∙ ap (λ n. n + length (format_registers regsize endian regs))
          (length-format_address regsize endian value fits)
      ∙ ap (λ n. width + n) (length-format_registers regs h)
      ∙ grind arith

whole_registers :
    (n regsize : ℕ)
    → (regsize ≡ 32) ⊎ (regsize ≡ 64)
    → n * (regsize / 8 * 2) / (regsize / 8 * 2) ≡ n
whole_registers n regsize (inl e) = rw e (omega arith)
whole_registers n regsize (inr e) = rw e (omega arith)

module _ (d : Delegate) where
  open d use {native, get_gpr_size}

  -- For a debugger that is not LLDB, G with the text that g prints for some registers, of the 32 or 64 bits
  -- of the target's, asks the delegate to write the same values to the thread that H or a stop has selected
  -- for g, and reports how that went.
  pub upper_g-format_registers :
      (regs : List ℕ) (w : World d)
      → is_lldb w.session.mode ≡ false
      → (get_gpr_size w.target ≡ 32) ⊎ (get_gpr_size w.target ≡ 64)
      → All (Fits (get_gpr_size w.target)) regs
      → handle_upper_g d (format_registers (get_gpr_size w.target) native regs) w
        ≡ report d (on_write_general_registers (w.session.ptids b'g') regs) w
  unfolding handle_upper_g or_invalid thread_of
  upper_g-format_registers regs w other sizes fits =
      let regsize = get_gpr_size w.target in
      let text = format_registers regsize native regs in
      let count : length text / (regsize / 8 * 2) ≡ length regs =
        ap (λ n. n / (regsize / 8 * 2)) (length-format_registers regsize native regs fits)
        ∙ whole_registers (length regs) regsize sizes in
      rw (other, count, parse_registers-format_registers regsize native regs fits) refl
