-- ===== src/Breakpoint/Software.antt =====
-- Sources/Core/SoftwareBreakpointManager.cpp and, for x86, Sources/Core/X86/SoftwareBreakpointManager.cpp.
-- The memory of the process is a parameter: the operating system reads and writes it.
pub mod Restore
pub mod Sweep
pub mod Cycle
pub mod Runs
use ds.Base.{
  ℕ, ◌+◌, ◌≡◌, ◌⊎◌, inl, inr, Bool, true, false, not, ◌||◌, Option, none, some, List, [], ◌∷◌,
  Bytes, ◌==◌, if◌then◌else◌, ◌>>=◌, length,
}
use ds.Errors.{ErrorCode, success, invalid_argument}
use ds.Breakpoint.Sites.{Address, Site, Sites, Map, find, store, erase}
use ds.Breakpoint.Manager.{Manager, Methods, Returned, code, base_is_valid, clear, enable, disable}

pub record Memory : Type 1 where
  pub State : Type 0
  pub read : State → ℕ → ℕ → ErrorCode ⊎ Bytes
  pub write : State → ℕ → Bytes → State × ErrorCode

-- SoftwareBreakpointManager::getOpcode, which asserts that the type is 1.
unfoldable pub get_opcode : ℕ → Option Bytes
get_opcode type = if type == 1 then some (0xcc ∷ []) else none

-- SoftwareBreakpointManager::isValid, which asserts the mode.
unfoldable pub software_is_valid : Address → ℕ → ℕ → Option ErrorCode
software_is_valid address size mode =
    if not (mode == 1)
    then none
    else if size == 0 || size == 1
    then some (base_is_valid address)
    else some invalid_argument

module _ (mem : Memory) where
  open mem use {State, read, write}

  -- The process's memory, `_insns` and `_enabled`.
  pub record Software : Type 0 where
    pub memory : State
    pub insns : Map Bytes
    pub on : Bool

  -- Once the opcode is written, the old bytes are kept.
  written : Software → ℕ → Bytes → State × ErrorCode → Software × Returned
  written r a old (memory, success) =
      (record r { memory = memory; insns = store a old r.insns }, code success)
  written r a old (memory, error) = (record r { memory = memory }, code error)

  pub patch : Software → ℕ → Bytes → Software × Returned
  unfolding written
  patch r a opcode = elim (read r.memory a (length opcode)) [
    | inl error ↦ (r, code error)
    | inr old ↦ written r a old (write r.memory a opcode)
  ]

  unfoldable pub enable_location : Software → Site → Option (Software × Returned)
  unfolding patch get_opcode
  enable_location r site = do opcode ← get_opcode site.size; some (patch r site.address opcode)

  -- `_insns[address]` makes an empty entry where there is none.
  old_bytes : Option Bytes → Bytes
  old_bytes none = []
  old_bytes (some old) = old

  -- Once the old bytes are back, they are forgotten.
  restored : Software → ℕ → Bytes → State × ErrorCode → Software × Returned
  restored r a old (memory, success) =
      (record r { memory = memory; insns = erase a r.insns }, code success)
  restored r a old (memory, error) =
      (record r { memory = memory; insns = store a old r.insns }, code error)

  unfoldable pub disable_location : Software → Site → Software × Returned
  unfolding old_bytes restored
  disable_location r site =
      let old = old_bytes (find site.address r.insns) in
      restored r site.address old (write r.memory site.address old)

  unfoldable pub software : Methods Software
  unfolding enable_location disable_location software_is_valid
  software = record {
    is_valid = software_is_valid;
    choose_size = some 1;
    enabled = λ r. r.on;
    enable_location = λ sites r s. enable_location r s;
    disable_location = λ sites r s. some (disable_location r s);
  }

  software_clear : Manager (Software) → Manager (Software)
  software_clear m = record (clear m) { rest = record m.rest { insns = [] } }

  -- SoftwareBreakpointManager::enable and disable.
  unfoldable pub software_enable : Manager Software → Option (Manager Software)
  unfolding software
  software_enable m = do
    m' ← enable software m
    some (record m' { rest = record m'.rest { on = true } })

  unfoldable pub software_disable : Manager Software → Option (Manager Software)
  unfolding software
  software_disable m = do
    m' ← disable software m
    some (record m' { rest = record m'.rest { on = false } })
