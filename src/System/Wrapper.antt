-- ===== src/System/Wrapper.antt =====
-- How the wrappers of dos/pc98/tsr_hook.S call the C code: registers and stacks. The caller's stack
-- and the resident one are lists of words, and a stack pointer is the height of the list.
pub mod Registers
use pc98imebridge.Common.{
  ◌-◌, drop, ℕ, Bool, true, false, ◌||◌, List, [], ◌∷◌, ◌++◌, length, ◌==◌, if◌then◌else◌, bit_and,
}

pub data Reg : Type 0 where
  ax bx cx dx si di bp ds es cs ss : Reg

abbrev pub number : Reg → ℕ
number ax = 0
number bx = 1
number cx = 2
number dx = 3
number si = 4
number di = 5
number bp = 6
number ds = 7
number es = 8
number cs = 9
number ss = 10

-- `old_ss` and `old_sp` are `pc98_worker_old_ss` and `pc98_worker_old_sp`; `caller` has the words
-- of the stack that they point into.
pub record Cpu : Type 0 where
  pub registers : Reg → ℕ
  pub flags : ℕ
  pub stack : List ℕ
  pub old_ss : ℕ
  pub old_sp : ℕ
  pub caller : List ℕ

abbrev pub set_register : Reg → ℕ → Cpu → Cpu
set_register r value c = record c {
  registers = λ q. if number q == number r then value else c.registers q;
}

pub data Instr : Type 0 where
  push pop : Reg → Instr
  pushf popf cli cld : Instr
  -- movw %ss, %ax
  get_ss : Instr
  -- movw %ax, %cs:pc98_worker_old_ss
  keep_ss : Instr
  -- movw %sp, %cs:pc98_worker_old_sp
  keep_sp : Instr
  -- movw $pc98_worker_stack_top, %sp
  set_top : Instr
  -- movw %cs:pc98_worker_old_ss, %ax
  take_ss : Instr
  -- movw %cs:pc98_worker_old_sp, %bx
  take_sp : Instr
  -- movw %ax, %ss
  put_ss : Instr
  -- movw %bx, %sp
  put_sp : Instr
  -- counts and tests, which change the flags
  count : Instr
  -- what the COM1 interrupt does in AX, BX and DX
  receive : Instr

-- What the code in between leaves: the C code in all registers but CS and SS, and in the flags.
pub record Left : Type 0 where
  pub called : Cpu → Reg → ℕ
  pub called_flags : Cpu → ℕ
  pub received : Cpu → Reg → ℕ
  pub counted : Cpu → ℕ

abbrev pub popped : Reg → List ℕ → Cpu → Cpu
popped r [] c = c
popped r (value ∷ stack) c = set_register r value (record c { stack = stack })

abbrev pub popped_flags : List ℕ → Cpu → Cpu
popped_flags [] c = c
popped_flags (value ∷ stack) c = record c { flags = value; stack = stack }

-- AX, BX and DX.
abbrev is_scratch : Reg → Bool
is_scratch q = number q == number ax || number q == number bx || number q == number dx

-- The words of a stack up to this height.
abbrev pub lowest : ℕ → List ℕ → List ℕ
lowest height words = drop (length words - height) words

unfoldable pub step : Left → Instr → Cpu → Cpu
step k (push r) c = record c { stack = c.registers r ∷ c.stack }
step k (pop r) c = popped r c.stack c
step k pushf c = record c { stack = c.flags ∷ c.stack }
step k popf c = popped_flags c.stack c
step k cli c = record c { flags = bit_and c.flags 0xfdff }
step k cld c = record c { flags = bit_and c.flags 0xfbff }
step k get_ss c = set_register ax (c.registers ss) c
step k keep_ss c = record c { old_ss = c.registers ax }
step k keep_sp c = record c { old_sp = length c.stack; caller = c.stack }
step k set_top c = record c { stack = [] }
step k take_ss c = set_register ax c.old_ss c
step k take_sp c = set_register bx c.old_sp c
step k put_ss c = set_register ss (c.registers ax) c
step k put_sp c = record c { stack = lowest (c.registers bx) c.caller }
step k count c = record c { flags = k.counted c }
step k receive c = record c {
  registers = λ q. if is_scratch q then k.received c q else c.registers q;
  flags = k.counted c;
}

unfoldable pub run_all : Left → List Instr → Cpu → Cpu
run_all k [] c = c
run_all k (i ∷ rest) c = run_all k rest (step k i c)

-- `call` of the C code, which returns with the stack as it was.
unfoldable pub call : Left → Cpu → Cpu
call k c = record c {
  registers =
      λ q. if number q == number cs || number q == number ss then c.registers q else k.called c q;
  flags = k.called_flags c;
}

-- The places that call C code.
pub data Wrapper : Type 0 where
  idle input returned_space timer serial_irq uninstall_prepare : Wrapper

abbrev pub save_all : List Instr
save_all =
    push ax ∷ push bx ∷ push cx ∷ push dx ∷ push si ∷ push di ∷ push bp ∷ push ds ∷ push es ∷ []

abbrev pub restore_all : List Instr
restore_all = pop es ∷ pop ds ∷ pop bp ∷ pop di ∷ pop si ∷ pop dx ∷ pop cx ∷ pop bx ∷ pop ax ∷ []

abbrev pub switch_in : List Instr
switch_in = get_ss ∷ keep_ss ∷ keep_sp ∷ push cs ∷ pop ss ∷ set_top ∷ []

abbrev pub switch_out : List Instr
switch_out = cli ∷ take_ss ∷ take_sp ∷ put_ss ∷ put_sp ∷ []

-- What the handlers do around the call, in the order of the source. The hook of INT 28h stays on the
-- caller's stack.
abbrev pub idle_entry : List Instr
idle_entry = pushf ∷ save_all ++ (push cs ∷ pop ds ∷ [])

abbrev pub idle_exit : List Instr
idle_exit = restore_all ++ popf ∷ []

abbrev pub input_entry : List Instr
input_entry = pushf ∷ count ∷ save_all ++ (push cs ∷ pop ds ∷ cli ∷ switch_in)

abbrev pub returned_space_entry : List Instr
returned_space_entry = pushf ∷ save_all ++ (push cs ∷ pop ds ∷ cli ∷ switch_in)

abbrev pub timer_entry : List Instr
timer_entry = pushf ∷ count ∷ save_all ++ (push cs ∷ pop ds ∷ cli ∷ switch_in)

abbrev pub serial_irq_entry : List Instr
serial_irq_entry =
    push ax
    ∷ push bx
    ∷ push dx
    ∷ receive
    ∷ push cx
    ∷ push si
    ∷ push di
    ∷ push bp
    ∷ push ds
    ∷ push es
    ∷ push cs
    ∷ pop ds
    ∷ cli
    ∷ switch_in

abbrev pub uninstall_entry : List Instr
uninstall_entry =
    pushf ∷ cli ∷ save_all
    ++ (get_ss ∷ keep_ss ∷ keep_sp ∷ push cs ∷ pop ds ∷ push cs ∷ pop ss ∷ set_top ∷ cld ∷ [])

abbrev pub handler_exit : List Instr
handler_exit = switch_out ++ restore_all ++ popf ∷ []

abbrev pub serial_irq_exit : List Instr
serial_irq_exit =
    switch_out
    ++ (pop es ∷ pop ds ∷ pop bp ∷ pop di ∷ pop si ∷ pop cx ∷ pop dx ∷ pop bx ∷ pop ax ∷ [])

unfoldable pub before : Wrapper → List Instr
before idle = idle_entry
before input = input_entry
before returned_space = returned_space_entry
before timer = timer_entry
before serial_irq = serial_irq_entry
before uninstall_prepare = uninstall_entry

unfoldable pub after : Wrapper → List Instr
after idle = idle_exit
after input = handler_exit
after returned_space = handler_exit
after timer = handler_exit
after serial_irq = serial_irq_exit
after uninstall_prepare = handler_exit
