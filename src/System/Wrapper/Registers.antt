-- ===== src/System/Wrapper/Registers.antt =====
-- What the wrappers keep for their callers, and what they give the C code.
use pc98imebridge.Common.{
  ℕ, ◌≡◌, refl, ap, ◌∙◌, Bool, true, false, List, [], ◌∷◌, ◌++◌, length, drop, arith,
}
use pc98imebridge.System.Wrapper.{
  Reg, ax, bx, cx, dx, si, di, bp, ds, es, cs, ss, Cpu, Left, Instr, pop, popf, cli, take_ss,
  take_sp, put_ss, step, run_all, call, lowest, switch_out, restore_all, Wrapper, idle, input,
  returned_space, timer, serial_irq, uninstall_prepare, before, after,
}

-- All but the COM1 interrupt, whose IRET takes the flags from the caller's stack.
abbrev pub restores_flags : Wrapper → Bool
restores_flags idle = true
restores_flags input = true
restores_flags returned_space = true
restores_flags timer = true
restores_flags serial_irq = false
restores_flags uninstall_prepare = true

-- All but the hook of INT 28h.
abbrev pub switches_stack : Wrapper → Bool
switches_stack idle = false
switches_stack input = true
switches_stack returned_space = true
switches_stack timer = true
switches_stack serial_irq = true
switches_stack uninstall_prepare = true

-- The state behind the whole handler.
abbrev pub handled : Wrapper → Left → Cpu → Cpu
handled w k c = run_all k (after w) (call k (run_all k (before w) c))

-- The C code runs with DS the program's own segment, and where the stack is switched with SS the same
-- and the resident stack empty; behind it every register and the stack are those of the caller, and
-- so are the flags where they are restored.
pub record IsTransparent (w : Wrapper) (k : Left) (c : Cpu) : Type 0 where
  pub own_data : (run_all k (before w) c).registers ds ≡ c.registers cs
  pub own_stack :
      switches_stack w ≡ true
      → ((run_all k (before w) c).registers ss ≡ c.registers cs)
        × ((run_all k (before w) c).stack ≡ [])
  pub registers_kept : (q : Reg) → (handled w k c).registers q ≡ c.registers q
  pub stack_kept : (handled w k c).stack ≡ c.stack
  pub flags_kept : restores_flags w ≡ true → (handled w k c).flags ≡ c.flags

-- The registers one by one.
same_registers :
    (f g : Reg → ℕ)
    → f ax ≡ g ax
    → f bx ≡ g bx
    → f cx ≡ g cx
    → f dx ≡ g dx
    → f si ≡ g si
    → f di ≡ g di
    → f bp ≡ g bp
    → f ds ≡ g ds
    → f es ≡ g es
    → f cs ≡ g cs
    → f ss ≡ g ss
    → (q : Reg) → f q ≡ g q
same_registers _ _ a b c d e f g h i j k ax = a
same_registers _ _ a b c d e f g h i j k bx = b
same_registers _ _ a b c d e f g h i j k cx = c
same_registers _ _ a b c d e f g h i j k dx = d
same_registers _ _ a b c d e f g h i j k si = e
same_registers _ _ a b c d e f g h i j k di = f
same_registers _ _ a b c d e f g h i j k bp = g
same_registers _ _ a b c d e f g h i j k ds = h
same_registers _ _ a b c d e f g h i j k es = i
same_registers _ _ a b c d e f g h i j k cs = j
same_registers _ _ a b c d e f g h i j k ss = k

lowest_all : (words : List ℕ) → lowest (length words) words ≡ words
lowest_all words = ap (λ n. drop n words) {y = 0} (omega arith)

-- The caller's stack is taken back whole, when its height was kept.
abbrev switched : Left → Cpu → Cpu
switched k e = record (run_all k (cli ∷ take_ss ∷ take_sp ∷ put_ss ∷ []) e) { stack = e.caller }

switch_out_lem :
    (k : Left) (rest : List Instr) (e : Cpu)
    → e.old_sp ≡ length e.caller
    → run_all k (switch_out ++ rest) e ≡ run_all k rest (switched k e)
unfolding run_all step
switch_out_lem k rest e kept =
    ap
      (λ words.
        run_all k rest
          (record (run_all k (cli ∷ take_ss ∷ take_sp ∷ put_ss ∷ []) e) { stack = words }))
      (ap (λ height. lowest height e.caller) kept ∙ lowest_all e.caller)

-- The instructions behind the switch of the stacks, and the state that they start from.
abbrev rest_of : Wrapper → List Instr
rest_of idle = restore_all ++ popf ∷ []
rest_of input = restore_all ++ popf ∷ []
rest_of returned_space = restore_all ++ popf ∷ []
rest_of timer = restore_all ++ popf ∷ []
rest_of serial_irq =
    pop es ∷ pop ds ∷ pop bp ∷ pop di ∷ pop si ∷ pop cx ∷ pop dx ∷ pop bx ∷ pop ax ∷ []
rest_of uninstall_prepare = restore_all ++ popf ∷ []

abbrev back : Wrapper → Left → Cpu → Cpu
back idle k e = e
back input k e = switched k e
back returned_space k e = switched k e
back timer k e = switched k e
back serial_irq k e = switched k e
back uninstall_prepare k e = switched k e

abbrev ended : Wrapper → Left → Cpu → Cpu
ended w k c = run_all k (rest_of w) (back w k (call k (run_all k (before w) c)))

handled-ended : (w : Wrapper) (k : Left) (c : Cpu) → handled w k c ≡ ended w k c
unfolding run_all step call before after
handled-ended idle k c = refl
handled-ended input k c =
    switch_out_lem k (rest_of input) (call k (run_all k (before input) c)) refl
handled-ended returned_space k c =
    switch_out_lem k (rest_of returned_space) (call k (run_all k (before returned_space) c)) refl
handled-ended timer k c =
    switch_out_lem k (rest_of timer) (call k (run_all k (before timer) c)) refl
handled-ended serial_irq k c =
    switch_out_lem k (rest_of serial_irq) (call k (run_all k (before serial_irq) c)) refl
handled-ended uninstall_prepare k c =
    switch_out_lem k (rest_of uninstall_prepare) (call k (run_all k (before uninstall_prepare) c))
      refl

registers_ended :
    (w : Wrapper) (k : Left) (c : Cpu) (q : Reg) → (ended w k c).registers q ≡ c.registers q
unfolding run_all step call before
registers_ended idle k c = same_registers _ _ refl refl refl refl refl refl refl refl refl refl refl
registers_ended input k c =
    same_registers _ _ refl refl refl refl refl refl refl refl refl refl refl
registers_ended returned_space k c =
    same_registers _ _ refl refl refl refl refl refl refl refl refl refl refl
registers_ended timer k c =
    same_registers _ _ refl refl refl refl refl refl refl refl refl refl refl
registers_ended serial_irq k c =
    same_registers _ _ refl refl refl refl refl refl refl refl refl refl refl
registers_ended uninstall_prepare k c =
    same_registers _ _ refl refl refl refl refl refl refl refl refl refl refl

stack_ended : (w : Wrapper) (k : Left) (c : Cpu) → (ended w k c).stack ≡ c.stack
unfolding run_all step call before
stack_ended idle k c = refl
stack_ended input k c = refl
stack_ended returned_space k c = refl
stack_ended timer k c = refl
stack_ended serial_irq k c = refl
stack_ended uninstall_prepare k c = refl

flags_ended :
    (w : Wrapper) (k : Left) (c : Cpu) → restores_flags w ≡ true → (ended w k c).flags ≡ c.flags
unfolding run_all step call before
flags_ended idle k c e = refl
flags_ended input k c e = refl
flags_ended returned_space k c e = refl
flags_ended timer k c e = refl
flags_ended serial_irq k c e = absurd cc
flags_ended uninstall_prepare k c e = refl

own_data :
    (w : Wrapper) (k : Left) (c : Cpu) → (run_all k (before w) c).registers ds ≡ c.registers cs
unfolding run_all step before
own_data idle k c = refl
own_data input k c = refl
own_data returned_space k c = refl
own_data timer k c = refl
own_data serial_irq k c = refl
own_data uninstall_prepare k c = refl

own_stack :
    (w : Wrapper) (k : Left) (c : Cpu)
    → switches_stack w ≡ true
    → ((run_all k (before w) c).registers ss ≡ c.registers cs)
      × ((run_all k (before w) c).stack ≡ [])
unfolding run_all step before
own_stack idle k c e = absurd cc
own_stack input k c e = (refl, refl)
own_stack returned_space k c e = (refl, refl)
own_stack timer k c e = (refl, refl)
own_stack serial_irq k c e = (refl, refl)
own_stack uninstall_prepare k c e = (refl, refl)

-- Whatever the C code and the counting leave in the registers and the flags, around each of the six
-- calls of C code the handler gives its caller back all registers, the stack, and the flags that it
-- saved, and calls the C code with DS at the program's segment; all but the hook of INT 28h, which
-- stays on the caller's stack, call it on the resident stack with SS at that segment too.
pub wrapper-IsTransparent : (w : Wrapper) (k : Left) (c : Cpu) → IsTransparent w k c
wrapper-IsTransparent w k c =
    let e = handled-ended w k c in
    record {
      own_data = own_data w k c;
      own_stack = own_stack w k c;
      registers_kept = λ q. ap (λ r. r.registers q) e ∙ registers_ended w k c q;
      stack_kept = ap (λ r. r.stack) e ∙ stack_ended w k c;
      flags_kept = λ f. ap (λ r. r.flags) e ∙ flags_ended w k c f;
    }
