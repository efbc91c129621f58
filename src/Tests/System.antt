-- ===== src/Tests/System.antt =====
-- Runs of the resident program.
use pc98imebridge.Common.{ℕ, ◌≤◌, refl, [], ◌∷◌, AreBytes, arith}
use pc98imebridge.Keyboard.Memory.{read_byte}
use pc98imebridge.Serial.Line.{default_config}
use pc98imebridge.Resident.State.{Resident}
use pc98imebridge.Resident.Service.{service_foreground}
use pc98imebridge.Resident.Hotkey.{hotkey_down}
use pc98imebridge.Resident.Deliver.Turn.{Undisturbed}
use pc98imebridge.Resident.Deliver.Rounds.{rounds, IsDelivered, rounds-IsDelivered}
use pc98imebridge.System.{installed}
use pc98imebridge.System.Input.{Answer}
use pc98imebridge.System.Wrapper.{Cpu, Left, number, input}
use pc98imebridge.System.Wrapper.Registers.{IsTransparent, wrapper-IsTransparent}
use pc98imebridge.Tests.Data.{asking, no_keys, a_and_space, ports, text_in}
use pc98imebridge.Tests.Keys.{no_keys-IsQueue}

-- The hotkey is pressed, a program asks for a key, and a byte comes in.
abbrev began : Resident
began = record (installed default_config ports no_keys) { memory = a_and_space }

a-AreBytes : AreBytes (0x41 ∷ [])
a-AreBytes = ground arith

text_in-Undisturbed : Undisturbed 1 text_in
unfolding hotkey_down read_byte
text_in-Undisturbed = record {
  released = refl;
  linked = refl;
  active = refl;
  enabled = refl;
  no_key = refl;
  none_captured = refl;
  opened = refl;
  silent = λ k. refl;
  sends = λ k. refl;
  in_time = omega arith;
}

rounds-IsDelivered_example : (k : ℕ) × (k ≤ 1) × IsDelivered text_in (rounds k text_in)
unfolding read_byte
rounds-IsDelivered_example =
    rounds-IsDelivered 1 text_in text_in-Undisturbed a-AreBytes no_keys-IsQueue (omega arith)
      (omega arith) (omega arith)

-- Enter is read.
abbrev answered : Answer
answered = record {
  ax = 0x1c0d;
  bx = 0;
  state = record (service_foreground asking) { memory = (service_foreground asking).memory };
}

-- A caller with some values in its registers, and C code that clears all of them.
abbrev caller : Cpu
caller = record {
  registers = number;
  flags = 0x0246;
  stack = 7 ∷ [];
  old_ss = 0;
  old_sp = 0;
  caller = [];
}

abbrev clearing : Left
clearing = record {
  called = λ c q. 0;
  called_flags = λ c. 0;
  received = λ c q. 1;
  counted = λ c. 2;
}

wrapper-IsTransparent_example : IsTransparent input clearing caller
wrapper-IsTransparent_example = wrapper-IsTransparent input clearing caller
