-- ===== src/Installer/Start.antt =====
-- `main` of dos/pc98/tsr_main.c.
use pc98imebridge.Common.{
  ℕ, ◌+◌, Bool, false, ◌&&◌, ◌||◌, Option, none, some, List, [], ◌∷◌, ◌++◌, Bytes, codes, ◌==◌,
  if◌then◌else◌, get_or, u16, ◌>>>◌,
}
use pc98imebridge.Serial.Line.{Config, Line}
use pc98imebridge.Serial.Settings.{load_config}
use pc98imebridge.Resident.State.{Resident}
use pc98imebridge.System.{installed}
use pc98imebridge.Installer.Machine.{Far, Services, Labels, Image, Machine, put_image}
use pc98imebridge.Installer.Hooks.{
  install_input, install_serial_irq, restore_serial_irq, uninstall_resident,
}

-- `option` is `argv[1]`, if there is one; behind its last character it has a 0.
unfoldable pub uninstall_requested : Option Bytes → Bool
uninstall_requested none = false
uninstall_requested (some option) =
    (get_or option 0 0 == b'/' || get_or option 0 0 == b'-')
    && (get_or option 1 0 == b'U' || get_or option 1 0 == b'u')
    && (get_or option 2 0 == 0)

-- `pc98_hotkey_set_defaults`
abbrev pub hotkey_defaults : Config → Config
hotkey_defaults config = record config { hotkey_modifier_mask = 0x01 }

abbrev pub no_vector : Far
no_vector = record { offset = 0; segment = 0 }

-- The variables without an initial value are 0; the settings keep theirs, and the machine behind the
-- ports and in the BIOS memory is what it was.
unfoldable pub clear_resident_state : Image → Image
clear_resident_state image =
    let line : Line = image.state.line in
    record image {
      saved_input = no_vector;
      saved_serial_irq = no_vector;
      state = installed (hotkey_defaults line.config) line.ports image.state.memory;
    }

-- The settings are read. The opening of the debug port is an empty macro in the release build.
unfoldable pub configure : Option (List Bytes) → Image → Image
configure settings image =
    let state : Resident = image.state in
    let line : Line = state.line in
    let read : Line = record line { config = (load_config settings line.config).1 } in
    record image { state = record state { line = read } }

-- The size, in units of 16 bytes, of what stays resident.
unfoldable pub resident_paragraphs : Labels → ℕ
resident_paragraphs labels = u16 (u16 labels.resident_end + 16) >>> 4

abbrev pub hotkey_name : ℕ → Bytes
hotkey_name mask =
    if mask == 0x08
    then codes "Graph+Space"
    else if mask == 0x10
    then codes "Ctrl+Space"
    else codes "Shift+Space"

-- How the program ends: with an exit code, or resident with so many paragraphs.
pub data Outcome : Type 0 where
  exits : ℕ → Outcome
  stays : ℕ → Outcome

-- What is told of a result of `pc98_uninstall_resident`.
abbrev pub uninstall_text : ℕ → Bytes
uninstall_text result =
    if result == 0
    then codes "IME98 TSR unloaded; memory released\r\n"
    else if result == 2
    then codes "IME98 TSR unloaded; environment memory not released\r\n"
    else if result == 3
    then codes "IME98 TSR hooks removed; resident memory not released\r\n"
    else codes "IME98 TSR is not installed or cannot be unloaded safely\r\n"

abbrev pub uninstall_code : ℕ → ℕ
uninstall_code result = if result == 0 || result == 2 || result == 3 then result else 1

module _ {D : Type 0} (os : Services D) (labels : Labels) where
  -- `dos_print`
  unfoldable pub put_text : Bytes → D → D
  put_text [] d = d
  put_text (c ∷ text) d = put_text text (os.put_char c d)

  unfoldable pub print_on : Bytes → Machine D → Machine D
  print_on text m = record m { dos = put_text text m.dos }

  -- From the INT 18h hook on.
  unfoldable pub install_second : ℕ → Machine D → Outcome × Machine D
  install_second segment m =
      let (taken, hooked) = install_input os labels segment m in
      let mask = (hooked.images segment).state.line.config.hotkey_modifier_mask in
      let told : Machine D =
        print_on
          (codes "IME98 TSR resident ("
            ++ hotkey_name mask
            ++ codes ": IME ON / Bridge Esc: IME OFF)\r\n")
          hooked in
      let undone : Machine D = (restore_serial_irq os labels segment hooked).1 in
      if taken == 0
      then (stays (resident_paragraphs labels), told)
      else (exits 1, print_on (codes "IME98 TSR input hook already resident\r\n") undone)

  unfoldable pub install : Option (List Bytes) → ℕ → Machine D → Outcome × Machine D
  install settings segment m =
      let greeted : Machine D = print_on (codes "IME98 TSR installing\r\n") m in
      let image : Image = configure settings (greeted.images segment) in
      let ready : Machine D = record greeted { images = put_image segment image greeted.images } in
      let (taken, hooked) = install_serial_irq os labels segment ready in
      if taken == 0
      then install_second segment hooked
      else (exits 1, print_on (codes "IME98 TSR serial hook already resident\r\n") hooked)

  unfoldable pub uninstall : Machine D → Outcome × Machine D
  uninstall m =
      let (result, removed) = uninstall_resident os labels m in
      (exits (uninstall_code result), print_on (uninstall_text result) removed)

  -- The copy that runs has `segment` in CS.
  unfoldable pub tsr_main : Option Bytes → Option (List Bytes) → ℕ → Machine D → Outcome × Machine D
  tsr_main argument settings segment m =
      let image : Image = clear_resident_state (m.images segment) in
      let cleared : Machine D = record m { images = put_image segment image m.images } in
      if uninstall_requested argument then uninstall cleared else install settings segment cleared
