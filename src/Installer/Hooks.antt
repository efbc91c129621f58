-- ===== src/Installer/Hooks.antt =====
-- The vectors in dos/pc98/tsr_hook.S: `pc98_install_input`, `pc98_install_serial_irq`,
-- `pc98_restore_serial_irq` and `pc98_uninstall_resident`. The copy that runs has `segment` in CS, DS
-- and SS.
use pc98imebridge.Common.{same_list, ℕ, Bool, not, ◌&&◌, ◌||◌, List, [], ◌∷◌, ◌==◌, if◌then◌else◌}
use pc98imebridge.Resident.Link.{prepare_uninstall}
use pc98imebridge.Installer.Machine.{Far, Services, Labels, Image, Machine, put_image}

abbrev pub input_interrupt : ℕ
input_interrupt = 0x18

abbrev pub serial_interrupt : ℕ
serial_interrupt = 0x0c

-- The words that the uninstaller looks for.
abbrev pub wanted_signature : List ℕ
wanted_signature = 0x4953 ∷ 0x464f ∷ 0x5045 ∷ 0x3155 ∷ []

module _ {D : Type 0} (os : Services D) (labels : Labels) where
  -- The return value, 1 where the vector has the offset of the hook already.
  unfoldable pub install_input : ℕ → Machine D → ℕ × Machine D
  install_input segment m =
      let v : Far = os.get_vector input_interrupt m.dos in
      let saved = record (m.images segment) { saved_input = v } in
      let hook : Far = record { offset = labels.input_hook; segment = segment } in
      if v.offset == labels.input_hook then (1, m) else (
        0,
        record {
          dos = os.set_vector input_interrupt hook m.dos;
          images = put_image segment saved m.images;
        },
      )

  unfoldable pub install_serial_irq : ℕ → Machine D → ℕ × Machine D
  install_serial_irq segment m =
      let v : Far = os.get_vector serial_interrupt m.dos in
      let saved = record (m.images segment) { saved_serial_irq = v } in
      let hook : Far = record { offset = labels.serial_irq_hook; segment = segment } in
      if v.offset == labels.serial_irq_hook then (1, m) else (
        0,
        record {
          dos = os.set_vector serial_interrupt hook m.dos;
          images = put_image segment saved m.images;
        },
      )

  -- What is set is the address of the variable with the saved vector.
  unfoldable pub restore_serial_irq : ℕ → Machine D → ℕ × Machine D
  restore_serial_irq segment m =
      let v : Far = os.get_vector serial_interrupt m.dos in
      let back : Far = record { offset = labels.old_serial_irq_vector; segment = segment } in
      if not (v.segment == segment) || not (v.offset == labels.serial_irq_hook)
      then (1, m)
      else (0, record m { dos = os.set_vector serial_interrupt back m.dos })

  -- The ownership checks: the resident copy is that of the INT 18h vector.
  unfoldable pub owns_hooks : Machine D → Bool
  owns_hooks m =
      let input : Far = os.get_vector input_interrupt m.dos in
      let serial_irq : Far = os.get_vector serial_interrupt m.dos in
      (input.offset == labels.input_hook)
      && same_list (m.images input.segment).signature wanted_signature
      && (serial_irq.offset == labels.serial_irq_hook)
      && (serial_irq.segment == input.segment)

  -- The far call of `pc98_uninstall_prepare_entry`, and both vectors from what the copy has saved.
  unfoldable pub remove_hooks : ℕ → Machine D → Machine D
  remove_hooks resident m =
      let image : Image = m.images resident in
      let prepared : Image = record image { state = prepare_uninstall image.state } in
      record {
        dos =
            os.set_vector input_interrupt prepared.saved_input
              (os.set_vector serial_interrupt prepared.saved_serial_irq m.dos);
        images = put_image resident prepared m.images;
      }

  -- The blocks of the environment and of the program: the result, 2 and 3 where DOS refuses one.
  unfoldable pub free_blocks : ℕ → ℕ → D → ℕ × D
  free_blocks environment resident d =
      let (refused, freed) = os.free_memory environment d in
      let result = if environment == 0 then 0 else (if refused then 2 else 0) in
      let d1 : D = if environment == 0 then d else freed in
      let (kept, d2) = os.free_memory resident d1 in (if kept then 3 else result, d2)

  unfoldable pub uninstall_resident : Machine D → ℕ × Machine D
  uninstall_resident m =
      let input : Far = os.get_vector input_interrupt m.dos in
      let environment = (m.images input.segment).environment_segment in
      let removed : Machine D = remove_hooks input.segment m in
      let (result, d) = free_blocks environment input.segment removed.dos in
      if owns_hooks m then (result, record removed { dos = d }) else (1, m)
