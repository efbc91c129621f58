-- ===== src/Installer/Endings.antt =====
-- How `main` of dos/pc98/tsr_main.c ends without the option /U.
use pc98imebridge.Common.{ℕ, ◌≡◌, ◌≢◌, refl, ◌∙◌, ◌⊎◌, [], ◌∷◌, Bytes, arith}
use pc98imebridge.Installer.Machine.{Services, Labels, Image, Machine, put_image}
use pc98imebridge.Installer.Hooks.{
  input_interrupt, serial_interrupt, install_input, install_serial_irq, restore_serial_irq,
}
use pc98imebridge.Installer.Start.{resident_paragraphs, Outcome, exits, stays, put_text, print_on}

pub put_image-same :
    (segment : ℕ) (image : Image) (images : ℕ → Image)
    → put_image segment image images segment ≡ image
unfolding put_image
put_image-same segment image images = ground arith

pub put_image-other :
    (segment s : ℕ) (image : Image) (images : ℕ → Image)
    → s ≢ segment
    → put_image segment image images s ≡ images s
unfolding put_image
put_image-other segment s image images apart = ground arith

module _ {D : Type 0} (os : Services D) (labels : Labels) where
  pub put_text-kept :
      (n : ℕ) (text : Bytes) (d : D)
      → os.get_vector n (put_text os labels text d) ≡ os.get_vector n d
  unfolding put_text
  put_text-kept n [] d = refl
  put_text-kept n (c ∷ text) d = put_text-kept n text (os.put_char c d) ∙ os.put_char-kept n c d

  pub print_on-kept :
      (n : ℕ) (text : Bytes) (m : Machine D)
      → os.get_vector n (print_on os labels text m).dos ≡ os.get_vector n m.dos
  unfolding print_on
  print_on-kept n text m = put_text-kept n text m.dos

  -- The hooks are in the segment, which has saved the vectors from before. No other vector differs.
  pub record IsHooked (segment : ℕ) (before after : Machine D) : Type 0 where
    pub input :
        os.get_vector input_interrupt after.dos
        ≡ record { offset = labels.input_hook; segment = segment }
    pub serial_irq :
        os.get_vector serial_interrupt after.dos
        ≡ record { offset = labels.serial_irq_hook; segment = segment }
    pub others :
        (n : ℕ)
        → n ≢ input_interrupt
        → n ≢ serial_interrupt
        → os.get_vector n after.dos ≡ os.get_vector n before.dos
    pub saved_input : (after.images segment).saved_input ≡ os.get_vector input_interrupt before.dos
    pub saved_serial_irq :
        (after.images segment).saved_serial_irq ≡ os.get_vector serial_interrupt before.dos
    pub signature : (after.images segment).signature ≡ (before.images segment).signature

  -- INT 0Ch leads to the variable with the saved vector. No other vector differs.
  pub record IsLost (segment : ℕ) (before after : Machine D) : Type 0 where
    pub serial_irq :
        os.get_vector serial_interrupt after.dos
        ≡ record { offset = labels.old_serial_irq_vector; segment = segment }
    pub others :
        (n : ℕ) → n ≢ serial_interrupt → os.get_vector n after.dos ≡ os.get_vector n before.dos

  abbrev pub AreKept : Machine D → Machine D → Type 0
  AreKept before after = (n : ℕ) → os.get_vector n after.dos ≡ os.get_vector n before.dos

  pub data Ending (segment : ℕ) (before : Machine D) (r : Outcome × Machine D) : Type 0 where
    serial_irq_taken :
        (os.get_vector serial_interrupt before.dos).offset ≡ labels.serial_irq_hook
        → r.0 ≡ exits 1
        → AreKept before r.1
        → Ending segment before r
    input_taken :
        (os.get_vector serial_interrupt before.dos).offset ≢ labels.serial_irq_hook
        → (os.get_vector input_interrupt before.dos).offset ≡ labels.input_hook
        → r.0 ≡ exits 1
        → IsLost segment before r.1
        → Ending segment before r
    resident :
        (os.get_vector serial_interrupt before.dos).offset ≢ labels.serial_irq_hook
        → (os.get_vector input_interrupt before.dos).offset ≢ labels.input_hook
        → r.0 ≡ stays (resident_paragraphs labels)
        → IsHooked segment before r.1
        → Ending segment before r

  unfoldable pub hooked_input : ℕ → Machine D → Machine D
  hooked_input segment m = record {
    dos =
        os.set_vector input_interrupt (record { offset = labels.input_hook; segment = segment })
          m.dos;
    images =
        put_image segment
          (record (m.images segment) { saved_input = os.get_vector input_interrupt m.dos })
          m.images;
  }

  unfoldable pub hooked_serial_irq : ℕ → Machine D → Machine D
  hooked_serial_irq segment m = record {
    dos =
        os.set_vector serial_interrupt
          (record { offset = labels.serial_irq_hook; segment = segment }) m.dos;
    images =
        put_image segment
          (record (m.images segment) { saved_serial_irq = os.get_vector serial_interrupt m.dos })
          m.images;
  }

  pub install_input-cases :
      (segment : ℕ) (m : Machine D)
      → (((os.get_vector input_interrupt m.dos).offset ≡ labels.input_hook)
          × (install_input os labels segment m ≡ (1, m)))
        ⊎ (((os.get_vector input_interrupt m.dos).offset ≢ labels.input_hook)
            × (install_input os labels segment m ≡ (0, hooked_input segment m)))
  unfolding install_input hooked_input
  install_input-cases segment m = ground arith

  pub install_serial_irq-cases :
      (segment : ℕ) (m : Machine D)
      → (((os.get_vector serial_interrupt m.dos).offset ≡ labels.serial_irq_hook)
          × (install_serial_irq os labels segment m ≡ (1, m)))
        ⊎ (((os.get_vector serial_interrupt m.dos).offset ≢ labels.serial_irq_hook)
            × (install_serial_irq os labels segment m ≡ (0, hooked_serial_irq segment m)))
  unfolding install_serial_irq hooked_serial_irq
  install_serial_irq-cases segment m = ground arith

  -- INT 0Ch as the copy has just set it is taken for its own, and is replaced.
  pub restore_serial_irq-own :
      (segment : ℕ) (m : Machine D)
      → os.get_vector serial_interrupt m.dos
        ≡ record { offset = labels.serial_irq_hook; segment = segment }
      → (restore_serial_irq os labels segment m).1.dos
        ≡ os.set_vector serial_interrupt
            (record { offset = labels.old_serial_irq_vector; segment = segment })
            m.dos
  unfolding restore_serial_irq
  restore_serial_irq-own segment m own = ground (arith, own)
