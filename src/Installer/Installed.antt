-- ===== src/Installer/Installed.antt =====
-- The branches of `install` of dos/pc98/tsr_main.c, followed through its two hooks.
use pc98imebridge.Common.{
  ℕ, ◌≡◌, ◌≢◌, refl, sym, ap, ◌∙◌, inl, inr, false, Option, List, Bytes, codes, ◌==◌, if◌then◌else◌,
  arith,
}
use pc98imebridge.Installer.Machine.{Far, Services, Labels, Image, Machine, put_image}
use pc98imebridge.Installer.Hooks.{
  input_interrupt, serial_interrupt, install_serial_irq, restore_serial_irq,
}
use pc98imebridge.Installer.Start.{
  configure, clear_resident_state, exits, print_on, install_second, install, uninstall_requested,
  tsr_main,
}
use pc98imebridge.Installer.Endings

configure-signature :
    (settings : Option (List Bytes)) (image : Image)
    → (configure settings image).signature ≡ image.signature
unfolding configure
configure-signature settings image = refl

clear_resident_state-signature :
    (image : Image) → (clear_resident_state image).signature ≡ image.signature
unfolding clear_resident_state
clear_resident_state-signature image = refl

module _ {D : Type 0} (os : Services D) (labels : Labels) where
  -- The INT 0Ch hook is in, and nothing else.
  record IsBegun (segment : ℕ) (before m : Machine D) : Type 0 where
    serial_irq :
        os.get_vector serial_interrupt m.dos
        ≡ record { offset = labels.serial_irq_hook; segment = segment }
    others : (n : ℕ) → n ≢ serial_interrupt → os.get_vector n m.dos ≡ os.get_vector n before.dos
    saved_serial_irq :
        (m.images segment).saved_serial_irq ≡ os.get_vector serial_interrupt before.dos
    signature : (m.images segment).signature ≡ (before.images segment).signature

  -- Neither the vectors nor the signature differ.
  record IsReady (segment : ℕ) (before m : Machine D) : Type 0 where
    kept : Endings.AreKept os labels before m
    signature : (m.images segment).signature ≡ (before.images segment).signature

  hooked_serial_irq-IsBegun :
      {segment : ℕ} {before m : Machine D}
      → IsReady segment before m
      → IsBegun segment before (Endings.hooked_serial_irq os labels segment m)
  unfolding Endings.hooked_serial_irq
  hooked_serial_irq-IsBegun {segment} {before} {m} v =
      let hook : Far = record { offset = labels.serial_irq_hook; segment = segment } in
      let image : Image = record (m.images segment) {
        saved_serial_irq = os.get_vector serial_interrupt m.dos;
      } in
      record {
        serial_irq = os.set_vector-same serial_interrupt hook m.dos;
        others = λ n apart. os.set_vector-other serial_interrupt n hook m.dos apart ∙ v.kept n;
        saved_serial_irq =
            ap (λ (i : Image). i.saved_serial_irq) (Endings.put_image-same segment image m.images)
            ∙ v.kept serial_interrupt;
        signature =
            ap (λ (i : Image). i.signature) (Endings.put_image-same segment image m.images)
            ∙ v.signature;
      }

  hooked_input-IsHooked :
      {segment : ℕ} {before m : Machine D}
      → IsBegun segment before m
      → Endings.IsHooked os labels segment before (Endings.hooked_input os labels segment m)
  unfolding Endings.hooked_input
  hooked_input-IsHooked {segment} {before} {m} v =
      let hook : Far = record { offset = labels.input_hook; segment = segment } in
      let image : Image = record (m.images segment) {
        saved_input = os.get_vector input_interrupt m.dos;
      } in
      let same = Endings.put_image-same segment image m.images in
      record {
        input = os.set_vector-same input_interrupt hook m.dos;
        serial_irq =
            os.set_vector-other input_interrupt serial_interrupt hook m.dos (omega arith)
            ∙ v.serial_irq;
        others = λ n not_input not_serial.
            os.set_vector-other input_interrupt n hook m.dos not_input ∙ v.others n not_serial;
        saved_input =
            ap (λ (i : Image). i.saved_input) same ∙ v.others input_interrupt (omega arith);
        saved_serial_irq = ap (λ (i : Image). i.saved_serial_irq) same ∙ v.saved_serial_irq;
        signature = ap (λ (i : Image). i.signature) same ∙ v.signature;
      }

  print_on-IsHooked :
      (text : Bytes) {segment : ℕ} {before m : Machine D}
      → Endings.IsHooked os labels segment before m
      → Endings.IsHooked os labels segment before (print_on os labels text m)
  print_on-IsHooked text {segment} {before} {m} v = record {
    input = Endings.print_on-kept os labels input_interrupt text m ∙ v.input;
    serial_irq = Endings.print_on-kept os labels serial_interrupt text m ∙ v.serial_irq;
    others = λ n a b. Endings.print_on-kept os labels n text m ∙ v.others n a b;
    saved_input = unfold print_on in v.saved_input;
    saved_serial_irq = unfold print_on in v.saved_serial_irq;
    signature = unfold print_on in v.signature;
  }

  -- The hook that was just set is undone the way `pc98_restore_serial_irq` does it.
  restored-IsLost :
      (text : Bytes) {segment : ℕ} {before m : Machine D}
      → IsBegun segment before m
      → Endings.IsLost os labels segment before
          (print_on os labels text (restore_serial_irq os labels segment m).1)
  restored-IsLost text {segment} {before} {m} v =
      let back : Far = record { offset = labels.old_serial_irq_vector; segment = segment } in
      let now = Endings.restore_serial_irq-own os labels segment m v.serial_irq in
      let undone : Machine D = (restore_serial_irq os labels segment m).1 in
      record {
        serial_irq =
            Endings.print_on-kept os labels serial_interrupt text undone
            ∙ ap (os.get_vector serial_interrupt) now
            ∙ os.set_vector-same serial_interrupt back m.dos;
        others = λ n apart.
            Endings.print_on-kept os labels n text undone
            ∙ ap (os.get_vector n) now
            ∙ os.set_vector-other serial_interrupt n back m.dos apart
            ∙ v.others n apart;
      }

  install_second-Ending :
      (segment : ℕ) (before m : Machine D)
      → (os.get_vector serial_interrupt before.dos).offset ≢ labels.serial_irq_hook
      → IsBegun segment before m
      → Endings.Ending os labels segment before (install_second os labels segment m)
  unfolding install_second
  install_second-Ending segment before m free v =
      let same = ap (λ (f : Far). f.offset) (v.others input_interrupt (omega arith)) in
      elim (Endings.install_input-cases os labels segment m) [
        | inl (taken, e) ↦
            rw e (Endings.input_taken free (sym same ∙ taken) refl (restored-IsLost _ v))
        | inr (open_input, e) ↦ rw e (
            Endings.resident free (λ taken. open_input (same ∙ taken)) refl
              (print_on-IsHooked _ (hooked_input-IsHooked v)))
      ]

  installed-Ending :
      (segment : ℕ) (before m : Machine D)
      → IsReady segment before m
      → (text : Bytes)
      → Endings.Ending os labels segment before (
          if (install_serial_irq os labels segment m).0 == 0
          then install_second os labels segment (install_serial_irq os labels segment m).1
          else (exits 1, print_on os labels text (install_serial_irq os labels segment m).1))
  installed-Ending segment before m v text =
      let same = ap (λ (f : Far). f.offset) (v.kept serial_interrupt) in
      elim (Endings.install_serial_irq-cases os labels segment m) [
        | inl (taken, e) ↦ rw e (
            Endings.serial_irq_taken (sym same ∙ taken) refl
              (λ n. Endings.print_on-kept os labels n text m ∙ v.kept n))
        | inr (open_serial, e) ↦ rw e (
            install_second-Ending segment before (Endings.hooked_serial_irq os labels segment m)
              (λ taken. open_serial (same ∙ taken)) (hooked_serial_irq-IsBegun v))
      ]

  print_on-images :
      (text : Bytes) (m : Machine D) (s : ℕ) → (print_on os labels text m).images s ≡ m.images s
  unfolding print_on
  print_on-images text m s = refl

  -- What `install` hands to the first hook.
  configured-IsReady :
      (settings : Option (List Bytes)) (segment : ℕ) (m : Machine D)
      → let cleared : Machine D = record m {
        images = put_image segment (clear_resident_state (m.images segment)) m.images;
      } in
        let greeted = print_on os labels (codes "IME98 TSR installing\r\n") cleared in
        IsReady segment m (record greeted {
          images = put_image segment (configure settings (greeted.images segment)) greeted.images;
        })
  configured-IsReady settings segment m =
      let cleared : Machine D = record m {
        images = put_image segment (clear_resident_state (m.images segment)) m.images;
      } in
      let greeted : Machine D = print_on os labels (codes "IME98 TSR installing\r\n") cleared in
      record {
        kept = λ n. Endings.print_on-kept os labels n (codes "IME98 TSR installing\r\n") cleared;
        signature =
            ap (λ (i : Image). i.signature)
              (Endings.put_image-same segment (configure settings (greeted.images segment))
                greeted.images)
            ∙ configure-signature settings (greeted.images segment)
            ∙ ap (λ (i : Image). i.signature)
                (print_on-images (codes "IME98 TSR installing\r\n") cleared segment)
            ∙ ap (λ (i : Image). i.signature)
                (Endings.put_image-same segment (clear_resident_state (m.images segment)) m.images)
            ∙ clear_resident_state-signature (m.images segment);
      }

  -- Without the option /U the program either finds INT 0Ch hooked and changes no vector, or finds only
  -- INT 18h hooked and leaves INT 0Ch at the variable that holds the vector from before instead of at
  -- that vector, or stays resident with both hooks in, the vectors from before saved in its segment, and
  -- every other vector as it was. The exit code of the first two is 1.
  pub tsr_main-Ending :
      (argument : Option Bytes) (settings : Option (List Bytes)) (segment : ℕ) (m : Machine D)
      → uninstall_requested argument ≡ false
      → Endings.Ending os labels segment m (tsr_main os labels argument settings segment m)
  unfolding tsr_main install
  tsr_main-Ending argument settings segment m plain = rw plain (
      installed-Ending segment m _ (configured-IsReady settings segment m)
        (codes "IME98 TSR serial hook already resident\r\n"))
