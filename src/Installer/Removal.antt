-- ===== src/Installer/Removal.antt =====
-- How `main` of dos/pc98/tsr_main.c ends with the option /U, with the signature that
-- `pc98_uninstall_resident` of dos/pc98/tsr_hook.S looks for.
use pc98imebridge.Common.{
  same_list, ℕ, ◌≡◌, refl, sym, ap, subst, ◌∙◌, true, false, Option, List, Bytes, arith, ℕ_discrete,
}
use pc98imebridge.Installer.Machine.{
  Far, Services, Labels, Image, Machine, put_image, own_signature,
}
use pc98imebridge.Installer.Hooks.{
  input_interrupt, wanted_signature, owns_hooks, uninstall_resident,
}
use pc98imebridge.Installer.Start.{
  clear_resident_state, exits, uninstall_text, uninstall_requested, uninstall, tsr_main,
}
use pc98imebridge.Installer.Endings

own-unwanted : same_list own_signature wanted_signature ≡ false
own-unwanted = refl

put_clear-signature :
    (segment s : ℕ) (images : ℕ → Image)
    → (put_image segment (clear_resident_state (images segment)) images s).signature
      ≡ (images s).signature
unfolding clear_resident_state
put_clear-signature segment s images = elim (ℕ_discrete s segment) [
  | yes same ↦
      subst
        (λ t.
          (put_image segment (clear_resident_state (images segment)) images t).signature
          ≡ (images t).signature)
        (sym same)
        (ap (λ (i : Image). i.signature)
          (Endings.put_image-same segment (clear_resident_state (images segment)) images))
  | no apart ↦
      ap (λ (i : Image). i.signature)
        (Endings.put_image-other segment s (clear_resident_state (images segment)) images apart)
]

module _ {D : Type 0} (os : Services D) (labels : Labels) where
  owns_hooks-unsigned :
      (m : Machine D) {segment : ℕ}
      → (os.get_vector input_interrupt m.dos).segment ≡ segment
      → (m.images segment).signature ≡ own_signature
      → owns_hooks os labels m ≡ false
  unfolding owns_hooks
  owns_hooks-unsigned m at own =
      let signed = ap (λ s. (m.images s).signature) at ∙ own in
      ground (arith, ap (λ w. same_list w wanted_signature) signed ∙ own-unwanted)

  uninstall-unowned :
      (m : Machine D)
      → owns_hooks os labels m ≡ false
      → ((uninstall os labels m).0 ≡ exits 1)
        × Endings.AreKept os labels m (uninstall os labels m).1
  unfolding uninstall uninstall_resident
  uninstall-unowned m unowned =
      rw unowned (refl, λ n. Endings.print_on-kept os labels n (uninstall_text 1) m)

  -- A copy that was installed and has the program's signature is refused by /U: the exit code is 1 and
  -- every vector, the hooks among them, is left as it is.
  pub tsr_main-refuses :
      (argument : Option Bytes) (settings : Option (List Bytes)) (segment other : ℕ)
      (before after : Machine D)
      → uninstall_requested argument ≡ true
      → Endings.IsHooked os labels segment before after
      → (before.images segment).signature ≡ own_signature
      → ((tsr_main os labels argument settings other after).0 ≡ exits 1)
        × Endings.AreKept os labels after (tsr_main os labels argument settings other after).1
  unfolding tsr_main
  tsr_main-refuses argument settings segment other before after asked v own =
      let cleared : Machine D = record after {
        images = put_image other (clear_resident_state (after.images other)) after.images;
      } in
      rw asked (
        uninstall-unowned cleared (
          owns_hooks-unsigned cleared (ap (λ (f : Far). f.segment) v.input)
            (put_clear-signature other segment after.images ∙ v.signature ∙ own)))
