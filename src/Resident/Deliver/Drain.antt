-- ===== src/Resident/Deliver/Drain.antt =====
-- A program that reads the keys of the BIOS queue until there is none.
use pc98imebridge.Common.{
  ℕ, zero, suc, ◌≤◌, ◌≡◌, refl, sym, ap, ap₂, ◌∙◌, ◌⊎◌, inl, inr, Bool, true, false, List, [], ◌∷◌,
  length, arith,
}
use pc98imebridge.Keyboard.Memory.{Memory}
use pc98imebridge.Keyboard.Queue.{dequeue}
use pc98imebridge.Keyboard.Queue.Ring.{
  head_slot, window, count, contents, IsElsewhere, IsQueue, length-window,
}
use pc98imebridge.Keyboard.Queue.Oldest.{pop, dequeue_refines}

-- A program reads keys until there is none, at most `n`.
unfoldable pub drain : ℕ → Memory → List ℕ × Memory
drain zero m = ([], m)
drain (suc n) m =
    let (found, key, m') = dequeue m in
    elim found [ false ↦ ([], m) | true ↦ let (later, rest) = drain n m' in (key ∷ later, rest) ]

pop-found :
    (q : List ℕ) {found : Bool} {key : ℕ} {rest : List ℕ}
    → (found, key, rest) ≡ pop q
    → ((found ≡ true) × (q ≡ key ∷ rest)) ⊎ ((found ≡ false) × (q ≡ []))
unfolding pop
pop-found [] e = inr (ap (λ r. r.0) e, refl)
pop-found (k ∷ q) e = inl (ap (λ r. r.0) e, ap₂ ◌∷◌ (sym (ap (λ r. r.1) e)) (sym (ap (λ r. r.2) e)))

drain-more :
    (n : ℕ) (m : Memory)
    → (dequeue m).0 ≡ true
    → drain (suc n) m ≡ ((dequeue m).1 ∷ (drain n (dequeue m).2).0, (drain n (dequeue m).2).1)
unfolding drain
drain-more n m e = ground arith

drain-none : (n : ℕ) (m : Memory) → (dequeue m).0 ≡ false → drain (suc n) m ≡ ([], m)
unfolding drain
drain-none n m e = ground arith

-- Reading as often as keys are queued reads them all.
pub drain_lem :
    (n : ℕ) (m : Memory)
    → IsQueue m
    → count m ≤ n
    → ((drain n m).0 ≡ contents m)
      × (contents (drain n m).1 ≡ [])
      × IsQueue (drain n m).1
      × ((a : ℕ) → IsElsewhere a → (drain n m).1 a ≡ m a)
drain_lem zero m v few =
    let empty : contents m ≡ [] = ap (window m (head_slot m)) {y = 0} (omega arith) in
    unfold drain in (sym empty, empty, v, λ a outside. refl)
drain_lem (suc n) m v few =
    let (same, v', _, outside_kept) = dequeue_refines m v in
    elim (pop-found (contents m) same) [
      | inl (found, split) ↦
          let m' : Memory = (dequeue m).2 in
          let len = length-window m (head_slot m) (count m) in
          let len' = length-window m' (head_slot m') (count m') in
          let (read, empty, v'', later_kept) =
            drain_lem n m' v' (omega (arith, len, len', ap length split)) in
          rw (drain-more n m found) (
            ap (◌∷◌ (dequeue m).1) read ∙ sym split,
            empty,
            v'',
            λ a outside. later_kept a outside ∙ outside_kept a outside,
          )
      | inr (missing, empty) ↦ rw (drain-none n m missing) (sym empty, empty, v, λ a outside. refl)
    ]

pub count-empty : (m : Memory) → contents m ≡ [] → count m ≡ 0
count-empty m e = omega (arith, length-window m (head_slot m) (count m), ap length e)
