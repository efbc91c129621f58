-- ===== src/Common/Lists.antt =====
-- Lists measured and indexed by native numbers, under the library's names.
use Prim.Native.Nat.{ℕ, zero, suc, ◌+◌, ◌-◌, ◌≤◌, ◌<◌, min}
use mathlib.Core.Path.{◌≡◌, refl, sym, ap, ◌∙◌}
use mathlib.Core.Logic.{◌≢◌}
use mathlib.Core.List.{List, [], ◌∷◌, ◌++◌}
use native.Mathlib.Omega.{arith}

module _ {ℓ} {A : Type ℓ} where
  abbrev pub length : List A → ℕ
  length [] = 0
  length (x ∷ xs) = suc (length xs)

  abbrev pub get_or : List A → ℕ → A → A
  get_or [] i d = d
  get_or (x ∷ xs) zero d = x
  get_or (x ∷ xs) (suc i) d = get_or xs i d

  -- A write out of bounds changes nothing.
  abbrev pub set : List A → ℕ → A → List A
  set [] i v = []
  set (x ∷ xs) zero v = v ∷ xs
  set (x ∷ xs) (suc i) v = x ∷ set xs i v

  abbrev pub take : ℕ → List A → List A
  take zero xs = []
  take (suc n) [] = []
  take (suc n) (x ∷ xs) = x ∷ take n xs

  abbrev pub drop : ℕ → List A → List A
  drop zero xs = xs
  drop (suc n) [] = []
  drop (suc n) (x ∷ xs) = drop n xs

  abbrev pub All {κ} : (A → Type κ) → List A → Type κ
  All P [] = Unit
  All P (x ∷ xs) = P x × All P xs

module _ {ℓ} {A : Type ℓ} where
  pub length-append : (xs ys : List A) → length (xs ++ ys) ≡ length xs + length ys
  length-append [] ys = omega arith
  length-append (x ∷ xs) ys = omega (arith, length-append xs ys)

  pub length-set : (xs : List A) (i : ℕ) (v : A) → length (set xs i v) ≡ length xs
  length-set [] i v = refl
  length-set (x ∷ xs) zero v = refl
  length-set (x ∷ xs) (suc i) v = ap suc (length-set xs i v)

  pub length-take : (n : ℕ) (xs : List A) → length (take n xs) ≡ min n (length xs)
  length-take zero xs = omega arith
  length-take (suc n) [] = omega arith
  length-take (suc n) (x ∷ xs) = omega (arith, length-take n xs)

  pub length-drop : (n : ℕ) (xs : List A) → length (drop n xs) ≡ length xs - n
  length-drop zero xs = omega arith
  length-drop (suc n) [] = omega arith
  length-drop (suc n) (x ∷ xs) = omega (arith, length-drop n xs)

  pub take-append : (xs ys : List A) → take (length xs) (xs ++ ys) ≡ xs
  take-append [] ys = refl
  take-append (x ∷ xs) ys = ap (◌∷◌ x) (take-append xs ys)

  pub drop-append : (xs ys : List A) → drop (length xs) (xs ++ ys) ≡ ys
  drop-append [] ys = refl
  drop-append (x ∷ xs) ys = drop-append xs ys

  pub get_or-append :
      (xs ys : List A) (i : ℕ) (d : A) → get_or (xs ++ ys) (length xs + i) d ≡ get_or ys i d
  get_or-append [] ys i d = ap (λ k. get_or ys k d) (omega arith)
  get_or-append (x ∷ xs) ys i d =
      let e : length (x ∷ xs) + i ≡ suc (length xs + i) = omega arith in
      ap (λ k. get_or (x ∷ (xs ++ ys)) k d) e ∙ get_or-append xs ys i d

  pub get_or-set_self :
      (xs : List A) (i : ℕ) (v d : A) → i < length xs → get_or (set xs i v) i d ≡ v
  get_or-set_self [] i v d h = elim h [ ]
  get_or-set_self (x ∷ xs) zero v d h = refl
  get_or-set_self (x ∷ xs) (suc i) v d h = get_or-set_self xs i v d (omega arith)

  pub get_or-set_ne :
      (xs : List A) (i j : ℕ) (v d : A) → i ≢ j → get_or (set xs i v) j d ≡ get_or xs j d
  get_or-set_ne [] i j v d h = refl
  get_or-set_ne (x ∷ xs) zero zero v d h = absurd (h refl)
  get_or-set_ne (x ∷ xs) zero (suc j) v d h = refl
  get_or-set_ne (x ∷ xs) (suc i) zero v d h = refl
  get_or-set_ne (x ∷ xs) (suc i) (suc j) v d h = get_or-set_ne xs i j v d (λ e. h (ap suc e))

  pub All-append {κ} :
      (P : A → Type κ) (front back : List A) → All P front → All P back → All P (front ++ back)
  All-append P [] back hf hb = hb
  All-append P (first ∷ front) back (h, hf) hb = (h, All-append P front back hf hb)

  pub All-take {κ} : (P : A → Type κ) (n : ℕ) (xs : List A) → All P xs → All P (take n xs)
  All-take P zero xs h = tt
  All-take P (suc n) [] h = tt
  All-take P (suc n) (x ∷ xs) h = (h.0, All-take P n xs h.1)

  pub All-drop {κ} : (P : A → Type κ) (n : ℕ) (xs : List A) → All P xs → All P (drop n xs)
  All-drop P zero xs h = h
  All-drop P (suc n) [] h = tt
  All-drop P (suc n) (x ∷ xs) h = All-drop P n xs h.1

  -- A list two longer than `n` is its first `n` elements and the last two.
  pub take_last_two :
      (n : ℕ) (xs : List A) (d : A)
      → length xs ≡ n + 2
      → take n xs ++ get_or xs n d ∷ get_or xs (n + 1) d ∷ [] ≡ xs
  take_last_two n [] d h = absurd (omega arith)
  take_last_two zero (x ∷ []) d h = absurd (omega arith)
  take_last_two zero (x ∷ y ∷ []) d h = refl
  take_last_two zero (x ∷ y ∷ z ∷ xs) d h = absurd (omega arith)
  take_last_two (suc n) (x ∷ xs) d h =
      let e : suc n + 1 ≡ suc (n + 1) = omega arith in
      rw e (ap (◌∷◌ x) (take_last_two n xs d (omega arith)))

module _ {ℓ} {A : Type ℓ} where
  pub take-append_eq : (k : ℕ) (xs ys : List A) → length xs ≡ k → take k (xs ++ ys) ≡ xs
  take-append_eq k xs ys e = ap (λ j. take j (xs ++ ys)) (sym e) ∙ take-append xs ys

  pub drop-append_eq : (k : ℕ) (xs ys : List A) → length xs ≡ k → drop k (xs ++ ys) ≡ ys
  drop-append_eq k xs ys e = ap (λ j. drop j (xs ++ ys)) (sym e) ∙ drop-append xs ys

  pub drop-drop : (k n : ℕ) (xs : List A) → drop (k + n) xs ≡ drop n (drop k xs)
  drop-drop zero n xs = ap (λ j. drop j xs) {y = n} (omega arith)
  drop-drop (suc k) zero [] = ap (λ j. drop j []) {y = suc k} (omega arith)
  drop-drop (suc k) (suc n) [] = ap (λ j. drop j []) {y = suc (suc k + n)} (omega arith)
  drop-drop (suc k) n (x ∷ xs) =
      ap (λ j. drop j (x ∷ xs)) {y = suc (k + n)} (omega arith) ∙ drop-drop k n xs

  pub take-drop : (n : ℕ) (xs : List A) → take n xs ++ drop n xs ≡ xs
  take-drop zero xs = refl
  take-drop (suc n) [] = refl
  take-drop (suc n) (x ∷ xs) = ap (◌∷◌ x) (take-drop n xs)

  pub take_itself : (n : ℕ) (xs : List A) → take (length (take n xs)) (take n xs) ≡ take n xs
  take_itself zero xs = refl
  take_itself (suc n) [] = refl
  take_itself (suc n) (x ∷ xs) = ap (◌∷◌ x) (take_itself n xs)

  pub take_empty : (n : ℕ) (xs : List A) → length (take (suc n) xs) ≡ 0 → xs ≡ []
  take_empty n [] e = refl
  take_empty n (x ∷ xs) e = absurd (omega (arith, e))

  pub get_or-append_eq :
      (k i : ℕ) (xs ys : List A) (d : A) → k ≡ length xs + i → get_or (xs ++ ys) k d ≡ get_or ys i d
  get_or-append_eq k i xs ys d e = ap (λ j. get_or (xs ++ ys) j d) e ∙ get_or-append xs ys i d

  -- The element of a list in one place, and elsewhere.
  pub get_or-middle : (xs ys : List A) (a d : A) → get_or (xs ++ a ∷ ys) (length xs) d ≡ a
  get_or-middle [] ys a d = refl
  get_or-middle (x ∷ xs) ys a d = get_or-middle xs ys a d

  pub get_or-middle_ne :
      (xs ys : List A) (a b d : A) (i : ℕ)
      → i ≢ length xs
      → get_or (xs ++ a ∷ ys) i d ≡ get_or (xs ++ b ∷ ys) i d
  get_or-middle_ne [] ys a b d zero ne = absurd (ne refl)
  get_or-middle_ne [] ys a b d (suc i) ne = refl
  get_or-middle_ne (x ∷ xs) ys a b d zero ne = refl
  get_or-middle_ne (x ∷ xs) ys a b d (suc i) ne =
      get_or-middle_ne xs ys a b d i (λ e. ne (ap suc e))

  pub take-middle_le :
      (xs ys : List A) (a b : A) (n : ℕ)
      → n ≤ length xs
      → take n (xs ++ a ∷ ys) ≡ take n (xs ++ b ∷ ys)
  take-middle_le xs ys a b zero h = refl
  take-middle_le [] ys a b (suc n) h = absurd (omega arith)
  take-middle_le (x ∷ xs) ys a b (suc n) h = ap (◌∷◌ x) (take-middle_le xs ys a b n (omega arith))

  pub take-middle_lt :
      (xs ys : List A) (a : A) (n : ℕ)
      → length xs < n
      → take n (xs ++ a ∷ ys) ≡ xs ++ a ∷ take (n - length xs - 1) ys
  take-middle_lt xs ys a zero h = absurd (omega arith)
  take-middle_lt [] ys a (suc n) h =
      let e : n ≡ suc n - 0 - 1 = omega arith in ap (λ k. a ∷ take k ys) e
  take-middle_lt (x ∷ xs) ys a (suc n) h =
      let e : n - length xs - 1 ≡ suc n - suc (length xs) - 1 = omega arith in
      ap (◌∷◌ x) (take-middle_lt xs ys a n (omega arith) ∙ ap (λ k. xs ++ a ∷ take k ys) e)

  pub length-middle : (xs ys : List A) (a b : A) → length (xs ++ a ∷ ys) ≡ length (xs ++ b ∷ ys)
  length-middle xs ys a b = length-append xs (a ∷ ys) ∙ sym (length-append xs (b ∷ ys))
