-- ===== src/Keyboard/Encode/Keys.antt =====
-- The key words of a whole text, said independently of the loop, and that `encode_key` gives them
-- one at a time.
use pc98imebridge.Common.{
  ℕ, zero, suc, ◌+◌, ◌≤◌, ◌<◌, ◌≡◌, refl, ◌∙◌, ap, Bool, true, false, ◌&&◌, List, [], ◌∷◌, Bytes,
  length, get_or, drop, ltb, ◌==◌, if◌then◌else◌, arith, dec_lt,
}
use pc98imebridge.Keyboard.Encode.{
  scan_esc, scan_backspace, scan_tab, scan_return, char_at, line_feed_after, key_word, encode_key,
  normalized_loop, normalized_length,
}

-- The key of one character: Enter for both line ends, and the scan codes of the control keys.
pub key_of : ℕ → ℕ
key_of character =
    if character == b'\r'
    then key_word b'\r' scan_return
    else if character == b'\n'
    then key_word b'\r' scan_return
    else if character == 0x08
    then key_word 0x08 scan_backspace
    else if character == b'\t'
    then key_word b'\t' scan_tab
    else if character == 0x1b
    then key_word 0x1b scan_esc
    else key_word character 0

-- A line feed right behind a carriage return gives no key; every other character gives its own.
-- The flag says that the character before was a carriage return.
unfoldable pub keys_after : Bool → Bytes → List ℕ
keys_after cr [] = []
keys_after cr (c ∷ rest) =
    let later = keys_after (c == b'\r') rest in if cr && c == b'\n' then later else key_of c ∷ later

unfoldable pub keys : Bytes → List ℕ
unfolding keys_after
keys text = keys_after false text

keys_after_cr :
    (text : Bytes)
    → keys_after true text ≡ (
        if ltb 0 (length text) && get_or text 0 0 == b'\n'
        then keys_after false (drop 1 text)
        else keys_after false text)
unfolding keys_after
keys_after_cr [] = refl
keys_after_cr (c ∷ rest) = ground arith

drop-cons :
    (i : ℕ) (text : Bytes) → i < length text → drop i text ≡ char_at text i ∷ drop (i + 1) text
drop-cons i [] h = absurd (omega arith)
drop-cons zero (x ∷ xs) h = refl
drop-cons (suc i) (x ∷ xs) h =
    let e : suc i + 1 ≡ suc (i + 1) = omega arith in rw e (drop-cons i xs (omega arith))

drop-drop_one : (i : ℕ) (text : Bytes) → drop 1 (drop i text) ≡ drop (i + 1) text
drop-drop_one zero text = refl
drop-drop_one (suc i) [] = let e : suc i + 1 ≡ suc (i + 1) = omega arith in rw e refl
drop-drop_one (suc i) (x ∷ xs) =
    let e : suc i + 1 ≡ suc (i + 1) = omega arith in rw e (drop-drop_one i xs)

head-drop : (i : ℕ) (text : Bytes) → get_or (drop i text) 0 0 ≡ char_at text i
head-drop zero text = refl
head-drop (suc i) [] = refl
head-drop (suc i) (x ∷ xs) = head-drop i xs

length-drop_pos : (i : ℕ) (text : Bytes) → ltb 0 (length (drop i text)) ≡ ltb i (length text)
length-drop_pos zero text = refl
length-drop_pos (suc i) [] = ground arith
length-drop_pos (suc i) (x ∷ xs) = length-drop_pos i xs ∙ ground arith

keys-drop :
    (text : Bytes) (i : ℕ)
    → i < length text
    → keys_after false (drop i text)
      ≡ key_of (char_at text i) ∷ keys_after (char_at text i == b'\r') (drop (i + 1) text)
unfolding keys_after
keys-drop text i h = rw (drop-cons i text h)

keys-drop_cr :
    (text : Bytes) (i : ℕ)
    → keys_after true (drop i text) ≡ (
        if ltb i (length text) && char_at text i == b'\n'
        then keys_after false (drop (i + 1) text)
        else keys_after false (drop i text))
keys-drop_cr text i =
    keys_after_cr (drop i text)
    ∙ rw (head-drop i text, length-drop_pos i text, drop-drop_one i text)

-- Within a text, the key that `encode_key` returns is the first of those of the text from
-- `input` on, and the rest are those of the text behind the place that it leaves.
pub encode_key_lem :
    (text : Bytes) (input : ℕ)
    → input < length text
    → let (key, last) = encode_key text input in
      (keys (drop input text) ≡ key ∷ keys (drop (last + 1) text))
      × (input ≤ last)
      × (last < length text)
unfolding encode_key keys key_of
encode_key_lem text input h = ground (arith, keys-drop text input h, keys-drop_cr text (input + 1))

pub keys-drop_end : (text : Bytes) (i : ℕ) → length text ≤ i → keys (drop i text) ≡ []
unfolding keys keys_after
keys-drop_end [] zero h = refl
keys-drop_end [] (suc i) h = refl
keys-drop_end (x ∷ xs) zero h = absurd (omega arith)
keys-drop_end (x ∷ xs) (suc i) h = keys-drop_end xs i (omega arith)

-- The place that the counting loop goes on from is the one that `encode_key` leaves.
skip-encode_key :
    (text : Bytes) (i : ℕ)
    → (if char_at text i == b'\r' && line_feed_after text i then i + 1 else i)
      ≡ (encode_key text i).1
unfolding encode_key
skip-encode_key text i = ground arith

normalized_loop_lem :
    (left : ℕ) (text : Bytes) (input output : ℕ)
    → length text ≤ input + left
    → normalized_loop left text input output ≡ output + length (keys (drop input text))
unfolding normalized_loop
normalized_loop_lem zero text input output h =
    rw (keys-drop_end text input (omega arith)) (omega arith)
normalized_loop_lem (suc left) text input output h =
    rw (skip-encode_key text input) (elim (dec_lt input (length text)) [
      | yes inside ↦
          let (split, on, last) = encode_key_lem text input inside in
          let next : ℕ = (encode_key text input).1 + 1 in
          let ih = normalized_loop_lem left text next (output + 1) (omega arith) in
          ground (arith, ih, ap length split)
      | no past ↦ ground (arith, keys-drop_end text input (omega arith))
    ])

-- `normalized_length` is the number of keys that the text gives.
pub normalized_length-keys : (text : Bytes) → normalized_length text ≡ length (keys text)
unfolding normalized_length
normalized_length-keys text = normalized_loop_lem (length text) text 0 0 (omega arith) ∙ omega arith
