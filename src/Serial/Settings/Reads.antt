-- ===== src/Serial/Settings/Reads.antt =====
-- The reads that the file comes in, and lines too long for the buffer.
use pc98imebridge.Common.{
  ℕ, ◌+◌, ◌<◌, ◌≤◌, ◌≡◌, refl, sym, ap, ◌∙◌, true, false, List, [], ◌∷◌, ◌++◌, Bytes, All, length,
  length-append, arith, dec_lt, Bool-cases, inl, inr,
}
use pc98imebridge.Serial.Line.{Config}
use pc98imebridge.Serial.Settings.{
  is_blank, is_comment, skip_blanks, Reader, fresh, line_size, ends_line, read_config_byte,
  read_config_bytes, read_config_chunks,
}
use pc98imebridge.Serial.Settings.Lines.{
  IsLine, within, read_config_bytes-cons, read_config_byte-first, read_config_byte-within,
  read_config_bytes-append, read_config_bytes-commented,
}

-- The bytes of all reads.
abbrev pub joined : List Bytes → Bytes
joined [] = []
joined (chunk ∷ chunks) = chunk ++ joined chunks

-- Reading the file in any non-empty pieces is reading its bytes one after the other.
pub read_config_chunks-joined :
    (chunks : List Bytes) (r : Reader)
    → All (λ chunk. 0 < length chunk) chunks
    → read_config_chunks chunks r ≡ read_config_bytes (joined chunks) r
unfolding read_config_chunks
read_config_chunks-joined [] r all = unfold read_config_bytes in refl
read_config_chunks-joined (chunk ∷ chunks) r all =
    let later = read_config_chunks-joined chunks (read_config_bytes chunk r) all.1 in
    let split = read_config_bytes-append chunk (joined chunks) r in
    let some_bytes = all.0 in ground (arith, later ∙ sym split)

-- The buffer is full, and the rest of the line is passed over.
abbrev full : Config → Bytes → Reader
full config line = record (within config line) { overflow = true }

read_config_byte-full :
    (config : Config) (line : Bytes) (b : ℕ)
    → ends_line b ≡ false
    → read_config_byte b (full config line) ≡ full config line
unfolding read_config_byte
read_config_byte-full config line b h = ground arith

read_config_bytes-full :
    (config : Config) (line rest : Bytes)
    → IsLine rest
    → read_config_bytes (rest ++ b'\n' ∷ []) (full config line) ≡ fresh config
unfolding read_config_bytes read_config_byte
read_config_bytes-full config line [] all = refl
read_config_bytes-full config line (b ∷ rest) all =
    read_config_bytes-cons b (rest ++ b'\n' ∷ []) (full config line)
      (read_config_byte-full config line b all.0)
    ∙ read_config_bytes-full config line rest all.1

read_config_byte-over :
    (config : Config) (line : Bytes) (b : ℕ)
    → ends_line b ≡ false
    → line_size ≤ length line + 1
    → read_config_byte b (within config line) ≡ full config line
unfolding read_config_byte
read_config_byte-over config line b h over = ground arith

read_config_bytes-over :
    (config : Config) (line rest : Bytes)
    → IsLine rest
    → length line < line_size
    → line_size ≤ length line + length rest
    → read_config_bytes (rest ++ b'\n' ∷ []) (within config line) ≡ fresh config
read_config_bytes-over config line [] all short long = absurd (omega arith)
read_config_bytes-over config line (b ∷ rest) all short long =
    let ending : Bytes = rest ++ b'\n' ∷ [] in
    elim (dec_lt (length line + 1) line_size) [
      | yes room ↦
          read_config_bytes-cons b ending (within config line)
            (read_config_byte-within config line b all.0 room)
          ∙ read_config_bytes-over config (line ++ b ∷ []) rest all.1
              (omega (arith, length-append line (b ∷ [])))
              (omega (arith, length-append line (b ∷ [])))
      | no over ↦
          read_config_bytes-cons b ending (within config line)
            (read_config_byte-over config line b all.0 (omega arith))
          ∙ read_config_bytes-full config line rest all.1
    ]

skip_blanks-blank :
    (b : ℕ) (rest : Bytes) → is_blank b ≡ true → skip_blanks (b ∷ rest) ≡ skip_blanks rest
unfolding skip_blanks
skip_blanks-blank b rest h = ground arith

skip_blanks-solid : (b : ℕ) (rest : Bytes) → is_blank b ≡ false → skip_blanks (b ∷ rest) ≡ b ∷ rest
unfolding skip_blanks
skip_blanks-solid b rest h = ground arith

-- A line that has 128 bytes or more behind its leading blanks changes no setting, not even in part,
-- and the reader is at the start of a line again.
pub read_config_bytes-long :
    (line : Bytes) (config : Config)
    → IsLine line
    → line_size ≤ length (skip_blanks line)
    → read_config_bytes (line ++ b'\n' ∷ []) (fresh config) ≡ fresh config
unfolding skip_blanks
read_config_bytes-long [] config all long = absurd (omega arith)
read_config_bytes-long (b ∷ rest) config all long =
    let first = read_config_byte-first config b all.0 in
    let ending : Bytes = rest ++ b'\n' ∷ [] in
    elim (Bool-cases (is_blank b)) [
      | inl blank ↦
          read_config_bytes-cons b ending (fresh config) (first ∙ rw blank refl)
          ∙ read_config_bytes-long rest config all.1
              (omega (arith, long, ap length (skip_blanks-blank b rest blank)))
      | inr solid ↦
          let size : length (skip_blanks (b ∷ rest)) ≡ length rest + 1 =
            ap length (skip_blanks-solid b rest solid) ∙ omega arith in
          elim (Bool-cases (is_comment b)) [
            | inl comment ↦
                read_config_bytes-cons b ending (fresh config) (first ∙ rw (solid, comment) refl)
                ∙ read_config_bytes-commented b'\n' refl config rest all.1
            | inr text ↦
                read_config_bytes-cons b ending (fresh config) (first ∙ rw (solid, text) refl)
                ∙ read_config_bytes-over config (b ∷ []) rest all.1 (omega arith)
                    (omega (arith, size, long))
          ]
    ]
