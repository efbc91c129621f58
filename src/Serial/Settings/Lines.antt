-- ===== src/Serial/Settings/Lines.antt =====
-- The line buffer of the reader and `parse_config_line`.
use pc98imebridge.Common.{
  ℕ, ◌+◌, ◌<◌, ◌≡◌, refl, sym, ap, ◌∙◌, true, false, [], ◌∷◌, ◌++◌, Bytes, All, length,
  length-append, append_assoc, append-nil, arith, if◌then◌else◌, Bool-cases, inl, inr, ◌⊎◌,
}
use pc98imebridge.Serial.Line.{Config}
use pc98imebridge.Serial.Settings.{
  is_blank, is_comment, skip_blanks, parse_config_line, Reader, fresh, line_size, ends_line,
  read_config_byte, read_config_bytes,
}

-- No byte of it ends a line.
abbrev pub IsLine : Bytes → Type 0
IsLine = All (λ b. ends_line b ≡ false)

-- In the middle of a line.
abbrev pub within : Config → Bytes → Reader
within config line = record (fresh config) { line = line; started = true }

abbrev pub commented : Config → Reader
commented config = record (fresh config) { started = true; comment = true }

pub read_config_bytes-cons :
    (b : ℕ) (rest : Bytes) (r : Reader) {r' : Reader}
    → read_config_byte b r ≡ r'
    → read_config_bytes (b ∷ rest) r ≡ read_config_bytes rest r'
unfolding read_config_bytes
read_config_bytes-cons b rest r e = ap (read_config_bytes rest) e

pub read_config_byte-within :
    (config : Config) (line : Bytes) (b : ℕ)
    → ends_line b ≡ false
    → length line + 1 < line_size
    → read_config_byte b (within config line) ≡ within config (line ++ b ∷ [])
unfolding read_config_byte
read_config_byte-within config line b h room = ground arith

read_config_byte-commented :
    (config : Config) (b : ℕ)
    → ends_line b ≡ false
    → read_config_byte b (commented config) ≡ commented config
unfolding read_config_byte
read_config_byte-commented config b h = ground arith

-- A carriage return or a line feed.
abbrev pub IsEnd : ℕ → Type 0
IsEnd b = (b ≡ b'\r') ⊎ (b ≡ b'\n')

pub ends_line-IsEnd : (b : ℕ) → IsEnd b → ends_line b ≡ true
ends_line-IsEnd b e = ground (arith, e)

module _ (ending : ℕ) (ends : ends_line ending ≡ true) where
  read_config_bytes-within :
      (config : Config) (line rest : Bytes)
      → IsLine rest
      → length line + length rest < line_size
      → read_config_bytes (rest ++ ending ∷ []) (within config line)
        ≡ fresh (parse_config_line (line ++ rest) config)
  unfolding read_config_bytes read_config_byte
  read_config_bytes-within config line [] all room =
      rw ends (ap (λ l. fresh (parse_config_line l config)) (sym (append-nil line)))
  read_config_bytes-within config line (b ∷ rest) all room =
      read_config_bytes-cons b (rest ++ ending ∷ []) (within config line)
        (read_config_byte-within config line b all.0 (omega arith))
      ∙ read_config_bytes-within config (line ++ b ∷ []) rest all.1
          (omega (arith, length-append line (b ∷ [])))
      ∙ ap (λ l. fresh (parse_config_line l config)) (append_assoc line (b ∷ []) rest)

  pub read_config_bytes-commented :
      (config : Config) (rest : Bytes)
      → IsLine rest
      → read_config_bytes (rest ++ ending ∷ []) (commented config) ≡ fresh config
  unfolding read_config_bytes read_config_byte
  read_config_bytes-commented config [] all = rw ends refl
  read_config_bytes-commented config (b ∷ rest) all =
      read_config_bytes-cons b (rest ++ ending ∷ []) (commented config)
        (read_config_byte-commented config b all.0)
      ∙ read_config_bytes-commented config rest all.1

-- How the first byte of a line is taken.
pub read_config_byte-first :
    (config : Config) (b : ℕ)
    → ends_line b ≡ false
    → read_config_byte b (fresh config) ≡ (
        if is_blank b
        then fresh config
        else if is_comment b
        then commented config
        else within config (b ∷ []))
unfolding read_config_byte
read_config_byte-first config b h = ground arith

parse_config_line-blank :
    (config : Config) (b : ℕ) (rest : Bytes)
    → is_blank b ≡ true
    → parse_config_line (b ∷ rest) config ≡ parse_config_line rest config
unfolding parse_config_line skip_blanks
parse_config_line-blank config b rest h = rw h refl

parse_config_line-comment :
    (config : Config) (b : ℕ) (rest : Bytes)
    → is_blank b ≡ false
    → is_comment b ≡ true
    → parse_config_line (b ∷ rest) config ≡ config
unfolding parse_config_line skip_blanks
parse_config_line-comment config b rest h c = ground arith

-- A line up to its first end.
read_config_bytes-ended :
    (line : Bytes) (config : Config) (ending : ℕ)
    → ends_line ending ≡ true
    → IsLine line
    → length line < line_size
    → read_config_bytes (line ++ ending ∷ []) (fresh config) ≡ fresh (parse_config_line line config)
unfolding read_config_bytes
read_config_bytes-ended [] config ending ends all room = unfold read_config_byte in rw ends refl
read_config_bytes-ended (b ∷ rest) config e ends all room =
    let first = read_config_byte-first config b all.0 in
    let ending : Bytes = rest ++ e ∷ [] in
    elim (Bool-cases (is_blank b)) [
      | inl blank ↦
          read_config_bytes-cons b ending (fresh config) (first ∙ rw blank refl)
          ∙ read_config_bytes-ended rest config e ends all.1 (omega arith)
          ∙ ap fresh (sym (parse_config_line-blank config b rest blank))
      | inr solid ↦ elim (Bool-cases (is_comment b)) [
        | inl comment ↦
            read_config_bytes-cons b ending (fresh config) (first ∙ rw (solid, comment) refl)
            ∙ read_config_bytes-commented e ends config rest all.1
            ∙ ap fresh (sym (parse_config_line-comment config b rest solid comment))
        | inr text ↦
            read_config_bytes-cons b ending (fresh config) (first ∙ rw (solid, text) refl)
            ∙ read_config_bytes-within e ends config (b ∷ []) rest all.1 (omega arith)
      ]
    ]

-- An empty line sets nothing.
read_config_byte-end :
    (config : Config) (b : ℕ)
    → ends_line b ≡ true
    → read_config_byte b (fresh config) ≡ fresh config
unfolding read_config_byte parse_config_line skip_blanks
read_config_byte-end config b ends = ground (arith, ends)

read_config_bytes-ends :
    (config : Config) (more : Bytes)
    → All IsEnd more
    → read_config_bytes more (fresh config) ≡ fresh config
unfolding read_config_bytes
read_config_bytes-ends config [] all = refl
read_config_bytes-ends config (b ∷ more) all =
    read_config_bytes-cons b more (fresh config)
      (read_config_byte-end config b (ends_line-IsEnd b all.0))
    ∙ read_config_bytes-ends config more all.1

pub read_config_bytes-append :
    (xs ys : Bytes) (r : Reader)
    → read_config_bytes (xs ++ ys) r ≡ read_config_bytes ys (read_config_bytes xs r)
unfolding read_config_bytes
read_config_bytes-append [] ys r = refl
read_config_bytes-append (x ∷ xs) ys r = read_config_bytes-append xs ys (read_config_byte x r)

-- A line of fewer than 128 bytes and its end, a carriage return or a line feed with any number of
-- others behind it (CR LF among them), read from the start of a line on, set what
-- `parse_config_line` sets for that line, whatever blanks or comment it starts with, and the reader
-- is at the start of a line again.
pub read_config_bytes-line :
    (line : Bytes) (ending : ℕ) (more : Bytes) (config : Config)
    → IsLine line
    → IsEnd ending
    → All IsEnd more
    → length line < line_size
    → read_config_bytes (line ++ ending ∷ more) (fresh config)
      ≡ fresh (parse_config_line line config)
read_config_bytes-line line ending more config all ends others room =
    ap (λ bytes. read_config_bytes bytes (fresh config))
      (sym (append_assoc line (ending ∷ []) more))
    ∙ read_config_bytes-append (line ++ ending ∷ []) more (fresh config)
    ∙ ap (read_config_bytes more)
        (read_config_bytes-ended line config ending (ends_line-IsEnd ending ends) all room)
    ∙ read_config_bytes-ends (parse_config_line line config) more others
