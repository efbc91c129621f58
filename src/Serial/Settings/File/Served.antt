-- ===== src/Serial/Settings/File/Served.antt =====
-- IME98.CFG on a DOS that has the file.
use pc98imebridge.Common.{
  drop-drop, take-drop, take_itself, take_empty, length-take, ℕ, zero, suc, ◌+◌, ◌<◌, ◌≡◌, ◌≢◌,
  refl, sym, ap, ap₂, subst, ◌∙◌, true, false, some, List, [], ◌∷◌, ◌++◌, Bytes, All, length, take,
  drop, ◌==◌, if◌then◌else◌, u16, arith, dec_lt, length-append,
}
use pc98imebridge.Dos.{
  Call, Dos, int21, put_char, create_file, open_file, close_file, write_file, read_file,
  ioctl_write, ioctl_read,
}
use pc98imebridge.Serial.Line.{Config}
use pc98imebridge.Serial.Settings.{fresh, last_line, read_config_bytes, load_config}
use pc98imebridge.Serial.Settings.Reads.{joined, read_config_chunks-joined}
use pc98imebridge.Serial.Settings.File.{
  settings_name, read_size, dos_read, read_pieces, read_settings,
}

-- How far a call leaves the file at `handle`: opening starts it anew, and a read moves on.
unfoldable pub moved : ℕ → Call → ℕ → ℕ
moved handle (put_char c) n = n
moved handle (create_file name) n = n
moved handle (open_file mode name) n = 0
moved handle (close_file h) n = n
moved handle (write_file h bytes) n = n
moved handle (read_file h count) n = if h == handle then n + count else n
moved handle (ioctl_write h bytes) n = n
moved handle (ioctl_read h count) n = n

unfoldable pub position : ℕ → List Call → ℕ → ℕ
position handle [] n = n
position handle (call ∷ calls) n = position handle calls (moved handle call n)

-- What is left of the file behind these calls.
abbrev pub left_of : ℕ → Bytes → List Call → Bytes
left_of handle content calls = drop (position handle calls 0) content

-- DOS opens the file at `handle` and reads give its next bytes, as many as there are.
pub record IsServed (handle : ℕ) (content : Bytes) (d : Dos) : Type 0 where
  pub opens : (calls : List Call) → d.answer calls (open_file 0 settings_name) ≡ (handle, false)
  pub counts :
      (calls : List Call)
      → d.answer calls (read_file handle read_size)
        ≡ (length (take read_size (left_of handle content calls)), false)
  pub fills :
      (calls : List Call)
      → d.filled calls (read_file handle read_size) ≡ take read_size (left_of handle content calls)

position-append :
    (handle : ℕ) (calls : List Call) (call : Call) (n : ℕ)
    → position handle (calls ++ call ∷ []) n ≡ moved handle call (position handle calls n)
unfolding position
position-append handle [] call n = refl
position-append handle (c ∷ calls) call n = position-append handle calls call (moved handle c n)

module _ (handle : ℕ) (content : Bytes) where
  -- A read gives the next bytes and moves on.
  dos_read-served :
      (d : Dos)
      → IsServed handle content d
      → (dos_read handle read_size d).0 ≡ take read_size (left_of handle content d.calls)
  unfolding dos_read int21
  dos_read-served d v =
      let rest : Bytes = left_of handle content d.calls in
      let word : u16 (length (take read_size rest)) ≡ length (take read_size rest) =
        omega (arith, length-take read_size rest) in
      rw (v.counts d.calls) (rw word (rw (v.fills d.calls) (take_itself read_size rest)))

  left_of-dos_read :
      (d : Dos)
      → left_of handle content (dos_read handle read_size d).1.calls
        ≡ drop read_size (left_of handle content d.calls)
  unfolding dos_read int21 moved
  left_of-dos_read d =
      let at : ℕ = position handle d.calls 0 in
      let on : moved handle (read_file handle read_size) at ≡ at + read_size = ground arith in
      ap (λ n. drop n content) (position-append handle d.calls (read_file handle read_size) 0 ∙ on)
      ∙ drop-drop at read_size content

  dos_read-IsServed :
      (d : Dos)
      → IsServed handle content d
      → IsServed handle content (dos_read handle read_size d).1
  unfolding dos_read int21
  dos_read-IsServed d v = record { opens = v.opens; counts = v.counts; fills = v.fills }

  -- What the reads give of the rest of the file: all of it, in pieces that are not empty.
  record Pieces (rest : Bytes) (pieces : List Bytes) : Type 0 where
    whole : joined pieces ≡ rest
    some_bytes : All (λ piece. 0 < length piece) pieces

  read_pieces-end :
      (left : ℕ) (d : Dos)
      → length (dos_read handle read_size d).0 ≡ 0
      → (read_pieces (suc left) handle d).0 ≡ []
  unfolding read_pieces
  read_pieces-end left d e = ground (arith, e)

  read_pieces-more :
      (left : ℕ) (d : Dos)
      → length (dos_read handle read_size d).0 ≢ 0
      → (read_pieces (suc left) handle d).0
        ≡ (dos_read handle read_size d).0
          ∷ (read_pieces left handle (dos_read handle read_size d).1).0
  unfolding read_pieces
  read_pieces-more left d e = ground (arith, e)

  read_pieces-Pieces :
      (left : ℕ) (d : Dos)
      → IsServed handle content d
      → length (left_of handle content d.calls) < left
      → Pieces (left_of handle content d.calls) (read_pieces left handle d).0
  read_pieces-Pieces zero d v enough = absurd (omega arith)
  read_pieces-Pieces (suc left) d v enough =
      let rest : Bytes = left_of handle content d.calls in
      let piece = dos_read-served d v in
      let on = left_of-dos_read d in
      let split = take-drop read_size rest in
      let sizes = ap length split in
      elim (dec_lt 0 (length (take read_size rest))) [
        | no gone ↦
            let none_left : length (take read_size rest) ≡ 0 = omega (arith, gone) in
            let ended = read_pieces-end left d (ap length piece ∙ none_left) in
            subst (Pieces rest) (sym ended)
              (record { whole = sym (take_empty 63 rest none_left); some_bytes = tt })
        | yes more ↦
            let some_left : length (dos_read handle read_size d).0 ≢ 0 =
              λ e. omega (arith, more, sym (ap length piece) ∙ e) in
            let ih : Pieces (drop read_size rest)
                (read_pieces left handle (dos_read handle read_size d).1).0 =
              subst (λ r. Pieces r (read_pieces left handle (dos_read handle read_size d).1).0) on
                (read_pieces-Pieces left (dos_read handle read_size d).1 (dos_read-IsServed d v) (
                  subst (λ r. length r < left) (sym on)
                    (omega (
                      arith,
                      enough,
                      more,
                      sizes,
                      length-append (take read_size rest) (drop read_size rest),
                    )))) in
            subst (Pieces rest) (sym (read_pieces-more left d some_left)) (record {
              whole = ap₂ ◌++◌ piece ih.whole ∙ split;
              some_bytes = (subst (λ p. 0 < length p) (sym piece) more, ih.some_bytes);
            })
      ]

load_config-pieces :
    (pieces : List Bytes) (config : Config)
    → All (λ piece. 0 < length piece) pieces
    → load_config (some pieces) config
      ≡ (true, last_line (read_config_bytes (joined pieces) (fresh config)))
unfolding load_config
load_config-pieces pieces config all =
    ap (λ r. (true, last_line r)) (read_config_chunks-joined pieces (fresh config) all)

-- DOS behind the opening of the file.
abbrev opened : Dos → Dos
opened d = (int21 (open_file 0 settings_name) d).2

opened-IsServed :
    (handle : ℕ) (content : Bytes) (d : Dos)
    → IsServed handle content d
    → IsServed handle content (opened d)
unfolding int21
opened-IsServed handle content d v = record { opens = v.opens; counts = v.counts; fills = v.fills }

left_of-opened :
    (handle : ℕ) (content : Bytes) (d : Dos) → left_of handle content (opened d).calls ≡ content
unfolding int21 moved
left_of-opened handle content d =
    ap (λ n. drop n content) (position-append handle d.calls (open_file 0 settings_name) 0)

read_settings-pieces :
    (left handle : ℕ) (content : Bytes) (d : Dos)
    → handle < 65536
    → IsServed handle content d
    → (read_settings left d).0 ≡ some (read_pieces left handle (opened d)).0
unfolding read_settings int21
read_settings-pieces left handle content d fits v =
    let same : u16 handle ≡ handle = omega arith in
    rw (v.opens d.calls) (ap (λ h. some (read_pieces left h (opened d)).0) same)

-- On a DOS that has the file, whatever was called before, the settings are those of the file's bytes
-- one after the other, once the reads allowed are more than its bytes.
pub read_settings-served :
    (left handle : ℕ) (content : Bytes) (d : Dos) (config : Config)
    → handle < 65536
    → IsServed handle content d
    → length content < left
    → load_config (read_settings left d).0 config
      ≡ (true, last_line (read_config_bytes content (fresh config)))
read_settings-served left handle content d config fits v enough =
    let same = left_of-opened handle content d in
    let p : Pieces handle content content (read_pieces left handle (opened d)).0 =
      subst (λ rest. Pieces handle content rest (read_pieces left handle (opened d)).0) same
        (read_pieces-Pieces handle content left (opened d) (opened-IsServed handle content d v)
          (subst (λ rest. length rest < left) (sym same) enough)) in
    ap (λ settings. load_config settings config) (read_settings-pieces left handle content d fits v)
    ∙ load_config-pieces _ config p.some_bytes
    ∙ ap (λ bytes. (true, last_line (read_config_bytes bytes (fresh config)))) p.whole
