-- ===== src/Installer/Machine.antt =====
-- What the installer works on: the services of DOS, and the images of the program in memory.
use pc98imebridge.Common.{ℕ, ◌≡◌, ◌≢◌, Bool, List, [], ◌∷◌, ◌==◌, if◌then◌else◌}
use pc98imebridge.Resident.State.{Resident}

-- A far pointer.
pub record Far : Type 0 where
  pub offset : ℕ
  pub segment : ℕ

-- DOS behind INT 21h, functions 02h, 25h, 35h and 49h, on its state `D`. Functions 25h and 35h set
-- and get the interrupt vectors, and no other function used here changes a vector.
pub record Services (D : Type 0) : Type 0 where
  pub put_char : ℕ → D → D
  pub set_vector : ℕ → Far → D → D
  pub get_vector : ℕ → D → Far
  -- Whether the carry flag is set.
  pub free_memory : ℕ → D → Bool × D
  pub set_vector-same : (n : ℕ) (v : Far) (d : D) → get_vector n (set_vector n v d) ≡ v
  pub set_vector-other :
      (n m : ℕ) (v : Far) (d : D) → m ≢ n → get_vector m (set_vector n v d) ≡ get_vector m d
  pub put_char-kept : (n c : ℕ) (d : D) → get_vector n (put_char c d) ≡ get_vector n d
  pub free_memory-kept :
      (n segment : ℕ) (d : D) → get_vector n (free_memory segment d).1 ≡ get_vector n d

-- The offsets that the linker gives to the hooks and to two variables, and `pc98_tsr_resident_end`.
pub record Labels : Type 0 where
  pub input_hook : ℕ
  pub serial_irq_hook : ℕ
  pub old_input_vector : ℕ
  pub old_serial_irq_vector : ℕ
  pub resident_end : ℕ

-- What stands in a segment at the offsets of the program: the signature, the word at 2Ch of the
-- program's prefix, the saved vectors and the variables of the worker.
pub record Image : Type 0 where
  pub signature : List ℕ
  pub environment_segment : ℕ
  pub saved_input : Far
  pub saved_serial_irq : Far
  pub state : Resident

pub record Machine (D : Type 0) : Type 0 where
  pub dos : D
  pub images : ℕ → Image

-- `pc98_tsr_signature`, the eight characters "P98IMBU1", in words.
abbrev pub own_signature : List ℕ
own_signature = 0x3950 ∷ 0x4938 ∷ 0x424d ∷ 0x3155 ∷ []

-- The image of the segment is changed.
unfoldable pub put_image : ℕ → Image → (ℕ → Image) → ℕ → Image
put_image segment image images s = if s == segment then image else images s
