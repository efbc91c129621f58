-- ===== src/Tests/Installer.antt =====
-- The installer on a DOS that only keeps the vectors, and output to the debug port.
use pc98imebridge.Common.{ℕ, ◌≡◌, ◌≢◌, refl, false, none, some, codes, if◌then◌else◌, ◌==◌, arith}
use pc98imebridge.Dos.{hex_word}
use pc98imebridge.Serial.Settings.{parse_hex}
use pc98imebridge.Serial.Settings.Hex.{parse_hex-hex_word}
use pc98imebridge.Installer.Machine.{Far, Services, Labels, Image, Machine, own_signature}
use pc98imebridge.Installer.Start.{exits, uninstall_requested, tsr_main}
use pc98imebridge.Installer.Endings.{Ending, IsHooked, AreKept}
use pc98imebridge.Installer.Installed.{tsr_main-Ending}
use pc98imebridge.Installer.Removal.{tsr_main-refuses}
use pc98imebridge.Tests.Data.{asking}

abbrev Table : Type 0
Table = ℕ → Far

abbrev set_table : ℕ → Far → Table → Table
set_table n v table m = if m == n then v else table m

set_table-same : (n : ℕ) (v : Far) (table : Table) → set_table n v table n ≡ v
set_table-same n v table = ground arith

set_table-other : (n m : ℕ) (v : Far) (table : Table) → m ≢ n → set_table n v table m ≡ table m
set_table-other n m v table apart = ground arith

-- Every block is given back.
abbrev services : Services Table
services = record {
  put_char = λ c table. table;
  set_vector = set_table;
  get_vector = λ n table. table n;
  free_memory = λ segment table. (false, table);
  set_vector-same = set_table-same;
  set_vector-other = set_table-other;
  put_char-kept = λ n c table. refl;
  free_memory-kept = λ n segment table. refl;
}

abbrev labels : Labels
labels = record {
  input_hook = 0x200;
  serial_irq_hook = 0x400;
  old_input_vector = 0x1000;
  old_serial_irq_vector = 0x1004;
  resident_end = 0x1800;
}

abbrev bios_vector : Far
bios_vector = record { offset = 0x10; segment = 0xfd80 }

abbrev fresh_image : Image
fresh_image = record {
  signature = own_signature;
  environment_segment = 0x0f00;
  saved_input = bios_vector;
  saved_serial_irq = bios_vector;
  state = asking;
}

abbrev machine : Machine Table
machine = record { dos = λ n. bios_vector; images = λ segment. fresh_image }

-- Both hooks are in.
abbrev hooked : Machine Table
hooked = record {
  dos =
      set_table 0x18 (record { offset = 0x200; segment = 0x1000 })
        (set_table 0x0c (record { offset = 0x400; segment = 0x1000 }) (λ n. bios_vector));
  images = λ segment. fresh_image;
}

hooked-others : (n : ℕ) → n ≢ 0x18 → n ≢ 0x0c → hooked.dos n ≡ machine.dos n
hooked-others n a b = ground arith

hooked-IsHooked : IsHooked services labels 0x1000 machine hooked
hooked-IsHooked = record {
  input = refl;
  serial_irq = refl;
  others = hooked-others;
  saved_input = refl;
  saved_serial_irq = refl;
  signature = refl;
}

tsr_main-Ending_example :
    Ending services labels 0x2000 machine (tsr_main services labels none none 0x2000 machine)
tsr_main-Ending_example =
    tsr_main-Ending services labels none none 0x2000 machine (unfold uninstall_requested in refl)

tsr_main-refuses_example :
    ((tsr_main services labels (some (codes "/U")) none 0x2000 hooked).0 ≡ exits 1)
    × AreKept services labels hooked
        (tsr_main services labels (some (codes "/U")) none 0x2000 hooked).1
tsr_main-refuses_example =
    tsr_main-refuses services labels (some (codes "/U")) none 0x1000 0x2000 machine hooked
      (unfold uninstall_requested in refl) hooked-IsHooked refl

parse_hex-hex_word_example : parse_hex (hex_word 0x1f3a) ≡ some 0x1f3a
parse_hex-hex_word_example = parse_hex-hex_word 0x1f3a (omega arith)
