-- ===== src/Installer/Size.antt =====
-- The size of what stays resident, in dos/pc98/tsr_main.c.
use pc98imebridge.Common.{◌+◌, ◌*◌, ◌<◌, ◌≤◌, arith}
use pc98imebridge.Installer.Machine.{Labels}
use pc98imebridge.Installer.Start.{resident_paragraphs}

-- Where the end of the program is at most FFEFh, the paragraphs that stay resident cover the program
-- and the byte at its end, and not a whole paragraph more.
pub resident_paragraphs-covers :
    (labels : Labels)
    → labels.resident_end < 0xfff0
    → (labels.resident_end < 16 * resident_paragraphs labels)
      × (16 * resident_paragraphs labels ≤ labels.resident_end + 16)
unfolding resident_paragraphs
resident_paragraphs-covers labels fits = (omega arith, omega arith)
