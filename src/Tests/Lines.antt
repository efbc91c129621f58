-- ===== src/Tests/Lines.antt =====
-- The serial line and the capture buffer at concrete states.
use pc98imebridge.Common.{◌≡◌, refl, [], ◌∷◌, arith}
use pc98imebridge.Serial.Line.{serial_write}
use pc98imebridge.Serial.Line.Write.{Wrote, serial_write-Wrote}
use pc98imebridge.Serial.Capture.{try_read_byte, irq_store}
use pc98imebridge.Serial.Capture.Ring.{
  IsRing, captured, push, pop, irq_store_refines, try_read_byte_refines,
}
use pc98imebridge.Tests.Data.{line_up, capture_up, capture_five}

serial_write-Wrote_example : Wrote (1 ∷ 2 ∷ []) line_up (serial_write (1 ∷ 2 ∷ []) line_up)
serial_write-Wrote_example = serial_write-Wrote (1 ∷ 2 ∷ []) line_up refl

capture_five-IsRing : IsRing capture_five
capture_five-IsRing = record { read_in = omega arith; write_in = omega arith; buffer_size = refl }

capture_up-IsRing : IsRing capture_up
capture_up-IsRing = record { read_in = omega arith; write_in = omega arith; buffer_size = refl }

irq_store_refines_example :
    (captured (irq_store 9 capture_up) ≡ push 9 (captured capture_up))
    × IsRing (irq_store 9 capture_up)
irq_store_refines_example = irq_store_refines 9 capture_up capture_up-IsRing

try_read_byte_refines_example :
    (((try_read_byte capture_five).0, captured (try_read_byte capture_five).1)
      ≡ pop (captured capture_five))
    × IsRing (try_read_byte capture_five).1
    × (captured capture_five ≡ [] → (try_read_byte capture_five).1 ≡ capture_five)
    × ((try_read_byte capture_five).1
        ≡ record capture_five { read_pos = (try_read_byte capture_five).1.read_pos })
try_read_byte_refines_example = try_read_byte_refines capture_five capture_five-IsRing
