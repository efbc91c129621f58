-- ===== src/System/Soundness.antt =====
-- The states that the resident program can reach once it is installed.
use pc98imebridge.Keyboard.Memory.{Memory}
use pc98imebridge.Serial.Line.{Line}
use pc98imebridge.Serial.Capture.{Capture}
use pc98imebridge.Resident.State.{Resident}
use pc98imebridge.Resident.Session.{IsSession}
use pc98imebridge.Resident.Safety.{IsSafe}

-- The flags agree with the hardware session, and every index and word is within its bounds.
pub record IsSound (s : Resident) : Type 0 where
  pub session : IsSession s
  pub safe : IsSafe s
