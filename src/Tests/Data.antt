-- ===== src/Tests/Data.antt =====
-- The inputs that the tests share.
use pc98imebridge.Common.{ℕ, true, false, [], ◌∷◌, Bytes, if◌then◌else◌, ◌==◌, zero, suc}
use pc98imebridge.Protocol.Packet.{Packet}
use pc98imebridge.Keyboard.Memory.{Memory}
use pc98imebridge.Serial.Port.{Ports}
use pc98imebridge.Serial.Line.{Line, default_config, no_error}
use pc98imebridge.Serial.Capture.{Capture}
use pc98imebridge.Resident.State.{Resident, ready}

-- PING with sequence 7.
abbrev pub ping : Packet
ping = record { kind = 2; sequence = 7; payload = [] }

abbrev pub ping_bytes : Bytes
ping_bytes = 0x49 ∷ 0x44 ∷ 1 ∷ 2 ∷ 7 ∷ 0 ∷ 0 ∷ 0 ∷ 0xf9 ∷ 0x30 ∷ []

-- TEXT "A" with sequence 1.
abbrev pub text_a : Packet
text_a = record { kind = 5; sequence = 1; payload = 0x41 ∷ [] }

abbrev pub text_a_bytes : Bytes
text_a_bytes = 0x49 ∷ 0x44 ∷ 1 ∷ 5 ∷ 1 ∷ 0 ∷ 1 ∷ 0 ∷ 0x41 ∷ 0xe8 ∷ 0x05 ∷ []

-- Head and tail at the start of the buffer, no key.
abbrev pub no_keys : Memory
no_keys a =
    if a == 0x524
    then 2
    else if a == 0x525
    then 5
    else if a == 0x526
    then 2
    else if a == 0x527
    then 5
    else 0

-- The letter A and then a Space are queued, and Shift and Space are down.
abbrev pub a_and_space : Memory
a_and_space a =
    if a == 0x502
    then 0x41
    else if a == 0x503
    then 0x1d
    else if a == 0x504
    then 0x20
    else if a == 0x505
    then 0x34
    else if a == 0x524
    then 2
    else if a == 0x525
    then 5
    else if a == 0x526
    then 6
    else if a == 0x527
    then 5
    else if a == 0x528
    then 2
    else if a == 0x530
    then 0x10
    else if a == 0x53a
    then 1
    else 0

-- Every status read says that both directions are ready.
abbrev pub ports : Ports
ports = record { answer = λ count port. 3; reads = 0; writes = [] }

abbrev pub line_up : Line
line_up = record { config = default_config; opened = true; error = no_error; ports = ports }

abbrev pub zeros : ℕ → Bytes
zeros zero = []
zeros (suc n) = 0 ∷ zeros n

-- Nothing captured; the write position is at the last place.
abbrev pub capture_up : Capture
capture_up = record {
  capture = true;
  read_pos = 127;
  write_pos = 127;
  buffer = zeros 128;
  entry_count = 0;
  rx_ready_count = 0;
  stored_count = 0;
  saved_pic_mask = 0x3d;
  pic_mask_saved = true;
}

-- The byte 5 captured at the last place.
abbrev pub capture_five : Capture
capture_five = record capture_up { write_pos = 0; buffer = 5 ∷ zeros 127; read_pos = 127 }

-- A link is up and a request with sequence 1 is open.
abbrev pub asking : Resident
asking = record {
  link_state = ready;
  open_pending = false;
  ime_active = true;
  ime_enabled = true;
  sequence = 1;
  open_sequence = 1;
  wait_ticks = 0xfffe;
  diagnostic_delay = 0;
  direct_poll_reads = 0;
  rx = [];
  rx_expected = 0;
  pending_text = [];
  pending_offset = 0;
  pending_sequence = 0;
  pending_key = 0;
  pending_key_active = false;
  hotkey_latched = false;
  line = line_up;
  captured = capture_up;
  memory = no_keys;
}

-- The same with the text "A" staged.
abbrev pub staged_a : Resident
staged_a = record asking { pending_text = 0x41 ∷ []; pending_sequence = 1 }

-- The hotkey is pressed.
abbrev pub pressing : Resident
pressing = record asking { memory = a_and_space }

-- The transmitter is always ready, and no byte comes in.
abbrev pub quiet : Line
quiet = record line_up { ports = record { answer = λ count port. 1; reads = 0; writes = [] } }

-- The link is ready, and nothing is asked for.
abbrev pub resting : Resident
resting = record asking { ime_active = false; wait_ticks = 0; line = quiet }

-- The letter A has come in for the open request.
abbrev pub text_in : Resident
text_in = record asking {
  wait_ticks = 0;
  line = quiet;
  pending_text = 0x41 ∷ [];
  pending_sequence = 1;
}
