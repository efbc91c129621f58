-- ===== src/Tests/Main.antt =====
-- `main` of dos/pc98/main.c at a host that answers all three requests, the last with the text "A".
use pc98imebridge.Common.{
  ◌-◌, ◌/◌, ◌≡◌, refl, true, false, none, [], ◌∷◌, Bytes, get_or, if◌then◌else◌, ◌==◌, ltb,
}
use pc98imebridge.Dos.{int21, dos_print, hex_byte}
use pc98imebridge.Protocol.Crc.{crc16}
use pc98imebridge.Protocol.Packet.{build, parse}
use pc98imebridge.Keyboard.Memory.{read_byte, read_word}
use pc98imebridge.Keyboard.Encode.{normalized_length}
use pc98imebridge.Keyboard.Inject.{KeyRead, inject}
use pc98imebridge.Serial.Port.{Ports, port_in, port_out}
use pc98imebridge.Serial.Line.{
  default_config, no_error, wait_status, write_bytes, serial_write, serial_read_byte, serial_open,
  serial_close,
}
use pc98imebridge.Serial.Settings.{read_config_chunks, load_config}
use pc98imebridge.Serial.Settings.File.{read_settings, read_pieces, dos_read}
use pc98imebridge.Client.Receive.{stored_byte, received_byte, read_round, read_rounds, read_packet}
use pc98imebridge.Client.Control.{control_open, control_command, control_close}
use pc98imebridge.Client.Exchange.{request, answer_to, exchange}
use pc98imebridge.Client.Log.{
  Client, log_open, log_write, log_line, hex_line, log_packet_prefix, print,
}
use pc98imebridge.Client.Hello.{
  hello_parsed, hello_response, hello_read, hello_written, hello_attempt, hello_exchange,
}
use pc98imebridge.Client.Main.{
  close_session, give_up, checked_text, finish, got_text, text_answer, ask_text, pong_answer,
  ask_pong, hello_outcome, say_hello, open_line, open_session, run, asks_verify, main,
}
use pc98imebridge.Client.Main.Stages.{IsAnswer}
use pc98imebridge.Client.Main.Delivered.{asking_line, main-delivers}
use pc98imebridge.Tests.Data.{no_keys}

abbrev pong_1 : Bytes
pong_1 = 0x49 ∷ 0x44 ∷ 1 ∷ 3 ∷ 1 ∷ 0 ∷ 0 ∷ 0 ∷ 0xc4 ∷ 0x78 ∷ []

abbrev pong_2 : Bytes
pong_2 = 0x49 ∷ 0x44 ∷ 1 ∷ 3 ∷ 2 ∷ 0 ∷ 0 ∷ 0 ∷ 0xc4 ∷ 0x3c ∷ []

abbrev text_3 : Bytes
text_3 = 0x49 ∷ 0x44 ∷ 1 ∷ 5 ∷ 3 ∷ 0 ∷ 1 ∷ 0 ∷ 0x41 ∷ 0x91 ∷ 0xc5 ∷ []

-- A status read for each byte that is sent, and a status read and a data read for each that comes back.
abbrev host : Ports
host = record {
  answer = λ count port.
      if port == 0x32
      then 3
      else if ltb count 41
      then get_or pong_1 ((count - 21) / 2) 0
      else if ltb count 71
      then get_or pong_2 ((count - 51) / 2) 0
      else get_or text_3 ((count - 81) / 2) 0;
  reads = 0;
  writes = [];
}

-- Every call of DOS returns 5.
abbrev client : Client
client = record {
  dos = record { answer = λ calls call. (5, false); filled = λ calls call. []; calls = [] };
  control = record { device_handle = 0; device_last_ax = 0; device_is_open = false };
  log_handle = 0xffff;
  line = record { config = default_config; opened = false; error = no_error; ports = host };
  memory = no_keys;
}

abbrev no_read : KeyRead
no_read m = (0, 0, m)

client_passes : (main none no_read 1 client).0 ≡ 0
unfolding main run asks_verify open_session open_line say_hello hello_outcome ask_pong pong_answer
    ask_text text_answer got_text finish checked_text give_up close_session print log_packet_prefix
    log_line log_write log_open control_open control_command control_close int21 dos_print
    read_settings read_pieces dos_read read_config_chunks load_config serial_open serial_close
    hello_exchange hello_attempt hello_written hello_read hello_response hello_parsed exchange
    request answer_to build parse crc16 serial_write write_bytes port_out read_packet read_rounds
    read_round received_byte stored_byte serial_read_byte wait_status port_in inject
    normalized_length read_byte read_word hex_line hex_byte
client_passes = refl

main-delivers_example :
    (text : Bytes) × IsAnswer (asking_line 1 client) text
    × (inject text no_keys ≡ (true, (main none no_read 1 client).1.memory))
main-delivers_example =
    main-delivers none no_read 1 client (unfold asks_verify in refl) client_passes
