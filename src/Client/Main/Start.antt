-- ===== src/Client/Main/Start.antt =====
-- What `run` of dos/pc98/main.c does before it asks for the session.
use pc98imebridge.Common.{ℕ, ◌≡◌, ◌∙◌, ◌⊎◌, Bool, true, false, codes, arith}
use pc98imebridge.Keyboard.Inject.{KeyRead}
use pc98imebridge.Serial.Settings.{load_config}
use pc98imebridge.Serial.Settings.File.{read_settings}
use pc98imebridge.Client.Control.{control_open}
use pc98imebridge.Client.Log.{Client, log_open, log_line, print}
use pc98imebridge.Client.Log.Kept.{log_line-memory, log_open-memory, print-memory}
use pc98imebridge.Client.Main.{open_session, run}

-- The state behind the settings, with what `control_open` answered.
abbrev pub configured : ℕ → Client → Client
configured reads c =
    let started : Client =
      log_line (codes "START\r\n")
        (log_open (print (codes "PC-98 IME Bridge test client\r\n") c)) in
    log_line (codes "CONFIG LOADED\r\n") (record started {
      dos = (read_settings reads started.dos).1;
      line = record started.line {
        config = (load_config (read_settings reads started.dos).0 started.line.config).1;
      };
    })

pub configured-memory : (reads : ℕ) (c : Client) → (configured reads c).memory ≡ c.memory
configured-memory reads c =
    let greeted : Client = print (codes "PC-98 IME Bridge test client\r\n") c in
    log_line-memory (codes "CONFIG LOADED\r\n") _
    ∙ log_line-memory (codes "START\r\n") (log_open greeted)
    ∙ log_open-memory greeted
    ∙ print-memory (codes "PC-98 IME Bridge test client\r\n") c

-- What `run` does once DOS was asked for the device.
unfoldable pub not_found : Client → ℕ × Client
not_found c =
    (1, print (codes "ERROR: cannot open IME98$\r\n") (log_line (codes "ERROR IME98 OPEN\r\n") c))

abbrev pub asked : Client → Client
asked c = record c {
  control = (control_open c.control c.dos).1;
  dos = (control_open c.control c.dos).2;
}

pub run_lem :
    (read_key : KeyRead) (verify : Bool) (reads : ℕ) (c : Client)
    → let ready = asked (configured reads c) in
      let found = (control_open (configured reads c).control (configured reads c).dos).0 in
      ((found ≡ true) × (run read_key verify reads c ≡ open_session read_key verify ready))
      ⊎ ((found ≡ false) × (run read_key verify reads c ≡ not_found ready))
unfolding run not_found
run_lem read_key verify reads c = ground arith
