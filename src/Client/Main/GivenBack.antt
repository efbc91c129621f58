-- ===== src/Client/Main/GivenBack.antt =====
-- What `main` of dos/pc98/main.c gives back at its end.
use pc98imebridge.Common.{◌≡◌, false}
use pc98imebridge.Dos.{Dos}
use pc98imebridge.Client.Control.{Control}
use pc98imebridge.Client.Log.{Client}

-- COM1 and the device are given back.
pub record IsGivenBack (c : Client) : Type 0 where
  pub line_closed : c.line.opened ≡ false
  pub device_closed : c.control.device_is_open ≡ false
