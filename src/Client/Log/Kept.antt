-- ===== src/Client/Log/Kept.antt =====
-- The log and what is printed leave the BIOS memory as it is.
use pc98imebridge.Common.{◌≡◌, refl, Bytes, arith}
use pc98imebridge.Client.Log.{Client, log_open, log_write, log_line, log_packet_prefix, print}

pub log_line-memory : (text : Bytes) (c : Client) → (log_line text c).memory ≡ c.memory
unfolding log_line log_write
log_line-memory text c = ground arith

pub log_open-memory : (c : Client) → (log_open c).memory ≡ c.memory
unfolding log_open
log_open-memory c = refl

pub print-memory : (text : Bytes) (c : Client) → (print text c).memory ≡ c.memory
unfolding print
print-memory text c = refl

pub log_packet_prefix-memory :
    (bytes : Bytes) (c : Client) → (log_packet_prefix bytes c).memory ≡ c.memory
unfolding log_packet_prefix
log_packet_prefix-memory bytes c = log_line-memory _ c
