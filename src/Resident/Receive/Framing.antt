-- ===== src/Resident/Receive/Framing.antt =====
-- How `accept_byte` gathers the bytes of a packet from a stream.
use pc98imebridge.Common.{
  ℕ, ◌+◌, ◌<◌, ◌≤◌, ◌≡◌, ◌≢◌, refl, ap, ◌∙◌, [], ◌∷◌, ◌++◌, Bytes, length, length-append,
  append_assoc, arith,
}
use pc98imebridge.Protocol.Packet.{magic0, magic1}
use pc98imebridge.Resident.State.{Resident, rx_size}
use pc98imebridge.Resident.Receive.{accept_byte, after_store, expected_length, handle_packet}

-- The bytes of a stream, one after the other.
unfoldable pub accept_bytes : Bytes → Resident → Resident
accept_bytes [] s = s
accept_bytes (b ∷ bytes) s = accept_bytes bytes (accept_byte b s)

-- `s` with the given bytes of a packet gathered.
abbrev pub framed : Resident → Bytes → ℕ → Resident
framed s rx expected = record s { rx = rx; rx_expected = expected }

-- What is left behind once the gathered packet was handled.
abbrev pub handled : Resident → Bytes → Resident
handled s packet = framed (handle_packet (framed s packet (length packet))) [] 0

module _ (s : Resident) where
  pub accept_byte-noise : (v : ℕ) → v ≢ magic0 → accept_byte v (framed s [] 0) ≡ framed s [] 0
  unfolding accept_byte after_store
  accept_byte-noise v ne = ground arith

  pub accept_byte-first : accept_byte magic0 (framed s [] 0) ≡ framed s (magic0 ∷ []) 0
  unfolding accept_byte after_store
  accept_byte-first = refl

  -- A second first byte of the magic keeps the place of the first.
  pub accept_byte-again : accept_byte magic0 (framed s (magic0 ∷ []) 0) ≡ framed s (magic0 ∷ []) 0
  unfolding accept_byte after_store
  accept_byte-again = refl

  pub accept_byte-lost :
      (v : ℕ) → v ≢ magic0 → v ≢ magic1 → accept_byte v (framed s (magic0 ∷ []) 0) ≡ framed s [] 0
  unfolding accept_byte after_store
  accept_byte-lost v p q = ground arith

  pub accept_byte-second :
      accept_byte magic1 (framed s (magic0 ∷ []) 0) ≡ framed s (magic0 ∷ magic1 ∷ []) 0
  unfolding accept_byte after_store
  accept_byte-second = refl

  pub accept_byte-header :
      (v : ℕ) (pre : Bytes)
      → 2 ≤ length pre
      → length pre + 1 < 8
      → accept_byte v (framed s pre 0) ≡ framed s (pre ++ v ∷ []) 0
  unfolding accept_byte after_store
  accept_byte-header v pre lo hi = ground (arith, length-append pre (v ∷ []))

  pub accept_byte-eighth :
      (v : ℕ) (pre : Bytes)
      → length pre ≡ 7
      → 8 < expected_length (pre ++ v ∷ [])
      → expected_length (pre ++ v ∷ []) ≤ rx_size
      → accept_byte v (framed s pre 0) ≡ framed s (pre ++ v ∷ []) (expected_length (pre ++ v ∷ []))
  unfolding accept_byte after_store
  accept_byte-eighth v pre seven lo hi = ground (arith, length-append pre (v ∷ []))

  accept_byte-more :
      (v : ℕ) (pre : Bytes) (expected : ℕ)
      → 8 ≤ length pre
      → length pre + 1 < expected
      → expected ≤ rx_size
      → accept_byte v (framed s pre expected) ≡ framed s (pre ++ v ∷ []) expected
  unfolding accept_byte after_store
  accept_byte-more v pre expected eight lo hi = ground (arith, length-append pre (v ∷ []))

  accept_byte-last :
      (v : ℕ) (pre : Bytes) (expected : ℕ)
      → 8 ≤ length pre
      → length pre + 1 ≡ expected
      → expected ≤ rx_size
      → accept_byte v (framed s pre expected) ≡ handled s (pre ++ v ∷ [])
  unfolding accept_byte after_store
  accept_byte-last v pre expected eight e hi = ground (arith, length-append pre (v ∷ []))

  -- Behind the header the bytes are gathered until the expected length is reached.
  pub accept_bytes-body :
      (pre rest : Bytes) (expected : ℕ)
      → 8 ≤ length pre
      → 0 < length rest
      → length pre + length rest ≡ expected
      → expected ≤ rx_size
      → accept_bytes rest (framed s pre expected) ≡ handled s (pre ++ rest)
  unfolding accept_bytes
  accept_bytes-body pre [] expected eight some_left e hi = absurd (omega arith)
  accept_bytes-body pre (v ∷ []) expected eight some_left e hi =
      accept_byte-last v pre expected eight (omega arith) hi
  accept_bytes-body pre (v ∷ w ∷ rest) expected eight some_left e hi =
      rw (accept_byte-more v pre expected eight (omega arith) hi) (
        accept_bytes-body (pre ++ v ∷ []) (w ∷ rest) expected
          (omega (arith, length-append pre (v ∷ []))) (omega arith)
          (omega (arith, length-append pre (v ∷ []))) hi
        ∙ ap (handled s) (append_assoc pre (v ∷ []) (w ∷ rest)))
