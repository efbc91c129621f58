-- ===== src/Protocol/Packet/Corruption.antt =====
-- `ime_packet_parse` on packets in which one byte was changed on the line.
use pc98imebridge.Common.{
  word-join, get_or-IsByte, ℕ, ◌+◌, ◌<◌, ◌≤◌, ◌≡◌, ◌≢◌, dec_lt, sym, ap, ap₂, ◌∙◌, ◌⊎◌, inl, inr,
  some, none, ◌∷◌, ◌++◌, Bytes, AreBytes, length, take, bit_or, ◌<<<◌, arith, Option-cases,
  All-append, All-take, length-append, length-middle, get_or-middle, get_or-middle_ne,
  take-middle_le, take-middle_lt, ◌-◌,
}
use pc98imebridge.Protocol.Crc.{crc16}
use pc98imebridge.Protocol.Crc.Injective.{crc16-changed}
use pc98imebridge.Protocol.Packet.{Packet, byte_at, word_at, parse}
use pc98imebridge.Protocol.Packet.Layout.{IsAccepted, parse-IsAccepted}

-- Two byte pairs that make the same word are the same.
word_at-injective :
    (p q : Bytes) (i : ℕ)
    → AreBytes p
    → AreBytes q
    → word_at p i ≡ word_at q i
    → (byte_at p i ≡ byte_at q i) × (byte_at p (i + 1) ≡ byte_at q (i + 1))
word_at-injective p q i hp hq e =
    let sp = word-join (byte_at p i) (byte_at p (i + 1)) (get_or-IsByte p i hp) in
    let sq = word-join (byte_at q i) (byte_at q (i + 1)) (get_or-IsByte q i hq) in
    let p0 = get_or-IsByte p i hp in
    let q0 = get_or-IsByte q i hq in
    (omega (arith, sp, sq, e, p0, q0), omega (arith, sp, sq, e, p0, q0))

module _ (pre post : Bytes) (x y : ℕ) (hpre : AreBytes pre) (hpost : AreBytes post) (hx : x < 256)
    (hy : y < 256) (ne : x ≢ y) where
  abbrev sent : Bytes
  sent = pre ++ x ∷ post

  abbrev received : Bytes
  received = pre ++ y ∷ post

  sent-AreBytes : AreBytes sent
  sent-AreBytes = All-append _ pre (x ∷ post) hpre (hx, hpost)

  received-AreBytes : AreBytes received
  received-AreBytes = All-append _ pre (y ∷ post) hpre (hy, hpost)

  -- The checksum of the first `k` bytes differs when the changed byte is among them.
  sums_differ : (k : ℕ) → length pre < k → crc16 (take k sent) ≢ crc16 (take k received)
  sums_differ k h e =
      crc16-changed pre (take (k - length pre - 1) post) x y hpre (All-take _ _ post hpost) hx hy ne
        (sym (ap crc16 (take-middle_lt pre post x k h))
          ∙ e
          ∙ ap crc16 (take-middle_lt pre post y k h))

  word_at-kept : (k : ℕ) → length pre < k → word_at sent k ≡ word_at received k
  word_at-kept k h =
      ap₂ (λ lo hi. bit_or lo (hi <<< 8)) (get_or-middle_ne pre post x y 0 k (omega arith))
        (get_or-middle_ne pre post x y 0 (k + 1) (omega arith))

  -- The changed byte is one of the two of the checksum field.
  word_at-changed :
      (k : ℕ) → k ≤ length pre → length pre < k + 2 → word_at sent k ≢ word_at received k
  word_at-changed k lo hi e =
      let (same0, same1) = word_at-injective sent received k sent-AreBytes received-AreBytes e in
      let place : (length pre ≡ k) ⊎ (length pre ≡ k + 1) = omega arith in
      let differ : byte_at sent (length pre) ≢ byte_at received (length pre) =
        λ d. ne (sym (get_or-middle pre post x 0) ∙ d ∙ get_or-middle pre post y 0) in
      elim place [ inl p ↦ differ (rw p same0) | inr p ↦ differ (rw p same1) ]

  not_both : {m m' : Packet} → IsAccepted sent m → IsAccepted received m' → ⊥
  not_both a b =
      let total = length-middle pre post x y in
      let same_len : word_at sent 6 ≡ word_at received 6 = omega (arith, total, a.size, b.size) in
      let k : ℕ = word_at sent 6 + 8 in
      let sum : word_at received k ≡ crc16 (take k received) = rw same_len b.checksum in
      elim (dec_lt (length pre) k) [
        | yes h ↦ sums_differ k h (sym a.checksum ∙ word_at-kept k h ∙ sum)
        | no h ↦
            word_at-changed k (omega arith) (omega (arith, a.size, length-append pre (x ∷ post)))
              (a.checksum ∙ ap crc16 (take-middle_le pre post x y k (omega arith)) ∙ sym sum)
      ]

-- If `ime_packet_parse` accepts a packet of bytes, it refuses every packet that differs from it
-- in exactly one byte, wherever that byte stands.
pub parse-changed :
    (pre post : Bytes) (x y : ℕ) (message : Packet)
    → AreBytes pre
    → AreBytes post
    → x < 256
    → y < 256
    → x ≢ y
    → parse (pre ++ x ∷ post) ≡ some message
    → parse (pre ++ y ∷ post) ≡ none
parse-changed pre post x y m hpre hpost hx hy ne e = elim (Option-cases (parse (pre ++ y ∷ post))) [
  | inl refused ↦ refused
  | inr (m', e') ↦ absurd (
      not_both pre post x y hpre hpost hx hy ne (parse-IsAccepted (pre ++ x ∷ post) e)
        (parse-IsAccepted (pre ++ y ∷ post) e'))
]
