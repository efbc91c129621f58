-- ===== src/Probes/Ends.antt =====
-- How the test of the device and the key probe end.
use pc98imebridge.Common.{either, ℕ, ◌≡◌, ◌≢◌, refl, true, List, [], ◌∷◌, ◌++◌, Bytes, arith}
use pc98imebridge.Dos.{Call, Dos, int21, close_file, dos_print}
use pc98imebridge.Probes.DeviceTest.{
  sends_command, reads_status, fail, close_test, status_test, session_test,
}
use pc98imebridge.Probes.Keys.{Poll, key_of, key_line, probe_rounds}

-- The handle is closed by the last call.
abbrev pub IsClosedLast : ℕ → ℕ × Dos → Type 0
IsClosedLast handle r = (before : List Call) × (r.1.calls ≡ before ++ close_file handle ∷ [])

close_file-last :
    (handle code : ℕ) (d : Dos) → IsClosedLast handle (code, (int21 (close_file handle) d).2)
unfolding int21
close_file-last handle code d = (d.calls, refl)

fail-IsClosedLast : (text : Bytes) (handle : ℕ) (d : Dos) → IsClosedLast handle (fail text handle d)
unfolding fail
fail-IsClosedLast text handle d = close_file-last handle 1 _

-- Whatever the driver answers, a device that was opened is closed by the last call of the test.
pub session_test-IsClosedLast : (handle : ℕ) (d : Dos) → IsClosedLast handle (session_test handle d)
unfolding session_test status_test close_test
session_test-IsClosedLast handle d =
    either (IsClosedLast handle) (sends_command 1 handle d).0 _ _
      (λ _.
        either (IsClosedLast handle) (reads_status handle _).0 _ _
          (λ _.
            either (IsClosedLast handle) (sends_command 2 handle _).0 _ _
              (λ _. close_file-last handle 0 _) (λ _. fail-IsClosedLast _ handle _))
          (λ _. fail-IsClosedLast _ handle _))
      (λ _. fail-IsClosedLast _ handle _)

abbrev pub IsEsc : Poll → Type 0
IsEsc poll = (poll.waiting ≢ 0) × (key_of poll ≡ 0x1b)

-- The key probe ends at the first Esc, and what the keyboard would answer behind it does not matter.
pub probe_rounds-ends :
    (before : List Poll) (esc : Poll) (after : List Poll) (d : Dos)
    → IsEsc esc
    → ((probe_rounds (before ++ esc ∷ after) d).0 ≡ true)
      × (probe_rounds (before ++ esc ∷ after) d ≡ probe_rounds (before ++ esc ∷ []) d)
unfolding probe_rounds
probe_rounds-ends [] esc after d v = ground (arith, v)
probe_rounds-ends (poll ∷ before) esc after d v =
    let skipped = probe_rounds-ends before esc after d v in
    let later = probe_rounds-ends before esc after (dos_print (key_line poll) d) v in
    ground (arith, skipped, later)
