-- ===== src/Client/Main/Delivered.antt =====
-- What an exit code of 0 of dos/pc98/main.c means.
use pc98imebridge.Common.{
  ℕ, ◌≡◌, refl, sym, subst, ◌⊎◌, inl, inr, Bool, true, false, Option, Bytes, Bool-cases, arith,
}
use pc98imebridge.Keyboard.Memory.{Memory}
use pc98imebridge.Keyboard.Inject.{KeyRead, inject}
use pc98imebridge.Client.Log.{Client}
use pc98imebridge.Client.Main.{close_session, give_up, finish, asks_verify, main}
use pc98imebridge.Client.Main.Start.{configured, configured-memory, not_found, asked, run_lem}
use pc98imebridge.Serial.Line.{Line}
use pc98imebridge.Client.Main.Stages.{IsAnswer, text_line, open_session-ends}

-- The end is an error, or the text of the host is in the key queue of the memory `m`.
abbrev IsDelivered : Line → Memory → ℕ × Client → Type 0
IsDelivered l m r =
    (r.0 ≡ 1)
    ⊎ ((r.0 ≡ 0) × (text : Bytes) × IsAnswer l text × (inject text m ≡ (true, r.1.memory)))

finish-IsDelivered :
    (l : Line) (read_key : KeyRead) (text : Bytes) (c : Client)
    → IsAnswer l text
    → IsDelivered l c.memory (finish read_key false text c)
unfolding finish close_session
finish-IsDelivered l read_key text c a = elim (Bool-cases (inject text c.memory).0) [
  | inl queued ↦ inr (ground (arith, queued), text, a, ground (arith, queued))
  | inr refused ↦ inl (ground (arith, refused))
]

give_up-IsDelivered :
    (l : Line) (m : Memory) (log message : Bytes) (c : Client)
    → IsDelivered l m (give_up log message c)
unfolding give_up
give_up-IsDelivered l m log message c = inl refl

-- Without the verification, what finishes from the memory `m` is delivered there.
finishes-IsDelivered :
    (l : Line) (read_key : KeyRead) (verify : Bool) (m : Memory)
    → verify ≡ false
    → (text : Bytes) (c : Client) → IsAnswer l text
    → ((verify ≡ true) ⊎ (c.memory ≡ m))
    → IsDelivered l m (finish read_key verify text c)
finishes-IsDelivered l read_key verify m off text c a (inl asked) =
    absurd (ground (arith, asked, off))
finishes-IsDelivered l read_key verify m off text c a (inr same) =
    subst (λ v. IsDelivered l m (finish read_key v text c)) (sym off)
      (subst (λ now. IsDelivered l now (finish read_key false text c)) same
        (finish-IsDelivered l read_key text c a))

-- The line on which the run asks for the text.
abbrev pub asking_line : ℕ → Client → Line
asking_line reads c = text_line (asked (configured reads c))

main-IsDelivered :
    (argument : Option Bytes) (read_key : KeyRead) (reads : ℕ) (c : Client)
    → asks_verify argument ≡ false
    → IsDelivered (asking_line reads c) c.memory (main argument read_key reads c)
unfolding main
main-IsDelivered argument read_key reads c off =
    let now : Client = configured reads c in
    let l : Line = asking_line reads c in
    elim (run_lem read_key (asks_verify argument) reads c) [
      | inl (found, e) ↦ subst (IsDelivered l c.memory) (sym e) (
          open_session-ends read_key (asks_verify argument) c.memory l (IsDelivered l c.memory)
            (give_up-IsDelivered l c.memory)
            (finishes-IsDelivered l read_key (asks_verify argument) c.memory off) (asked now) refl
            (inr (configured-memory reads c)))
      | inr (missing, e) ↦ subst (IsDelivered l c.memory) (sym e) (unfold not_found in inl refl)
    ]

-- Without /VERIFY, an exit code of 0 means that the host answered the OPEN_IME, sent on the line that
-- the opening, the HELLO and the PING of this run left, with a text, and that the key queue of the
-- start took the whole of that text; the memory at the end is the one with it.
pub main-delivers :
    (argument : Option Bytes) (read_key : KeyRead) (reads : ℕ) (c : Client)
    → asks_verify argument ≡ false
    → (main argument read_key reads c).0 ≡ 0
    → (text : Bytes) × IsAnswer (asking_line reads c) text
      × (inject text c.memory ≡ (true, (main argument read_key reads c).1.memory))
main-delivers argument read_key reads c off passed =
    elim (main-IsDelivered argument read_key reads c off) [
      | inl failed ↦ absurd (omega (arith, failed, passed))
      | inr (ended, text, a, queued) ↦ (text, a, queued)
    ]
