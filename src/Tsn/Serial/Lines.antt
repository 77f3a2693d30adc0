-- ===== src/Tsn/Serial/Lines.antt =====
-- tsn/serial_iodevice.c: lines of bytes, and the rounds of the UART's task.
use rtos_apps.Base.{
  ℕ, ◌≡◌, ◌≢◌, refl, arith, true, false, List, [], ◌∷◌, ◌++◌, length, Bool, ◌==◌, ==_ne,
  if◌then◌else◌, All, if_cases,
}
use rtos_apps.Tsn.Serial.{UartRx, RxOut, is_eol, enqueue, max_serial_command_len}

-- The lines of `acc ++ bs`, where `acc` holds no end of line, and what is behind the last.
unfoldable pub split : List ℕ → List ℕ → List (List ℕ) × List ℕ
split acc [] = ([], acc)
split acc (b ∷ bs) =
    let line = split [] bs in
    let more = split (acc ++ b ∷ []) bs in
    if is_eol b then ((acc ++ b ∷ []) ∷ line.0, line.1) else more

-- A full buffer without a command is erased.
abbrev pub kept : List ℕ → List ℕ
kept bs = if length bs == max_serial_command_len then [] else bs

abbrev pub state_of : List ℕ → UartRx
state_of bs = record { uart_rx_buf = bs; i = length bs }

-- The commands of a list, one after the other.
unfoldable pub enqueue_all : (ℕ → Bool) → List (List ℕ) → RxOut → RxOut
unfolding enqueue
enqueue_all alloc [] o = o
enqueue_all alloc (l ∷ ls) o = enqueue_all alloc ls (enqueue alloc l o)

abbrev pub concat : List (List ℕ) → List ℕ
concat [] = []
concat (l ∷ ls) = l ++ concat ls

empty_of_length : (bs : List ℕ) → length bs ≡ 0 → bs ≡ []
empty_of_length [] e = refl
empty_of_length (b ∷ bs) e = absurd (omega arith)

-- A line: one end of line, at its end.
abbrev pub NoEol : List ℕ → Type 0
NoEol bs = All (λ b. is_eol b ≡ false) bs

abbrev pub IsLine : List ℕ → Type 0
IsLine l = (p : List ℕ) × (b : ℕ) × (l ≡ p ++ b ∷ []) × NoEol p × (is_eol b ≡ true)

-- The lines of a split, and the rest.
abbrev SplitsLines : List (List ℕ) × List ℕ → Type 0
SplitsLines r = All IsLine r.0 × NoEol r.1

kept-NoEol : (bs : List ℕ) → NoEol bs → NoEol (kept bs)
kept-NoEol bs h = if_cases NoEol (length bs == max_serial_command_len) (λ e. tt) (λ e. h)

kept_same : (bs : List ℕ) → length bs ≢ max_serial_command_len → kept bs ≡ bs
kept_same bs ne = rw (==_ne (length bs) max_serial_command_len ne) refl
