-- ===== src/Sessions/Names.antt =====
-- cmd/claw/pty.go: the names of sessions.
use clianywhere_daemon.Prelude.{
  ℕ, zero, suc, ◌+◌, ◌/◌, ◌%◌, [], ◌∷◌, ◌++◌, length, take, ltb, if◌then◌else◌,
}
use clianywhere_daemon.Text.{Text, trim_space, is_blank}

abbrev pub max_session_name_len : ℕ
max_session_name_len = 32

-- The digits of `fmt.Sprintf("%d", n)`, with fuel.
unfoldable pub digits : ℕ → ℕ → Text
digits zero n = []
digits (suc fuel) n =
    let more = digits fuel (n / 10) in
    if ltb n 10 then (b'0' + n) ∷ [] else more ++ (b'0' + n % 10) ∷ []

-- "shell" and the counter
unfoldable pub default_name : ℕ → Text
default_name n = b's' ∷ b'h' ∷ b'e' ∷ b'l' ∷ b'l' ∷ digits (n + 1) n

-- The name that Create gives, and the counter after it.
unfoldable pub choose_name : Text → ℕ → Text × ℕ
choose_name asked counter =
    let name = trim_space asked in
    if is_blank name
    then (default_name (counter + 1), counter + 1)
    else if ltb max_session_name_len (length name)
    then (take max_session_name_len name, counter)
    else (name, counter)
