-- ===== src/Telnet.antt =====
-- hw11-telnet/main.c: a request over a socket, and the answer that is gathered in a buffer.
pub mod Gather
mod Tests
use otus_c_2025_3_kushko.Common.{
  ℕ, zero, suc, ◌+◌, ◌-◌, Bool, true, false, List, [], ◌∷◌, ◌++◌, Option, none, some, length, take,
  drop, get_or, ltb, ◌==◌, if◌then◌else◌,
}
use otus_c_2025_3_kushko.Common.Text.{codes}

-- BUF_SIZE
abbrev pub buf_size : ℕ
buf_size = 5000

-- How far the connection comes.
pub data Setup : Type 0 where
  no_address no_socket not_connected connected : Setup

-- The text that `snprintf` makes of the font and the message.
unfoldable pub request : List ℕ → List ℕ → List ℕ
request font msg = codes "figlet /" ++ (font ++ 32 ∷ (msg ++ 13 ∷ 10 ∷ []))

-- The first loop, over the calls of `recv`: a call that gives no bytes (the end, the timeout or an
-- error) ends it. `none` when it still waits.
unfoldable pub skip_greeting : List (List ℕ) → Option (List (List ℕ))
skip_greeting [] = none
skip_greeting (chunk ∷ chunks) =
    let later = skip_greeting chunks in if length chunk == 0 then some chunks else later

-- The second loop: the bytes in the buffer, when it has ended or still waits.
pub data Gathered : Type 0 where
  waiting : List ℕ → Gathered
  ended : List ℕ → Gathered

-- A call takes no more than there is room for.
unfoldable pub gather : List (List ℕ) → List ℕ → Gathered
gather [] acc = waiting acc
gather (chunk ∷ chunks) acc =
    let received = take (buf_size - length acc) chunk in
    let later = gather chunks (acc ++ received) in if length received == 0 then ended acc else later

-- The ends of the program: a usage message, an error message, a loop that still waits, what is
-- printed of the answer, or a run over the end of the buffer.
pub data Outcome : Type 0 where
  usage failed waits over_the_end : Outcome
  printed : List ℕ → Outcome

-- The last loop: with nothing received `acc_len - 1` is the greatest number of its type.
abbrev pub print_answer : ℕ → Gathered → Outcome
print_answer skipped (waiting acc) = waits
print_answer skipped (ended acc) =
    if length acc == 0
    then over_the_end
    else printed (take (length acc - 1 - skipped) (drop skipped acc))

-- What follows the greeting: `sent` is the value of `send`, if it is not an error.
abbrev pub exchange : List ℕ → Option ℕ → Option (List (List ℕ)) → Outcome
exchange req sent none = waits
exchange req none (some chunks) = failed
exchange req (some n) (some chunks) =
    if n == length req then print_answer (length req) (gather chunks []) else failed

abbrev pub after_setup : Setup → Outcome → Outcome
after_setup no_address outcome = failed
after_setup no_socket outcome = failed
after_setup not_connected outcome = failed
after_setup connected outcome = outcome

-- The arguments are those after the program's name.
unfoldable pub main : List (List ℕ) → Setup → List (List ℕ) → Option ℕ → Outcome
main args setup chunks sent =
    if ltb (length args) 2
    then usage
    else after_setup setup
        (exchange (request (get_or args 0 []) (get_or args 1 [])) sent (skip_greeting chunks))
