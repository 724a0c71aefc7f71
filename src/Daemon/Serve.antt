-- ===== src/Daemon/Serve.antt =====
-- What the daemon of hw08-daemon/main.c answers to its clients.
use otus_c_2025_3_kushko.Common.{
  ℕ, ◌^◌, ◌≤◌, ◌<◌, ◌≡◌, refl, sym, ap, ap₂, ◌∙◌, Bool, true, false, ◌&&◌, List, [], ◌∷◌, ◌++◌,
  append-nil, append_assoc, Option, none, some, All, length, length-append, take-all, ltb,
  if◌then◌else◌, arith,
}
use otus_c_2025_3_kushko.Common.Decimal.{show_nat, length-show_nat_digits}
use otus_c_2025_3_kushko.Common.Text.{codes, same_text}
use otus_c_2025_3_kushko.Daemon.{
  Lookup, found, absent, KeyFile, load_from_config_file, Lock, not_opened, locked, held, refused,
  already_running, Stat, size, stat_error, reply, Accept, failed, client, Served, serve, loaded,
  run_unix_socket, Outcome, ran, exits, serves, as_daemon, with_config, main,
}
use otus_c_2025_3_kushko.Daemon.Process.{ProcessState, System, End, gone, runs, daemonize}

-- A client: its socket, and what `stat` says of the file then.
abbrev pub Client : Type 0
Client = ℕ × Stat

abbrev pub accepts_of : List Client → List Accept
accepts_of [] = []
accepts_of ((sock, stat) ∷ clients) = client sock stat ∷ accepts_of clients

-- The whole text of an answer.
abbrev pub answer : List ℕ → Stat → List ℕ
answer target (size n) = codes "size of " ++ (target ++ (b':' ∷ show_nat n ++ codes " bytes\n"))
answer target (stat_error text) =
    codes "stat error:" ++ (text ++ (codes " file:" ++ (target ++ 10 ∷ [])))

abbrev pub answers : List ℕ → List Client → List (ℕ × List ℕ)
answers target [] = []
answers target ((sock, stat) ∷ clients) = (sock, answer target stat) ∷ answers target clients

abbrev pub sockets : List Client → List ℕ
sockets [] = []
sockets ((sock, stat) ∷ clients) = sock ∷ sockets clients

-- A size of a file, or a text of an error of 255 characters at most.
abbrev pub IsShort : Client → Type 0
IsShort (sock, size n) = n < 2 ^ 63
IsShort (sock, stat_error text) = length text ≤ 255

reply-answer :
    (target : List ℕ) (sock : ℕ) (stat : Stat)
    → length target ≤ 255
    → IsShort (sock, stat)
    → reply target stat ≡ answer target stat
unfolding reply
reply-answer target sock (size n) h k = take-all 1023 (answer target (size n)) (
    omega (
      arith,
      length-append target (b':' ∷ show_nat n ++ codes " bytes\n"),
      length-append (show_nat n) (codes " bytes\n"),
      length-show_nat_digits 18 n (omega arith),
    ))
reply-answer target sock (stat_error text) h k = take-all 1023 (answer target (stat_error text)) (
    omega (
      arith,
      length-append text (codes " file:" ++ (target ++ 10 ∷ [])),
      length-append target (10 ∷ []),
    ))

module _ (target socket_file : List ℕ) (sock : ℕ) (rest : List Accept)
    (fits : length target ≤ 255) where
  serve-answers :
      (clients : List Client) (sent : List (ℕ × List ℕ)) (closed : List ℕ)
      → All IsShort clients
      → serve target socket_file sock
          (accepts_of clients ++ failed ∷ rest)
          (record { sent = sent; closed = closed; unlinked = [] })
        ≡ record {
          sent = sent ++ answers target clients;
          closed = closed ++ (sockets clients ++ sock ∷ []);
          unlinked = socket_file ∷ [];
        }
  unfolding serve
  serve-answers [] sent closed h =
      ap (λ s. record { sent = s; closed = closed ++ sock ∷ []; unlinked = socket_file ∷ [] })
        (sym (append-nil sent))
  serve-answers ((msgsock, stat) ∷ clients) sent closed h =
      serve-answers clients (sent ++ (msgsock, reply target stat) ∷ []) (closed ++ msgsock ∷ []) h.1
      ∙ ap₂ (λ s c. record { sent = s; closed = c; unlinked = socket_file ∷ [] })
          (append_assoc sent ((msgsock, reply target stat) ∷ []) (answers target clients)
            ∙ ap (λ text. sent ++ (msgsock, text) ∷ answers target clients)
                (reply-answer target msgsock stat fits h.0))
          (append_assoc closed (msgsock ∷ []) (sockets clients ++ sock ∷ []))

-- A key that is there or missing.
abbrev pub lookup_of : Option (List ℕ) → Lookup
lookup_of none = absent true
lookup_of (some text) = found text

abbrev pub key_file : Option (List ℕ) → Option (List ℕ) → Option (List ℕ) → KeyFile
key_file target socket_file daemonize = record {
  lock_file = lookup_of target;
  socket_file = lookup_of socket_file;
  daemonize = lookup_of daemonize;
}

abbrev pub or_default : Option (List ℕ) → List ℕ → List ℕ
or_default none default = default
or_default (some text) default = text

short_path : (path : List ℕ) → length path ≤ 255 → ltb (length path) 256 ≡ true
short_path path h = ground arith

load-key_file :
    (target socket_file daemonize : Option (List ℕ))
    → length (or_default target (codes "./CMakeCache.txt")) ≤ 255
    → length (or_default socket_file (codes "/tmp/hw08-daemon.socket")) ≤ 255
    → load_from_config_file (some (key_file target socket_file daemonize))
      ≡ loaded (record {
        target_file = or_default target (codes "./CMakeCache.txt");
        socket_file = or_default socket_file (codes "/tmp/hw08-daemon.socket");
        should_daemonize = same_text (or_default daemonize (codes "no")) (codes "yes");
      })
unfolding load_from_config_file
load-key_file none none none h k = refl
load-key_file none none (some d) h k = refl
load-key_file none (some s) none h k = rw (short_path s k) refl
load-key_file none (some s) (some d) h k = rw (short_path s k) refl
load-key_file (some t) none none h k = rw (short_path t h) refl
load-key_file (some t) none (some d) h k = rw (short_path t h) refl
load-key_file (some t) (some s) none h k = rw (short_path t h, short_path s k) refl
load-key_file (some t) (some s) (some d) h k = rw (short_path t h, short_path s k) refl

abbrev pub is_locked : Lock → Bool
is_locked not_opened = false
is_locked locked = true
is_locked held = false
is_locked refused = false

-- The lock is set, or another process has it.
abbrev pub IsDecided : Lock → Type 0
IsDecided not_opened = ⊥
IsDecided locked = Unit {0}
IsDecided held = Unit {0}
IsDecided refused = ⊥

-- What becomes of the program after `daemonize`, when it serves the clients.
abbrev pub daemon_serves : End → Served → Outcome
daemon_serves gone served = exits
daemon_serves (runs p) served = serves (some p) (ran served)

as_daemon-serves :
    (end : End) (served : Served) → as_daemon end (ran served) ≡ daemon_serves end served
as_daemon-serves gone served = refl
as_daemon-serves (runs p) served = refl

with_config-serves :
    (target socket_file : List ℕ) (asked : Bool) (lock : Lock) (pid : ℕ) (system : System)
    (p : ProcessState) (served : Served)
    → IsDecided lock
    → with_config lock pid system p
        (record { target_file = target; socket_file = socket_file; should_daemonize = asked })
        (ran served)
      ≡ (if asked && is_locked lock
          then daemon_serves (daemonize system p) served
          else serves none (ran served))
unfolding already_running
with_config-serves target socket_file false lock pid system p served h = refl
with_config-serves target socket_file true not_opened pid system p served h = absurd h
with_config-serves target socket_file true locked pid system p served h =
    as_daemon-serves (daemonize system p) served
with_config-serves target socket_file true held pid system p served h = refl
with_config-serves target socket_file true refused pid system p served h = absurd h

-- With a configuration file in which each of the three keys is there or missing, paths that fit their
-- buffers, that of the socket the one of its address too, and a socket that opens: the program serves
-- the clients that come until accept fails, each with one whole answer about the file of the
-- configuration, or the default one, and closes the connection; then it closes its socket and removes
-- the socket's file, and serves no one more. It does so as the process that `daemonize` leaves, when
-- the configuration says yes, the lock is free and the process does not exit in `daemonize`, and all
-- the same in the foreground when another process holds the lock.
pub main-serves :
    (target socket_file daemonized : Option (List ℕ)) (lock : Lock) (pid sock : ℕ) (system : System)
    (p : ProcessState) (clients : List Client) (rest : List Accept)
    → let target_file = or_default target (codes "./CMakeCache.txt") in
      let unlinked = or_default socket_file (codes "/tmp/hw08-daemon.socket") in
      let asked = same_text (or_default daemonized (codes "no")) (codes "yes") in
      let served : Served = record {
        sent = answers target_file clients;
        closed = sockets clients ++ sock ∷ [];
        unlinked = unlinked ∷ [];
      } in
      length target_file ≤ 255
      → length unlinked ≤ 107
      → All IsShort clients
      → IsDecided lock
      → main lock pid system p
          (some sock)
          true
          (accepts_of clients ++ failed ∷ rest)
          (some (key_file target socket_file daemonized))
        ≡ (if asked && is_locked lock
            then daemon_serves (daemonize system p) served
            else serves none (ran served))
unfolding main run_unix_socket
main-serves target socket_file daemonized lock pid sock system p clients rest fits fits_address
      short decided =
    let target_file = or_default target (codes "./CMakeCache.txt") in
    let unlinked = or_default socket_file (codes "/tmp/hw08-daemon.socket") in
    let asked = same_text (or_default daemonized (codes "no")) (codes "yes") in
    let address : ltb (length unlinked) 108 ≡ true = ground arith in
    rw
      (
        load-key_file target socket_file daemonized fits (omega arith),
        address,
        serve-answers target_file unlinked sock rest fits clients [] [] short,
      )
      (with_config-serves target_file unlinked asked lock pid system p _ decided)
