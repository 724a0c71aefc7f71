-- ===== src/Daemon.antt =====
-- hw08-daemon/main.c: a daemon that tells the size of a file over a socket. What GLib finds in the
-- configuration file and what the system's calls give are arguments.
pub mod Serve
pub mod Process
pub mod Daemonize
mod Tests
use otus_c_2025_3_kushko.Common.{
  ℕ, zero, suc, ◌+◌, ◌-◌, Bool, true, false, ◌&&◌, List, [], ◌∷◌, ◌++◌, Option, none, some, take,
  length, ltb, if◌then◌else◌,
}
use otus_c_2025_3_kushko.Common.Decimal.{show_nat}
use otus_c_2025_3_kushko.Common.Text.{codes, same_text}
use otus_c_2025_3_kushko.Daemon.Process.{ProcessState, System, End, gone, runs, daemonize}

-- BUF_SIZE
abbrev pub buf_size : ℕ
buf_size = 1024

-- What `g_key_file_get_string` gives: a text, or a null pointer and whether the error then matches
-- G_KEY_FILE_ERROR_KEY_NOT_FOUND.
pub data Lookup : Type 0 where
  found : List ℕ → Lookup
  absent : Bool → Lookup

-- The configuration file, once it is loaded: the keys of its group Common.
pub record KeyFile : Type 0 where
  pub lock_file : Lookup
  pub socket_file : Lookup
  pub daemonize : Lookup

pub record Config : Type 0 where
  pub target_file : List ℕ
  pub socket_file : List ℕ
  pub should_daemonize : Bool

-- The value of a key, or `default` when there is none; any other error is the end.
abbrev pub value_of : Lookup → List ℕ → Option (List ℕ)
value_of (found text) default = some text
value_of (absent true) default = some default
value_of (absent false) default = none

-- The results of `load_from_config_file`: -1, a `strcpy` beyond a buffer, or 0 with the values.
pub data Loading : Type 0 where
  not_loaded : Loading
  too_long : Loading
  loaded : Config → Loading

-- The size of `target_file` and of `socket_file`.
abbrev pub path_size : ℕ
path_size = 256

-- The part about the key Daemonize.
abbrev pub load_daemonize : KeyFile → List ℕ → List ℕ → Loading
load_daemonize file target socket = elim (value_of file.daemonize (codes "no")) [
  | none ↦ not_loaded
  | some text ↦ loaded (record {
    target_file = target;
    socket_file = socket;
    should_daemonize = same_text text (codes "yes");
  })
]

-- From the key SocketFile on.
abbrev pub load_socket : KeyFile → List ℕ → Loading
load_socket file target = elim (value_of file.socket_file (codes "/tmp/hw08-daemon.socket")) [
  | none ↦ not_loaded
  | some socket ↦
      if ltb (length socket) path_size then load_daemonize file target socket else too_long
]

unfoldable pub load_from_config_file : Option KeyFile → Loading
load_from_config_file none = not_loaded
load_from_config_file (some file) = elim (value_of file.lock_file (codes "./CMakeCache.txt")) [
  | none ↦ not_loaded
  | some target ↦ if ltb (length target) path_size then load_socket file target else too_long
]

-- How the lock file opens, and how the lock is set: `held` is EACCES or EAGAIN.
pub data Lock : Type 0 where
  not_opened locked held refused : Lock

-- The results of `already_running`: an exit, or the value returned with what is written to the file.
pub data Running : Type 0 where
  exit_failure : Running
  running : Running
  started : List ℕ → Running

unfoldable pub already_running : Lock → ℕ → Running
already_running not_opened pid = exit_failure
already_running held pid = running
already_running refused pid = exit_failure
already_running locked pid = started (show_nat pid ++ 0 ∷ [])

-- `stat`: the size of the file, or the text of the error.
pub data Stat : Type 0 where
  size : ℕ → Stat
  stat_error : List ℕ → Stat

-- What `snprintf` leaves in the buffer.
unfoldable pub reply : List ℕ → Stat → List ℕ
reply target (size n) =
    take (buf_size - 1) (codes "size of " ++ (target ++ (b':' ∷ show_nat n ++ codes " bytes\n")))
reply target (stat_error text) =
    take (buf_size - 1) (codes "stat error:" ++ (text ++ (codes " file:" ++ (target ++ 10 ∷ []))))

-- A result of `accept`, with that of the `stat` after it.
pub data Accept : Type 0 where
  failed : Accept
  client : ℕ → Stat → Accept

-- What the loop has sent, and the sockets that it has closed.
pub record Served : Type 0 where
  pub sent : List (ℕ × List ℕ)
  pub closed : List ℕ
  pub unlinked : List (List ℕ)

-- The rounds of the loop, and its end, with the socket that listens; while it waits for a next
-- client it has not ended.
unfoldable pub serve : List ℕ → List ℕ → ℕ → List Accept → Served → Served
serve target socket_file sock [] s = s
serve target socket_file sock (failed ∷ accepts) s = record s {
  closed = s.closed ++ sock ∷ [];
  unlinked = s.unlinked ++ socket_file ∷ [];
}
serve target socket_file sock (client msgsock stat ∷ accepts) s =
    serve target socket_file sock accepts (record s {
      sent = s.sent ++ (msgsock, reply target stat) ∷ [];
      closed = s.closed ++ msgsock ∷ [];
    })

-- The results of `run_unix_socket`: an exit, a `strcpy` beyond `sun_path`, or what was served.
pub data Ran : Type 0 where
  stopped : Ran
  overflows : Ran
  ran : Served → Ran

-- The size of `sun_path` on Linux.
abbrev pub sun_path_size : ℕ
sun_path_size = 108

-- What `socket` gives, and whether `bind` succeeds.
unfoldable pub run_unix_socket : List ℕ → List ℕ → Option ℕ → Bool → List Accept → Ran
run_unix_socket target socket_file none bound accepts = stopped
run_unix_socket target socket_file (some sock) bound accepts =
    if ltb (length socket_file) sun_path_size
    then (if bound
        then ran (
            serve target socket_file sock accepts
              (record { sent = []; closed = []; unlinked = [] }))
        else stopped)
    else overflows

-- The ends of `main`; it serves as the daemon that `daemonize` leaves, or in the foreground.
pub data Outcome : Type 0 where
  no_config : Outcome
  overflow : Outcome
  exits : Outcome
  serves : Option ProcessState → Ran → Outcome

-- The parent of a fork and a process without a handler exit in `daemonize`.
abbrev pub as_daemon : End → Ran → Outcome
as_daemon gone served = exits
as_daemon (runs p) served = serves (some p) served

module _ (lock : Lock) (pid : ℕ) (system : System) (p : ProcessState) where
  abbrev pub after_lock : Running → Ran → Outcome
  after_lock exit_failure served = exits
  after_lock running served = serves none served
  after_lock (started text) served = as_daemon (daemonize system p) served

  abbrev pub with_config : Config → Ran → Outcome
  with_config config served =
      if config.should_daemonize
      then after_lock (already_running lock pid) served
      else serves none served

  module _ (sock : Option ℕ) (bound : Bool) (accepts : List Accept) where
    abbrev pub after_load : Loading → Outcome
    after_load not_loaded = no_config
    after_load too_long = overflow
    after_load (loaded config) =
        with_config config
          (run_unix_socket config.target_file config.socket_file sock bound accepts)

    unfoldable pub main : Option KeyFile → Outcome
    main file = after_load (load_from_config_file file)
