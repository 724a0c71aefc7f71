-- ===== src/Daemon/Tests.antt =====
-- A run of the daemon of hw08-daemon/main.c with two clients.
use otus_c_2025_3_kushko.Common.{
  ℕ, zero, suc, ◌<◌, ◌≢◌, Option, ◌||◌, ◌≡◌, refl, true, false, List, [], ◌∷◌, ◌++◌, none, some,
  arith,
}
use otus_c_2025_3_kushko.Common.Text.{codes}
use otus_c_2025_3_kushko.Daemon.{
  absent, load_from_config_file, locked, size, stat_error, failed, no_config, main,
}
use otus_c_2025_3_kushko.Daemon.Process.{
  File, other_file, Files, ProcessState, System, no_child, child, runs, daemonize,
}
use otus_c_2025_3_kushko.Daemon.Daemonize.{IsLowest, reopened, failures, daemonize_lem}
use otus_c_2025_3_kushko.Daemon.Serve.{
  Client, accepts_of, answers, key_file, daemon_serves, main-serves,
}

abbrev two_clients : List Client
two_clients = (5, size 120) ∷ (6, stat_error (codes "No such file or directory")) ∷ []

-- A system with three descriptors.
abbrev pick : ℕ → Option File → Option ℕ → Option ℕ
pick i none rest = some i
pick i (some file) rest = rest

abbrev first_of_three : Files → Option ℕ
first_of_three files = pick 0 (files 0) (pick 1 (files 1) (pick 2 (files 2) none))

pick-used : (i : ℕ) (file : Option File) (rest : Option ℕ) → file ≢ none → pick i file rest ≡ rest
pick-used i none rest h = absurd (h refl)
pick-used i (some file) rest h = refl

lowest_of :
    (files : Files) (n : ℕ)
    → n < 3
    → files n ≡ none
    → ((m : ℕ) → m < n → files m ≢ none)
    → first_of_three files ≡ some n
lowest_of files zero small e used = rw e refl
lowest_of files (suc zero) small e used =
    rw (pick-used 0 (files 0) (pick 1 (files 1) (pick 2 (files 2) none)) (used 0 (omega arith)), e)
      refl
lowest_of files (suc (suc zero)) small e used =
    rw
      (
        pick-used 0 (files 0) (pick 1 (files 1) (pick 2 (files 2) none)) (used 0 (omega arith)),
        pick-used 1 (files 1) (pick 2 (files 2) none) (used 1 (omega arith)),
        e,
      )
      refl
lowest_of files (suc (suc (suc n))) small e used = absurd (omega arith)

first-IsLowest : IsLowest first_of_three 3
first-IsLowest = record { lowest_doc = lowest_of }

-- A second fork that fails.
abbrev small_system : System
small_system = record {
  got_limit = true;
  rlim_max = some 64;
  first_fork = child;
  sigaction = true;
  second_fork = no_child;
  chdir = true;
  can_open = true;
  free_descriptor = first_of_three;
}

-- The lock file is open.
abbrev with_lock : ProcessState
with_lock = record {
  files = λ i. some (other_file i);
  mask = 18;
  at_root = false;
  is_caught = false;
  log = [];
}

-- A key that cannot be read for another reason ends the program.
unreadable-no_config :
    main locked 7 small_system with_lock (some 3) true [] (
      some
        (record { lock_file = absent true; socket_file = absent false; daemonize = absent true }))
    ≡ no_config
unfolding main load_from_config_file
unreadable-no_config = refl

-- The lock is free, and the clients are served as a daemon.
main-serves_example :
    main locked 7 small_system with_lock
      (some 3)
      true
      (accepts_of two_clients ++ failed ∷ [])
      (some (key_file (some (codes "/tmp/log")) none (some (codes "yes"))))
    ≡ daemon_serves (daemonize small_system with_lock) (record {
      sent = answers (codes "/tmp/log") two_clients;
      closed = 5 ∷ 6 ∷ 3 ∷ [];
      unlinked = codes "/tmp/hw08-daemon.socket" ∷ [];
    })
main-serves_example =
    main-serves (some (codes "/tmp/log")) none (some (codes "yes")) locked 7 3 small_system
      with_lock two_clients [] (omega arith) (omega arith) (omega arith, (omega arith, tt)) tt

daemonize_lem_example :
    (p' : ProcessState) × (daemonize small_system with_lock ≡ runs p')
    × (p'.files 3 ≡ reopened small_system 3 first-IsLowest (omega arith) with_lock.files 3)
    × (p'.mask ≡ 0)
    × (p'.is_caught ≡ true)
    × (p'.at_root ≡ (true || false))
    × (p'.log ≡ [] ++ failures small_system 3 first-IsLowest (omega arith))
daemonize_lem_example =
    daemonize_lem small_system 3 first-IsLowest (omega arith) with_lock 3 (λ e. ground (arith, e))
      (λ e. ground (arith, e)) refl refl (omega arith)
