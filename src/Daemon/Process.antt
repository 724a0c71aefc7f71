-- ===== src/Daemon/Process.antt =====
-- `daemonize` of hw08-daemon/main.c, on the open files of a process. What the system's calls give is an
-- argument; the connection that `syslog` opens is left out.
use otus_c_2025_3_kushko.Common.{
  ℕ, zero, suc, Bool, true, false, ◌&&◌, ◌||◌, List, [], ◌∷◌, ◌++◌, Option, none, some, ◌==◌,
  if◌then◌else◌,
}

pub data File : Type 0 where
  dev_null : File
  other_file : ℕ → File

abbrev pub Files : Type 0
Files = ℕ → Option File

-- What is written to the standard error or to the log, with the descriptors of the last message.
pub data Message : Type 0 where
  no_limit no_fork no_second_fork no_root : Message
  bad_files : Option ℕ → Option ℕ → Option ℕ → Message

pub record ProcessState : Type 0 where
  pub files : Files
  pub mask : ℕ
  pub at_root : Bool
  pub is_caught : Bool
  pub log : List Message

-- What a process finds after `fork`.
pub data Fork : Type 0 where
  no_child : Fork
  parent : Fork
  child : Fork

-- The results of the calls: whether `getrlimit` succeeds, and what `rl.rlim_max` is then, or `none` for
-- RLIM_INFINITY; the two forks; and whether `sigaction`, `chdir` and `open` succeed. The descriptor
-- that the system takes for a file is a function of those in use.
pub record System : Type 0 where
  pub got_limit : Bool
  pub rlim_max : Option ℕ
  pub first_fork : Fork
  pub sigaction : Bool
  pub second_fork : Fork
  pub chdir : Bool
  pub can_open : Bool
  pub free_descriptor : Files → Option ℕ

pub data End : Type 0 where
  gone : End
  runs : ProcessState → End

abbrev pub put : ℕ → Option File → Files → Files
put i file files = λ j. if j == i then file else files j

-- The loop that closes the descriptors below a number.
unfoldable pub close_all : ℕ → Files → Files
close_all zero files = files
close_all (suc n) files = put n none (close_all n files)

-- The limit of the loop.
abbrev pub limit_of : Option ℕ → ℕ
limit_of none = 1024
limit_of (some n) = n

-- A file takes a descriptor, if there is one.
unfoldable pub take_descriptor : System → File → Files → Files × Option ℕ
take_descriptor sys file files = elim (sys.free_descriptor files) [
  | none ↦ (files, none)
  | some i ↦ (put i (some file) files, some i)
]

unfoldable pub open_null : System → Files → Files × Option ℕ
open_null sys files = if sys.can_open then take_descriptor sys dev_null files else (files, none)

-- `dup(0)`
unfoldable pub dup_first : System → Files → Files × Option ℕ
dup_first sys files = elim (files 0) [
  | none ↦ (files, none)
  | some file ↦ take_descriptor sys file files
]

abbrev pub is_descriptor : Option ℕ → ℕ → Bool
is_descriptor none n = false
is_descriptor (some i) n = i == n

abbrev pub say : Message → Bool → ProcessState → ProcessState
say message ok p = record p { log = if ok then p.log else p.log ++ message ∷ [] }

-- The descriptors 0, 1 and 2.
unfoldable pub reopen : System → ProcessState → ProcessState
reopen sys p =
    let (files, fd0) = open_null sys p.files in
    let (files', fd1) = dup_first sys files in
    let (files'', fd2) = dup_first sys files' in
    say (bad_files fd0 fd1 fd2) (is_descriptor fd0 0 && is_descriptor fd1 1 && is_descriptor fd2 2)
      (record p { files = files'' })

-- After the second fork.
unfoldable pub detach : System → ProcessState → ProcessState
detach sys p =
    let p' = say no_root sys.chdir (record p { at_root = sys.chdir || p.at_root }) in
    reopen sys (record p' { files = close_all (limit_of sys.rlim_max) p'.files })

abbrev pub after_second : System → Fork → ProcessState → End
after_second sys parent p = gone
after_second sys no_child p = runs (detach sys (say no_second_fork false p))
after_second sys child p = runs (detach sys p)

-- After the first fork.
abbrev pub in_session : System → ProcessState → End
in_session sys p =
    if sys.sigaction then after_second sys sys.second_fork (record p { is_caught = true }) else gone

abbrev pub after_first : System → Fork → ProcessState → End
after_first sys parent p = gone
after_first sys no_child p = in_session sys (say no_fork false p)
after_first sys child p = in_session sys p

unfoldable pub daemonize : System → ProcessState → End
daemonize sys p =
    after_first sys sys.first_fork (say no_limit sys.got_limit (record p { mask = 0 }))
