-- ===== src/Daemon/Daemonize.antt =====
-- What a process of hw08-daemon/main.c is after `daemonize`.
use otus_c_2025_3_kushko.Common.{
  ℕ, zero, suc, ◌≤◌, ◌<◌, ◌≡◌, ◌≢◌, refl, sym, ap, ◌∙◌, Bool, true, false, append-nil, append_assoc,
  ◌||◌, List, [], ◌∷◌, ◌++◌, Option, none, some, ltb, if◌then◌else◌, arith,
}
use otus_c_2025_3_kushko.Daemon.Process.{
  File, dev_null, Files, Message, no_limit, no_fork, no_second_fork, no_root, ProcessState, Fork,
  no_child, parent, child, System, gone, runs, put, close_all, limit_of, take_descriptor, open_null,
  dup_first, say, reopen, detach, after_second, after_first, in_session, daemonize,
}

close_all-at :
    (n : ℕ) (files : Files) (i : ℕ) → close_all n files i ≡ (if ltb i n then none else files i)
unfolding close_all
close_all-at zero files i = ground arith
close_all-at (suc n) files i = ground (arith, close_all-at n files i)

-- The system takes the lowest descriptor that is not in use, of as many as a process can have.
pub record IsLowest (free : Files → Option ℕ) (open_max : ℕ) : Type 0 where
  pub lowest_doc :
      (files : Files) (n : ℕ)
      → n < open_max
      → files n ≡ none
      → ((m : ℕ) → m < n → files m ≢ none)
      → free files ≡ some n

-- The message of a fork that fails.
abbrev pub no_child_message : Fork → Message → List Message
no_child_message no_child message = message ∷ []
no_child_message parent message = []
no_child_message child message = []

log-message :
    (ok : Bool) (message : Message) (log : List Message)
    → (if ok then log else log ++ message ∷ []) ≡ log ++ (if ok then [] else message ∷ [])
log-message true message log = sym (append-nil log)
log-message false message log = refl

log-messages :
    (ok : Bool) (message : Message) (log a b c : List Message)
    → (((if ok then log else log ++ message ∷ []) ++ a) ++ b) ++ c
      ≡ log ++ ((if ok then [] else message ∷ []) ++ (a ++ (b ++ c)))
log-messages true message log a b c = append_assoc (log ++ a) b c ∙ append_assoc log a (b ++ c)
log-messages false message log a b c =
    append_assoc ((log ++ message ∷ []) ++ a) b c
    ∙ append_assoc (log ++ message ∷ []) a (b ++ c)
    ∙ append_assoc log (message ∷ []) (a ++ (b ++ c))

-- A process with more messages.
abbrev say_all : ProcessState → List Message → ProcessState
say_all p messages = record p { log = p.log ++ messages }

say-none : (p : ProcessState) → p ≡ say_all p []
say-none p = ap (λ text. record p { log = text }) (sym (append-nil p.log))

after_first-child :
    (sys : System) (fork : Fork) (p : ProcessState)
    → fork ≢ parent
    → after_first sys fork p ≡ in_session sys (say_all p (no_child_message fork no_fork))
after_first-child sys no_child p h = refl
after_first-child sys parent p h = absurd (h refl)
after_first-child sys child p h = ap (in_session sys) (say-none p)

after_second-child :
    (sys : System) (fork : Fork) (p : ProcessState)
    → fork ≢ parent
    → after_second sys fork p ≡ runs (detach sys (say_all p (no_child_message fork no_second_fork)))
after_second-child sys no_child p h = refl
after_second-child sys parent p h = absurd (h refl)
after_second-child sys child p h = ap (λ q. runs (detach sys q)) (say-none p)

module _ (sys : System) (open_max : ℕ) (lowest : IsLowest sys.free_descriptor open_max)
    (room : 3 ≤ open_max) where
  take_lowest :
      (file : File) (files : Files) (n : ℕ)
      → n < 3
      → files n ≡ none
      → ((m : ℕ) → m < n → files m ≢ none)
      → take_descriptor sys file files ≡ (put n (some file) files, some n)
  unfolding take_descriptor
  take_lowest file files n k e h =
      rw (lowest.lowest_doc files n (omega arith) e h, take_descriptor) refl

  open_lowest :
      (files : Files)
      → sys.can_open ≡ true
      → files 0 ≡ none
      → open_null sys files ≡ (put 0 (some dev_null) files, some 0)
  unfolding open_null
  open_lowest files ok e =
      simp (ok, take_lowest dev_null files 0 (omega arith) e (λ m k e'. absurd (omega arith)))

  dup_lowest :
      (files : Files) (n : ℕ)
      → n < 3
      → files 0 ≡ some dev_null
      → files n ≡ none
      → ((m : ℕ) → m < n → files m ≡ some dev_null)
      → dup_first sys files ≡ (put n (some dev_null) files, some n)
  unfolding dup_first
  dup_lowest files n small e0 e h =
      rw (e0, dup_first)
        (take_lowest dev_null files n small e (λ m k e'. ground (arith, h m k, e')))

  -- Three descriptors are taken in turn.
  abbrev with_one : Files → Files
  with_one files = put 0 (some dev_null) files

  abbrev with_two : Files → Files
  with_two files = put 1 (some dev_null) (with_one files)

  abbrev with_three : Files → Files
  with_three files = put 2 (some dev_null) (with_two files)

  reopen_lem :
      (p : ProcessState)
      → sys.can_open ≡ true
      → p.files 0 ≡ none
      → p.files 1 ≡ none
      → p.files 2 ≡ none
      → reopen sys p ≡ record p { files = with_three p.files }
  unfolding reopen
  reopen_lem p ok e0 e1 e2 =
      let first = open_lowest p.files ok e0 in
      let second = dup_lowest (with_one p.files) 1 (omega arith) refl e1 (λ m k. ground arith) in
      let third = dup_lowest (with_two p.files) 2 (omega arith) refl e2 (λ m k. ground arith) in
      rw (first, second, third) refl

  abbrev pub root_message : List Message
  root_message = if sys.chdir then [] else no_root ∷ []

  -- The messages of the calls that failed and did not stop the program.
  abbrev pub failures : List Message
  failures =
      (if sys.got_limit then [] else no_limit ∷ [])
      ++ (no_child_message sys.first_fork no_fork
          ++ (no_child_message sys.second_fork no_second_fork ++ root_message))

  -- Where a descriptor leads.
  abbrev pub reopened : Files → Files
  reopened files i =
      if ltb i 3 then some dev_null else if ltb i (limit_of sys.rlim_max) then none else files i

  with_three-at :
      (files : Files) (i : ℕ)
      → 3 ≤ limit_of sys.rlim_max
      → with_three (close_all (limit_of sys.rlim_max) files) i ≡ reopened files i
  with_three-at files i enough = rw (close_all-at (limit_of sys.rlim_max) files i) (ground arith)

  is_closed :
      (files : Files) (i : ℕ)
      → i < limit_of sys.rlim_max
      → close_all (limit_of sys.rlim_max) files i ≡ none
  is_closed files i k = rw (close_all-at (limit_of sys.rlim_max) files i) (ground arith)

  detach_lem :
      (p : ProcessState)
      → sys.can_open ≡ true
      → 3 ≤ limit_of sys.rlim_max
      → detach sys p ≡ record p {
        files = with_three (close_all (limit_of sys.rlim_max) p.files);
        at_root = sys.chdir || p.at_root;
        log = p.log ++ root_message;
      }
  unfolding detach
  detach_lem p can enough =
      reopen_lem
        (record p {
          files = close_all (limit_of sys.rlim_max) p.files;
          at_root = sys.chdir || p.at_root;
          log = if sys.chdir then p.log else p.log ++ no_root ∷ [];
        })
        can (is_closed p.files 0 (omega arith)) (is_closed p.files 1 (omega arith))
        (is_closed p.files 2 (omega arith))
      ∙ ap
          (λ text. record p {
            files = with_three (close_all (limit_of sys.rlim_max) p.files);
            at_root = sys.chdir || p.at_root;
            log = text;
          })
          (log-message sys.chdir no_root p.log)

  -- When a process can have three files at least, neither fork makes it a parent, `sigaction` and
  -- `open` succeed and the limit is at least 3, it runs on, even when a fork fails. Its descriptors 0, 1 and 2 lead to /dev/null,
  -- the other ones below the limit are closed, and those above it are as they were. The mask is 0,
  -- SIGQUIT is caught, the directory is the root when `chdir` succeeds, and the messages are those of
  -- the calls that failed and no other.
  pub daemonize_lem :
      (p : ProcessState) (i : ℕ)
      → sys.first_fork ≢ parent
      → sys.second_fork ≢ parent
      → sys.sigaction ≡ true
      → sys.can_open ≡ true
      → 3 ≤ limit_of sys.rlim_max
      → (p' : ProcessState) × (daemonize sys p ≡ runs p')
        × (p'.files i ≡ reopened p.files i)
        × (p'.mask ≡ 0)
        × (p'.is_caught ≡ true)
        × (p'.at_root ≡ (sys.chdir || p.at_root))
        × (p'.log ≡ p.log ++ failures)
  unfolding daemonize
  daemonize_lem p i h1 h2 ok can enough =
      let p1 = say no_limit sys.got_limit (record p { mask = 0 }) in
      let p2 = say_all p1 (no_child_message sys.first_fork no_fork) in
      let p3 =
        say_all (record p2 { is_caught = true })
          (no_child_message sys.second_fork no_second_fork) in
      let second : in_session sys p2 ≡ runs (detach sys p3) =
        ap
          (λ caught.
            if caught
            then after_second sys sys.second_fork (record p2 { is_caught = true })
            else gone)
          ok
        ∙ after_second-child sys sys.second_fork (record p2 { is_caught = true }) h2 in
      (
        record p {
          files = with_three (close_all (limit_of sys.rlim_max) p.files);
          mask = 0;
          is_caught = true;
          at_root = sys.chdir || p.at_root;
          log = p3.log ++ root_message;
        },
        after_first-child sys sys.first_fork p1 h1 ∙ second ∙ ap runs (detach_lem p3 can enough),
        with_three-at p.files i enough,
        refl,
        refl,
        refl,
        log-messages sys.got_limit no_limit p.log (no_child_message sys.first_fork no_fork)
            (no_child_message sys.second_fork no_second_fork) root_message,
      )
