-- ===== src/WebServer/Start.antt =====
-- The start of `main` of hw12-webserver/main.c, and clients that come one after the other.
use otus_c_2025_3_kushko.Common.{
  ℕ, ◌≡◌, refl, sym, ap, ◌∙◌, Bool, true, false, inl, inr, List, [], ◌∷◌, ◌++◌, append-nil,
  append_assoc, Option, some, Option-cases, All, get_or, length, ltb, arith,
}
use otus_c_2025_3_kushko.Common.Int.{ℤ, pos, negsuc}
use otus_c_2025_3_kushko.Common.Decimal.{atoi}
use otus_c_2025_3_kushko.Common.Text.{codes}
use otus_c_2025_3_kushko.WebServer.Request.{no_request, got}
use otus_c_2025_3_kushko.WebServer.Response.{Files, Sent}
use otus_c_2025_3_kushko.WebServer.Loop.{Event, incoming, ready, Server, handle, serve}
use otus_c_2025_3_kushko.WebServer.Pages.{answer}
use otus_c_2025_3_kushko.WebServer.Serve.{request_text, IsRequest, serve_lem}

-- The arguments, with their defaults.
pub record Options : Type 0 where
  pub dir_path : List ℕ
  pub addr : List ℕ
  pub port : ℤ

abbrev port_of : Bool → List (List ℕ) → ℤ
port_of true args = atoi (get_or args 2 [])
port_of false args = pos 30020

-- The arguments are those after the program's name.
unfoldable pub options : List (List ℕ) → Options
options args = record {
  dir_path = get_or args 0 (codes ".");
  addr = get_or args 1 (codes "127.0.0.1");
  port = port_of (ltb 2 (length args)) args;
}

-- `set_nonblocking`, by what the two calls of `fcntl` return.
unfoldable set_nonblocking : ℤ → ℤ → ℤ
set_nonblocking (negsuc n) setfl = negsuc 0
set_nonblocking (pos opts) (negsuc n) = negsuc 0
set_nonblocking (pos opts) (pos n) = pos 0

-- How far the server's socket comes.
pub data Setup : Type 0 where
  no_socket not_bound not_listening not_added listening : Setup

-- The text that `perror` prints at an exit, or the loop with its options.
pub data Outcome : Type 0 where
  exits : List ℕ → Outcome
  runs : Options → Option Server → Outcome

-- The state before the loop.
abbrev pub first_server : Server
first_server = record { req = no_request; ev_count = pos 1; sent = []; closed = [] }

unfoldable pub main : List (List ℕ) → Setup → List Event → Outcome
main args no_socket events = exits (codes "socket")
main args not_bound events = exits (codes "bind")
main args not_listening events = exits (codes "listen")
main args not_added events = exits (codes "epoll_ctl")
main args listening events = runs (options args) (serve first_server events)

-- A client that connects and sends one request, and the files at that time.
pub record Visit : Type 0 where
  pub conn : ℕ
  pub method : List ℕ
  pub path : List ℕ
  pub rest : List ℕ
  pub files : Files

abbrev pub IsVisit : Visit → Type 0
IsVisit v = IsRequest v.method v.path v.rest

-- Its two events.
abbrev pub events_of : List Visit → List Event
events_of [] = []
events_of (v ∷ visits) =
    incoming (some v.conn) true
    ∷ ready true true (got (request_text v.method v.path v.rest) ∷ []) v.files
    ∷ events_of visits

abbrev pub answers : List Visit → List Sent
answers [] = []
answers (v ∷ visits) = answer v.files v.conn v.path ++ answers visits

-- The connections, the last one first, before others.
abbrev pub connections : List Visit → List ℕ → List ℕ
connections [] before = before
connections (v ∷ visits) before = connections visits (v.conn ∷ before)

some_injective : (x y : Server) → some x ≡ some y → x ≡ y
some_injective x y h = cc

serve-after :
    (s s' : Server) (xs ys : List Event) → serve s xs ≡ some s' → serve s (xs ++ ys) ≡ serve s' ys
unfolding serve
serve-after s s' [] ys h = ap (λ (t : Server). serve t ys) (some_injective s s' h)
serve-after s s' (x ∷ xs) ys h = elim (Option-cases (handle s x)) [
  | inl e ↦ absurd (ground (arith, h, e))
  | inr (t, e) ↦ rw (e, serve) (serve-after t s' xs ys (ground (arith, h, e)))
]

visits-answers :
    (visits : List Visit) (sent : List Sent) (closed : List ℕ)
    → All IsVisit visits
    → serve
        (record { req = no_request; ev_count = pos 1; sent = sent; closed = closed })
        (events_of visits)
      ≡ some (record {
        req = no_request;
        ev_count = pos 1;
        sent = sent ++ answers visits;
        closed = connections visits closed;
      })
visits-answers [] sent closed h =
    unfold serve in
    ap (λ (xs : List Sent). some (record first_server { sent = xs; closed = closed }))
      (sym (append-nil sent))
visits-answers (v ∷ visits) sent closed h =
    let s : Server = record first_server { sent = sent; closed = closed } in
    let own = answer v.files v.conn v.path in
    let s' : Server = record first_server { sent = sent ++ own; closed = v.conn ∷ closed } in
    serve-after s s'
      (incoming (some v.conn) true
        ∷ ready true true (got (request_text v.method v.path v.rest) ∷ []) v.files
        ∷ [])
      (events_of visits) (serve_lem s v.files v.conn v.method v.path v.rest refl refl h.0)
    ∙ visits-answers visits (sent ++ own) (v.conn ∷ closed) h.1
    ∙ ap
        (λ (xs : List Sent).
          some (record first_server { sent = xs; closed = connections visits (v.conn ∷ closed) }))
        (append_assoc sent own (answers visits))

-- From its start, with whatever arguments, the server answers any number of clients that come one
-- after the other, and closes each connection; at the end no request is under way and the count of
-- events is what it was. Each client's request comes whole in one call of recv, at an event that can
-- be read and written; it fits the buffer, has no zero byte, and starts with a method, a space, a slash and a
-- path of 1 to 255 characters, method and path without spaces, and a space, so that a request for the slash alone is not among them.
pub main-answers :
    (args : List (List ℕ)) (visits : List Visit)
    → All IsVisit visits
    → main args listening (events_of visits)
      ≡ runs
          (options args)
          (some (record first_server { sent = answers visits; closed = connections visits [] }))
unfolding main
main-answers args visits h = ap (runs (options args)) (visits-answers visits [] [] h)
