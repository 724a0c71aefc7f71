-- ===== src/WebServer/Loop.antt =====
-- The loop of `main` of hw12-webserver/main.c over the events of epoll.
use otus_c_2025_3_kushko.Common.{
  ℕ, Bool, false, List, [], ◌∷◌, ◌++◌, Option, none, some, ◌==◌, if◌then◌else◌,
}
use otus_c_2025_3_kushko.Common.Int.{ℤ, pos, negsuc, ◌+ℤ◌, ◌-ℤ◌}
use otus_c_2025_3_kushko.WebServer.Request.{Request, no_request, Recv, read_req}
use otus_c_2025_3_kushko.WebServer.Response.{Files, Sent, write_res}

-- An event: one of the listening socket, with what `accept` gives (`none` is an error) and whether
-- `epoll_ctl` succeeds; or one of a connection, with the two flags that the code looks at, what
-- `recv` gives, and the files at that time. The data of a connection's event are a pointer to the
-- one request record, so that the event does not tell which connection it is of.
pub data Event : Type 0 where
  incoming : Option ℕ → Bool → Event
  ready : (epollin epollout : Bool) → List Recv → Files → Event

-- The request record, the count of events, the calls of `send` and `sendfile`, and the sockets that
-- are closed.
pub record Server : Type 0 where
  pub req : Request
  pub ev_count : ℤ
  pub sent : List Sent
  pub closed : List ℕ

-- EPOLL_MAX - 1
abbrev pub most_events : ℕ
most_events = 127

abbrev pub is_full : ℤ → Bool
is_full (pos n) = n == most_events
is_full (negsuc n) = false

abbrev pub accept : Server → Option ℕ → Bool → Server
accept s none added = s
accept s (some conn) added =
    if is_full s.ev_count
    then record s { closed = conn ∷ s.closed }
    else if added
    then record s { req = record s.req { sock = conn }; ev_count = s.ev_count +ℤ pos 1 }
    else record s { req = record s.req { sock = conn }; closed = conn ∷ s.closed }

-- The end of a connection's event, when there is a response.
abbrev pub close_served : Server → Server
close_served s = if s.req.res_size == 0 then s else record s {
  req = no_request;
  ev_count = s.ev_count -ℤ pos 1;
  closed = s.req.sock ∷ s.closed;
}

abbrev pub respond : Server → Bool → Files → Request → Server
respond s epollout files req =
    let (req', sent) = if epollout then write_res files req else (req, []) in
    close_served (record s { req = req'; sent = s.sent ++ sent })

abbrev pub respond_if : Server → Bool → Files → Option Request → Option Server
respond_if s epollout files none = none
respond_if s epollout files (some req) = some (respond s epollout files req)

-- One round of the loop; `none` when the server has not come back from `read_req`.
unfoldable pub handle : Server → Event → Option Server
handle s (incoming conn added) = some (accept s conn added)
handle s (ready epollin epollout calls files) =
    respond_if s epollout files (if epollin then read_req calls s.req else some s.req)

unfoldable pub serve : Server → List Event → Option Server
serve s [] = some s
serve s (event ∷ events) = elim (handle s event) [ none ↦ none | some s' ↦ serve s' events ]
