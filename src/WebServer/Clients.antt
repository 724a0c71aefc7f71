-- ===== src/WebServer/Clients.antt =====
-- What becomes of connections of hw12-webserver/main.c that share its one request record.
use otus_c_2025_3_kushko.Common.{
  ℕ, zero, suc, ◌≡◌, ◌≢◌, refl, ap, sym, ◌∙◌, Bool, true, false, Bool-cases, inl, inr, List, [],
  ◌∷◌, ◌++◌, append-nil, append_assoc, Option, none, some, Option-cases, replicate, blit, All, ◌==◌,
  if◌then◌else◌, subst, arith,
}
use otus_c_2025_3_kushko.Common.Int.{pos, ◌+ℤ◌, ◌≤ℤ◌, +ℤ_parts, -ℤ_parts}
use otus_c_2025_3_kushko.Common.Text.{c_string, strstr}
use otus_c_2025_3_kushko.WebServer.Request.{
  Request, Recv, got, Reading, header, waiting, error, receive, finish, read_req,
}
use otus_c_2025_3_kushko.WebServer.Response.{Files, Sent, sock_of, send_page, send_file, write_res}
use otus_c_2025_3_kushko.WebServer.Loop.{
  Event, incoming, ready, Server, is_full, most_events, accept, close_served, respond, respond_if,
  handle, serve,
}

abbrev end_of_header : List ℕ
end_of_header = 13 ∷ 10 ∷ 13 ∷ 10 ∷ []

receive-closed :
    (n : ℕ) (buf : List ℕ)
    → strstr (c_string buf) end_of_header ≡ false
    → receive (replicate n (got [])) buf ≡ waiting buf
unfolding receive blit
receive-closed zero buf h = refl
receive-closed (suc n) buf h = rw h (receive-closed n buf h)

-- Once the peer of a connection has closed it without the end of a header in the buffer, read_req
-- does not return, however many calls of recv it makes, each of which gives nothing.
pub read_req-closed :
    (n : ℕ) (req : Request)
    → strstr (c_string req.req_buf) end_of_header ≡ false
    → read_req (replicate n (got [])) req ≡ none
unfolding read_req
read_req-closed n req h = ap (finish req) (receive-closed n req.req_buf h)

-- The events are those of connections.
abbrev pub AreReady : List Event → Type 0
AreReady [] = Unit
AreReady (incoming conn added ∷ events) = ⊥
AreReady (ready epollin epollout calls files ∷ events) = AreReady events

some_injective : {A : Type 0} (x y : A) → some x ≡ some y → x ≡ y
some_injective x y h = cc

serve-none :
    (s : Server) (event : Event) (events : List Event)
    → handle s event ≡ none
    → serve s (event ∷ events) ≡ none
unfolding serve
serve-none s event events h = ground (arith, h)

serve-some :
    (s t : Server) (event : Event) (events : List Event)
    → handle s event ≡ some t
    → serve s (event ∷ events) ≡ serve t events
unfolding serve
serve-some s t event events h = ground (arith, h)

finish-sock : (req req' : Request) (r : Reading) → finish req r ≡ some req' → req'.sock ≡ req.sock
finish-sock req req' (waiting buf) h = cc
finish-sock req req' (error buf) h = cc
finish-sock req req' (header buf n) h = cc

send_page-sock :
    (req : Request) (page : List ℕ)
    → ((send_page req page).0.sock ≡ req.sock)
      × All (λ x. sock_of x ≡ req.sock) (send_page req page).1
unfolding send_page
send_page-sock req page = (refl, (refl, tt))

send_file-sock :
    (req : Request) (size : Option ℕ)
    → ((send_file req size).0.sock ≡ req.sock)
      × All (λ x. sock_of x ≡ req.sock) (send_file req size).1
send_file-sock req none = send_page-sock req _
send_file-sock req (some size) = (refl, (refl, (refl, tt)))

write_res-sock :
    (files : Files) (req : Request)
    → ((write_res files req).0.sock ≡ req.sock)
      × All (λ x. sock_of x ≡ req.sock) (write_res files req).1
unfolding write_res
write_res-sock files req = elim (Bool-cases (req.url_len == 0)) [
  | inl e ↦ rw e (refl, tt)
  | inr e ↦ elim (Bool-cases (files.denied req.url)) [
    | inl denied ↦ rw (e, denied) (send_page-sock req _)
    | inr allowed ↦ rw (e, allowed) (send_file-sock req (files.size_of req.url))
  ]
]

-- From `s` to `s'` nothing is sent to the socket `a`, which is not closed either, and the request
-- record is not for it.
pub record IsSpared (a : ℕ) (s s' : Server) : Type 0 where
  pub calls : List Sent
  pub sent : s'.sent ≡ s.sent ++ calls
  pub to_others : All (λ x. sock_of x ≢ a) calls
  pub shut : List ℕ
  pub closed : s'.closed ≡ shut ++ s.closed
  pub others_shut : All (λ x. x ≢ a) shut
  pub away : s'.req.sock ≢ a

All-append : {A : Type 0} (P : A → Type 0) (xs ys : List A) → All P xs → All P ys → All P (xs ++ ys)
All-append P [] ys h k = k
All-append P (x ∷ xs) ys h k = (h.0, All-append P xs ys h.1 k)

IsSpared-then : (a : ℕ) (s s' s'' : Server) → IsSpared a s s' → IsSpared a s' s'' → IsSpared a s s''
IsSpared-then a s s' s'' g k = record {
  calls = g.calls ++ k.calls;
  sent = k.sent ∙ ap (λ xs. xs ++ k.calls) g.sent ∙ append_assoc s.sent g.calls k.calls;
  to_others = All-append (λ x. sock_of x ≢ a) g.calls k.calls g.to_others k.to_others;
  shut = k.shut ++ g.shut;
  closed = k.closed ∙ ap (λ xs. k.shut ++ xs) g.closed ∙ sym (append_assoc k.shut g.shut s.closed);
  others_shut = All-append (λ x. x ≢ a) k.shut g.shut k.others_shut g.others_shut;
  away = k.away;
}

All-sock :
    (a b : ℕ) (xs : List Sent) → b ≢ a → All (λ x. sock_of x ≡ b) xs → All (λ x. sock_of x ≢ a) xs
All-sock a b [] n h = tt
All-sock a b (x ∷ xs) n h = (λ e. n (sym h.0 ∙ e), All-sock a b xs n h.1)

module _ (a : ℕ) (some_sock : a ≢ 0) where
  close_served-IsSpared :
      (s : Server) (req : Request) (calls : List Sent)
      → req.sock ≢ a
      → All (λ x. sock_of x ≢ a) calls
      → IsSpared a s (close_served (record s { req = req; sent = s.sent ++ calls }))
  close_served-IsSpared s req calls n h = elim (Bool-cases (req.res_size == 0)) [
    | inl e ↦ rw e record {
      calls = calls;
      sent = refl;
      to_others = h;
      shut = [];
      closed = refl;
      others_shut = tt;
      away = n;
    }
    | inr e ↦ rw e record {
      calls = calls;
      sent = refl;
      to_others = h;
      shut = req.sock ∷ [];
      closed = refl;
      others_shut = (n, tt);
      away = λ z. some_sock (sym z);
    }
  ]

  respond-IsSpared :
      (s : Server) (epollout : Bool) (files : Files) (req : Request)
      → req.sock ≢ a
      → IsSpared a s (respond s epollout files req)
  respond-IsSpared s true files req n =
      let (same, calls) = write_res-sock files req in
      close_served-IsSpared s (write_res files req).0 (write_res files req).1
        (λ e. n (sym same ∙ e)) (All-sock a req.sock (write_res files req).1 n calls)
  respond-IsSpared s false files req n = close_served-IsSpared s req [] n tt

  respond_if-IsSpared :
      (s s' : Server) (epollout : Bool) (files : Files) (found : Option Request)
      → ((req : Request) → found ≡ some req → req.sock ≢ a)
      → respond_if s epollout files found ≡ some s'
      → IsSpared a s s'
  respond_if-IsSpared s s' epollout files none n h = cc
  respond_if-IsSpared s s' epollout files (some req) n h =
      subst (IsSpared a s) (some_injective _ _ h)
        (respond-IsSpared s epollout files req (n req refl))

  handle-IsSpared :
      (s s' : Server) (epollin epollout : Bool) (calls : List Recv) (files : Files)
      → s.req.sock ≢ a
      → handle s (ready epollin epollout calls files) ≡ some s'
      → IsSpared a s s'
  unfolding handle read_req
  handle-IsSpared s s' true epollout calls files n h =
      respond_if-IsSpared s s' epollout files (read_req calls s.req)
        (λ req e z. n (sym (finish-sock s.req req (receive calls s.req.req_buf) e) ∙ z)) h
  handle-IsSpared s s' false epollout calls files n h =
      respond_if-IsSpared s s' epollout files (some s.req)
        (λ req e z. n (ap (λ (r : Request). r.sock) (some_injective _ _ e) ∙ z)) h

  serve-IsSpared :
      (s s' : Server) (events : List Event)
      → s.req.sock ≢ a
      → AreReady events
      → serve s events ≡ some s'
      → IsSpared a s s'
  unfolding serve
  serve-IsSpared s s' [] n r h = subst (IsSpared a s) (some_injective _ _ h) record {
    calls = [];
    sent = sym (append-nil s.sent);
    to_others = tt;
    shut = [];
    closed = refl;
    others_shut = tt;
    away = n;
  }
  serve-IsSpared s s' (incoming conn added ∷ events) n r h = absurd r
  serve-IsSpared s s' (ready epollin epollout calls files ∷ events) n r h =
      elim (Option-cases (handle s (ready epollin epollout calls files))) [
        | inl e ↦ absurd (cc (serve-none s (ready epollin epollout calls files) events e, h))
        | inr (t, e) ↦
            let first = handle-IsSpared s t epollin epollout calls files n e in
            IsSpared-then a s t s' first (
              serve-IsSpared t s' events first.away r
                (sym (serve-some s t (ready epollin epollout calls files) events e) ∙ h))
      ]

-- A connection that waits while another one is accepted is lost: when `b` is accepted after `a`, no
-- event of a connection makes the server send anything to `a`, or close it, until a next connection
-- comes, and the request record is not for `a`.
pub lost_client :
    (s s' : Server) (a b : ℕ) (events : List Event)
    → a ≢ 0
    → a ≢ b
    → is_full s.ev_count ≡ false
    → is_full (s.ev_count +ℤ pos 1) ≡ false
    → AreReady events
    → serve s (incoming (some a) true ∷ incoming (some b) true ∷ events) ≡ some s'
    → IsSpared a s s'
lost_client s s' a b events some_sock apart room room' r h =
    let s1 : Server = record s {
      req = record s.req { sock = a };
      ev_count = s.ev_count +ℤ pos 1;
    } in
    let s2 : Server = record s1 {
      req = record s.req { sock = b };
      ev_count = s.ev_count +ℤ pos 1 +ℤ pos 1;
    } in
    let first : handle s (incoming (some a) true) ≡ some s1 = unfold handle in rw room refl in
    let second : handle s1 (incoming (some b) true) ≡ some s2 = unfold handle in rw room' refl in
    let rest =
      sym (
        serve-some s s1 (incoming (some a) true) (incoming (some b) true ∷ events) first
        ∙ serve-some s1 s2 (incoming (some b) true) events second)
      ∙ h in
    let spared = serve-IsSpared a some_sock s2 s' events (λ e. apart (sym e)) r rest in
    record {
      calls = spared.calls;
      sent = spared.sent;
      to_others = spared.to_others;
      shut = spared.shut;
      closed = spared.closed;
      others_shut = spared.others_shut;
      away = spared.away;
    }

respond-bound :
    (s : Server) (epollout : Bool) (files : Files) (req : Request)
    → (respond s epollout files req).ev_count ≤ℤ s.ev_count
respond-bound s true files req = elim (Bool-cases ((write_res files req).0.res_size == 0)) [
  | inl e ↦ rw e (omega arith)
  | inr e ↦ rw e (omega (arith, -ℤ_parts s.ev_count (pos 1)))
]
respond-bound s false files req = elim (Bool-cases (req.res_size == 0)) [
  | inl e ↦ rw e (omega arith)
  | inr e ↦ rw e (omega (arith, -ℤ_parts s.ev_count (pos 1)))
]

accept-bound :
    (s : Server) (conn : Option ℕ) (added : Bool)
    → s.ev_count ≤ℤ pos most_events
    → (accept s conn added).ev_count ≤ℤ pos most_events
accept-bound s none added h = h
accept-bound s (some conn) true h = ground (arith, +ℤ_parts s.ev_count (pos 1))
accept-bound s (some conn) false h = ground arith

respond_if-bound :
    (s s' : Server) (epollout : Bool) (files : Files) (found : Option Request)
    → respond_if s epollout files found ≡ some s'
    → s'.ev_count ≤ℤ s.ev_count
respond_if-bound s s' epollout files none h = cc
respond_if-bound s s' epollout files (some req) h =
    subst (λ (t : Server). t.ev_count ≤ℤ s.ev_count) (some_injective _ _ h)
      (respond-bound s epollout files req)

handle-bound :
    (s s' : Server) (event : Event)
    → s.ev_count ≤ℤ pos most_events
    → handle s event ≡ some s'
    → s'.ev_count ≤ℤ pos most_events
unfolding handle
handle-bound s s' (incoming conn added) h k =
    subst (λ (t : Server). t.ev_count ≤ℤ pos most_events) (some_injective _ _ k)
      (accept-bound s conn added h)
handle-bound s s' (ready epollin epollout calls files) h k = omega (
  arith,
  respond_if-bound s s' epollout files (if epollin then read_req calls s.req else some s.req) k,
)

-- However the events come, the count of them stays within the 127 that epoll has room for.
pub serve-bound :
    (s s' : Server) (events : List Event)
    → s.ev_count ≤ℤ pos most_events
    → serve s events ≡ some s'
    → s'.ev_count ≤ℤ pos most_events
serve-bound s s' [] h k =
    unfold serve in subst (λ (t : Server). t.ev_count ≤ℤ pos most_events) (some_injective _ _ k) h
serve-bound s s' (event ∷ events) h k = elim (Option-cases (handle s event)) [
  | inl e ↦ absurd (cc (serve-none s event events e, k))
  | inr (t, e) ↦
      serve-bound t s' events (handle-bound s t event h e) (sym (serve-some s t event events e) ∙ k)
]
