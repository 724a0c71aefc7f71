-- ===== src/WebServer/Serve.antt =====
-- A connection that hw12-webserver/main.c serves while no other is there.
use otus_c_2025_3_kushko.Common.{
  ℕ, zero, suc, ◌+◌, ◌-◌, ◌≤◌, ◌<◌, ◌≡◌, ◌≢◌, refl, ap, ap₂, sym, ◌∙◌, true, false, List, [], ◌∷◌,
  ◌++◌, append-nil, append_assoc, some, length, take-all, drop, set, replicate, blit, All, ◌==◌,
  arith,
}
use otus_c_2025_3_kushko.Common.Int.{ℤ, pos, ◌+ℤ◌, ◌-ℤ◌, +ℤ_cancel}
use otus_c_2025_3_kushko.Common.Text.{
  c_string, c_string-append, strstr, strstr-middle, strtok-token,
}
use otus_c_2025_3_kushko.WebServer.Request.{
  Request, no_request, parse_url, after_first, second_token, got, header, receive, finish, read_req,
  mark,
}
use otus_c_2025_3_kushko.WebServer.Response.{Files, write_res}
use otus_c_2025_3_kushko.WebServer.Pages.{answer, write_res_lem}
use otus_c_2025_3_kushko.WebServer.Loop.{
  Event, incoming, ready, Server, is_full, respond, respond_if, handle, serve,
}

-- The text of a request: method, address after a slash, the rest of the first line and of the
-- header, and its end.
abbrev pub request_text : List ℕ → List ℕ → List ℕ → List ℕ
request_text method path rest = method ++ 32 ∷ 47 ∷ (path ++ 32 ∷ (rest ++ 13 ∷ 10 ∷ 13 ∷ 10 ∷ []))

-- A character of a word: neither zero nor a space.
abbrev pub IsWord : ℕ → Type 0
IsWord c = (c ≢ 0) × (c ≢ 32)

-- A request that fits the buffer, with a method and an address that fits its field.
pub record IsRequest (method path rest : List ℕ) : Type 0 where
  pub method_word : All IsWord method
  pub some_method : 0 < length method
  pub path_word : All IsWord path
  pub some_path : 0 < length path
  pub path_fits : length path ≤ 255
  pub rest_text : All (λ c. c ≢ 0) rest
  pub fits : length (request_text method path rest) < 2048

All-left : (P Q : ℕ → Type 0) (xs : List ℕ) → All (λ c. P c × Q c) xs → All P xs × All Q xs
All-left P Q [] h = (tt, tt)
All-left P Q (x ∷ xs) h = let (p, q) = All-left P Q xs h.1 in ((h.0.0, p), (h.0.1, q))

All-append : (P : ℕ → Type 0) (xs ys : List ℕ) → All P xs → All P ys → All P (xs ++ ys)
All-append P [] ys h k = k
All-append P (x ∷ xs) ys h k = (h.0, All-append P xs ys h.1 k)

abbrev zeros : ℕ → List ℕ
zeros n = replicate n 0

c_string-zeros : (n : ℕ) → c_string (zeros n) ≡ []
unfolding c_string
c_string-zeros zero = refl
c_string-zeros (suc n) = refl

drop-zeros : (k n : ℕ) → drop k (zeros n) ≡ zeros (n - k)
drop-zeros zero n = ap zeros {x = n} {y = n - 0} (omega arith)
drop-zeros (suc k) zero = ap zeros {x = 0} {y = 0 - suc k} (omega arith)
drop-zeros (suc k) (suc n) = drop-zeros k n ∙ ap zeros {x = n - k} {y = suc n - suc k} (omega arith)

set-append : (xs ys : List ℕ) (v : ℕ) → set (xs ++ ys) (length xs) v ≡ xs ++ set ys 0 v
set-append [] ys v = refl
set-append (x ∷ xs) ys v = ap (λ zs. x ∷ zs) (set-append xs ys v)

set-zeros : (n : ℕ) → set (zeros n) 0 0 ≡ zeros n
set-zeros zero = refl
set-zeros (suc n) = refl

module _ (bytes : List ℕ) (text : All (λ c. c ≢ 0) bytes) where
  abbrev filled : List ℕ
  filled = blit no_request.req_buf 0 bytes

  filled-text : filled ≡ bytes ++ zeros (2048 - length bytes)
  unfolding blit
  filled-text =
      ap (λ zs. bytes ++ zs)
        (ap (λ k. drop k (zeros 2048)) {x = 0 + length bytes} {y = length bytes} (omega arith)
          ∙ drop-zeros (length bytes) 2048)

  c_string-filled : c_string filled ≡ bytes
  c_string-filled =
      ap c_string filled-text
      ∙ c_string-append bytes (zeros (2048 - length bytes)) text
      ∙ ap (λ zs. bytes ++ zs) (c_string-zeros (2048 - length bytes))
      ∙ append-nil bytes

  ended-filled : set filled (length bytes) 0 ≡ filled
  ended-filled =
      ap (λ zs. set zs (length bytes) 0) filled-text
      ∙ set-append bytes (zeros (2048 - length bytes)) 0
      ∙ ap (λ zs. bytes ++ zs) (set-zeros (2048 - length bytes))
      ∙ sym filled-text

module _ (method path rest : List ℕ) (v : IsRequest method path rest) where
  abbrev bytes : List ℕ
  bytes = request_text method path rest

  bytes-text : All (λ c. c ≢ 0) bytes
  bytes-text =
      let not_zero = λ (c : ℕ). c ≢ 0 in
      let not_space = λ (c : ℕ). c ≢ 32 in
      let end = All-append not_zero rest (13 ∷ 10 ∷ 13 ∷ 10 ∷ []) v.rest_text (omega arith) in
      let after_slash =
        All-append not_zero path (32 ∷ (rest ++ 13 ∷ 10 ∷ 13 ∷ 10 ∷ []))
          (All-left not_zero not_space path v.path_word).0 (omega arith, end) in
      All-append not_zero method (32 ∷ 47 ∷ (path ++ 32 ∷ (rest ++ 13 ∷ 10 ∷ 13 ∷ 10 ∷ [])))
        (All-left not_zero not_space method v.method_word).0
        (omega arith, (omega arith, after_slash))

  bytes-header : strstr bytes (13 ∷ 10 ∷ 13 ∷ 10 ∷ []) ≡ true
  bytes-header =
      ap (λ cs. strstr cs (13 ∷ 10 ∷ 13 ∷ 10 ∷ []))
        (sym (
          append_assoc method (32 ∷ 47 ∷ (path ++ 32 ∷ rest)) (13 ∷ 10 ∷ 13 ∷ 10 ∷ [])
          ∙ ap (λ cs. method ++ 32 ∷ 47 ∷ cs)
              (append_assoc path (32 ∷ rest) (13 ∷ 10 ∷ 13 ∷ 10 ∷ []))))
      ∙ strstr-middle (method ++ 32 ∷ 47 ∷ (path ++ 32 ∷ rest)) (13 ∷ 10 ∷ 13 ∷ 10 ∷ []) []
          (omega arith)

  parse_url-bytes : parse_url bytes ≡ path
  unfolding parse_url
  parse_url-bytes =
      let not_zero = λ (c : ℕ). c ≢ 0 in
      let not_space = λ (c : ℕ). c ≢ 32 in
      let after_path = rest ++ 13 ∷ 10 ∷ 13 ∷ 10 ∷ [] in
      ap after_first (
        strtok-token 32 method (47 ∷ (path ++ 32 ∷ after_path))
          (All-left not_zero not_space method v.method_word).1 v.some_method)
      ∙ ap second_token (
          strtok-token 32 (47 ∷ path) after_path
            (omega arith, (All-left not_zero not_space path v.path_word).1) (omega arith))
      ∙ take-all 255 path v.path_fits

  -- The record once the request has been read.
  abbrev read_request : ℕ → Request
  read_request conn = record no_request {
    sock = conn;
    req_buf = mark 2 false (filled bytes bytes-text);
    req_size = length bytes;
    url = path;
    url_len = length path;
  }

  receive-bytes :
      receive (got bytes ∷ []) no_request.req_buf ≡ header (filled bytes bytes-text) (length bytes)
  unfolding receive
  receive-bytes =
      let found : strstr (c_string (filled bytes bytes-text)) (13 ∷ 10 ∷ 13 ∷ 10 ∷ []) ≡ true =
        ap (λ cs. strstr cs (13 ∷ 10 ∷ 13 ∷ 10 ∷ [])) (c_string-filled bytes bytes-text)
        ∙ bytes-header in
      rw found refl

  read_req-bytes :
      (conn : ℕ)
      → read_req (got bytes ∷ []) (record no_request { sock = conn }) ≡ some (read_request conn)
  unfolding read_req
  read_req-bytes conn =
      let req : Request = record no_request { sock = conn } in
      ap (finish req) receive-bytes
      ∙ ap
          (λ (buf : List ℕ). some (record req {
            req_buf = mark 2 false buf;
            req_size = length bytes;
            url = parse_url (c_string buf);
            url_len = length (parse_url (c_string buf));
          }))
          (ended-filled bytes bytes-text)
      ∙ ap
          (λ (url : List ℕ). some (record req {
            req_buf = mark 2 false (filled bytes bytes-text);
            req_size = length bytes;
            url = url;
            url_len = length url;
          }))
          (ap parse_url (c_string-filled bytes bytes-text) ∙ parse_url-bytes)

respond-served :
    (s : Server) (files : Files) (req : Request)
    → req.url_len ≡ length req.url
    → 0 < length req.url
    → length req.url ≤ 255
    → respond s true files req ≡ record s {
      req = no_request;
      ev_count = s.ev_count -ℤ pos 1;
      sent = s.sent ++ answer files req.sock req.url;
      closed = req.sock ∷ s.closed;
    }
respond-served s files req e h k =
    let (sent, served) = write_res_lem files req e h k in
    let size : (write_res files req).0.res_size == 0 ≡ false = ground (arith, served.size) in
    simp (size, sent, served.sock) refl

serve-two :
    (s s1 s2 : Server) (e1 e2 : Event)
    → handle s e1 ≡ some s1
    → handle s1 e2 ≡ some s2
    → serve s (e1 ∷ e2 ∷ []) ≡ some s2
unfolding serve
serve-two s s1 s2 e1 e2 h k = ground (arith, h, k)

-- A server with no request under way, and room for one more event, answers a connection that comes
-- and then sends a request which fits the buffer: it sends what there is for the address between the
-- slash and the next space, closes the connection, and is again as it was, with no request under way
-- and the same count of events.
pub serve_lem :
    (s : Server) (files : Files) (conn : ℕ) (method path rest : List ℕ)
    → s.req ≡ no_request
    → is_full s.ev_count ≡ false
    → IsRequest method path rest
    → serve s (
        incoming (some conn) true
        ∷ ready true true (got (request_text method path rest) ∷ []) files
        ∷ [])
      ≡ some (record s { sent = s.sent ++ answer files conn path; closed = conn ∷ s.closed })
serve_lem s files conn method path rest idle room v =
    let req : Request = record no_request { sock = conn } in
    let s1 : Server = record s { req = req; ev_count = s.ev_count +ℤ pos 1 } in
    let bytes = request_text method path rest in
    let read = read_request method path rest v conn in
    let accepted : handle s (incoming (some conn) true) ≡ some s1 =
      unfold handle in
      rw room (
        ap
          (λ (r : Request).
            some (record s { req = record r { sock = conn }; ev_count = s.ev_count +ℤ pos 1 }))
          idle) in
    let answered : handle s1 (ready true true (got bytes ∷ []) files)
        ≡ some (respond s1 true files read) =
      unfold handle in ap (respond_if s1 true files) (read_req-bytes method path rest v conn) in
    serve-two s s1 (respond s1 true files read) (incoming (some conn) true)
      (ready true true (got bytes ∷ []) files) accepted answered
    ∙ ap some (respond-served s1 files read refl v.some_path v.path_fits)
    ∙ ap₂
        (λ (r : Request) (n : ℤ). some (record s {
          req = r;
          ev_count = n;
          sent = s.sent ++ answer files conn path;
          closed = conn ∷ s.closed;
        }))
        (sym idle) (+ℤ_cancel s.ev_count (pos 1))
