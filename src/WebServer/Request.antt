-- ===== src/WebServer/Request.antt =====
-- The request record of hw12-webserver/main.c, and how it is read.
use otus_c_2025_3_kushko.Common.{
  ℕ, zero, suc, Bool, true, false, not, List, [], ◌∷◌, Option, none, some, length, take, drop, set,
  replicate, blit, ◌==◌, if◌then◌else◌,
}
use otus_c_2025_3_kushko.Common.Text.{c_string, strstr, strtok}

abbrev pub buf_sz : ℕ
buf_sz = 2048

abbrev pub str_len : ℕ
str_len = 256

-- req_data_t; `url` is the text up to its terminating zero, and so is `res_buf`.
pub record Request : Type 0 where
  pub sock : ℕ
  pub req_buf : List ℕ
  pub req_size : ℕ
  pub res_buf : List ℕ
  pub res_size : ℕ
  pub url : List ℕ
  pub url_len : ℕ

-- The record after `memset`.
abbrev pub no_request : Request
no_request = record {
  sock = 0;
  req_buf = replicate buf_sz 0;
  req_size = 0;
  res_buf = [];
  res_size = 0;
  url = [];
  url_len = 0;
}

-- The text of the second token after its first character, cut to the length of the record's field.
abbrev pub second_token : Option (List ℕ × List ℕ) → List ℕ
second_token none = []
second_token (some (token, rest)) = take 255 (drop 1 token)

abbrev pub after_first : Option (List ℕ × List ℕ) → List ℕ
after_first none = []
after_first (some (token, rest)) = second_token (strtok 32 rest)

-- The address that `parse_url` finds in a line; an empty one when there are not two tokens.
unfoldable pub parse_url : List ℕ → List ℕ
parse_url line = after_first (strtok 32 line)

-- What `strtok` leaves of the line: a zero in place of the space after each of its tokens, with
-- `tokens` of them still to be found, from inside a token or not.
unfoldable pub mark : ℕ → Bool → List ℕ → List ℕ
mark zero inside cs = cs
mark (suc tokens) inside [] = []
mark (suc tokens) false (c ∷ cs) =
    let rest = mark (suc tokens) (not (c == 32)) cs in if c == 0 then c ∷ cs else c ∷ rest
mark (suc tokens) true (c ∷ cs) =
    let ended = mark tokens false cs in
    let later = mark (suc tokens) true cs in
    if c == 0 then c ∷ cs else if c == 32 then 0 ∷ ended else c ∷ later

-- One call of `recv`: an error, or the bytes received, of which there are none once the peer has
-- closed.
pub data Recv : Type 0 where
  failed : Recv
  got : List ℕ → Recv

-- How the loop of `read_req` stands after some calls of `recv`.
pub data Reading : Type 0 where
  waiting : List ℕ → Reading
  error : List ℕ → Reading
  header : List ℕ → ℕ → Reading

-- Each call writes to the start of the buffer.
unfoldable pub receive : List Recv → List ℕ → Reading
receive [] buf = waiting buf
receive (failed ∷ calls) buf = error buf
receive (got bytes ∷ calls) buf =
    let buf' = blit buf 0 bytes in
    let rest = receive calls buf' in
    if strstr (c_string buf') (13 ∷ 10 ∷ 13 ∷ 10 ∷ []) then header buf' (length bytes) else rest

abbrev pub finish : Request → Reading → Option Request
finish req (waiting buf) = none
finish req (error buf) = some (record req { req_buf = buf })
finish req (header buf res) =
    let ended = set buf res 0 in
    let url = parse_url (c_string ended) in
    some
      (record req { req_buf = mark 2 false ended; req_size = res; url = url; url_len = length url })

-- `none` when `read_req` has not returned after these calls of `recv`.
unfoldable pub read_req : List Recv → Request → Option Request
read_req calls req = finish req (receive calls req.req_buf)
