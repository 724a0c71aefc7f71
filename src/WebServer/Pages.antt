-- ===== src/WebServer/Pages.antt =====
-- What write_res of hw12-webserver/main.c sends.
use otus_c_2025_3_kushko.Common.{
  ℕ, ◌+◌, ◌*◌, ◌≤◌, ◌<◌, ◌≡◌, ◌≢◌, refl, ap, sym, ◌∙◌, false, Bool-cases, inl, inr, List, [], ◌∷◌,
  ◌++◌, Option, none, some, length, length-append, take, take-all, ◌==◌, if◌then◌else◌, arith,
}
use otus_c_2025_3_kushko.Common.Decimal.{show_nat, length-show_nat}
use otus_c_2025_3_kushko.Common.Text.{codes}
use otus_c_2025_3_kushko.WebServer.Request.{Request}
use otus_c_2025_3_kushko.WebServer.Response.{
  crlf, forbidden_response, not_found_response, ok_response, Files, Sent, text, file, send_page,
  send_file, write_res,
}

-- A response as HTTP has it: a status line, perhaps one more header, the length of the content, two
-- headers that are always the same, an empty line and the content.
abbrev pub response : List ℕ → List ℕ → ℕ → List ℕ → List ℕ
response status extra content_length content =
    codes "HTTP/1.1 "
    ++ (status
        ++ (crlf
            ++ (extra
                ++ (codes "Content-Length: "
                    ++ (show_nat content_length
                        ++ (crlf
                            ++ (codes "Connection: close"
                                ++ (crlf
                                    ++ (codes "Content-Type: text/html"
                                        ++ (crlf ++ (crlf ++ content)))))))))))

-- A page with its own length.
abbrev pub page : List ℕ → List ℕ → List ℕ
page status content = response status [] (length content) content

abbrev pub forbidden_content : List ℕ → List ℕ
forbidden_content url =
    codes
      "<html><head><title>403 Forbidden</title></head><body><h1>Forbidden</h1><p>You don't have permission to access /"
    ++ (url ++ (codes " on this server!</p></body></html>" ++ 10 ∷ []))

abbrev pub not_found_content : List ℕ
not_found_content =
    codes
      "<html><head><title>404 Not Found</title></head><body><h1>Not Found</h1>The requested URL was not found on this server.</body></html>"
    ++ 10 ∷ []

length-forbidden_content : (url : List ℕ) → length (forbidden_content url) ≡ 146 + length url
length-forbidden_content url =
    omega (arith, length-append url (codes " on this server!</p></body></html>" ++ 10 ∷ []))

forbidden_response-page :
    (url : List ℕ)
    → forbidden_response (146 + length url) url
      ≡ page (codes "403 Forbidden") (forbidden_content url)
unfolding forbidden_response
forbidden_response-page url =
    ap (λ n. response (codes "403 Forbidden") [] n (forbidden_content url))
      (sym (length-forbidden_content url))

not_found_response-page : not_found_response ≡ page (codes "404 Not Found") not_found_content
unfolding not_found_response show_nat
not_found_response-page = refl

ok_response-response :
    (size : ℕ)
    → ok_response size ≡ response (codes "200 OK") (codes "Server: chttp" ++ crlf) size []
unfolding ok_response
ok_response-response size = refl

length-page :
    (status content : List ℕ)
    → length (page status content) ≤ length status + 2 * length content + 200
length-page status content =
    let n = length content in
    let tail =
      codes "Connection: close"
      ++ (crlf ++ (codes "Content-Type: text/html" ++ (crlf ++ (crlf ++ content)))) in
    omega (
      arith,
      length-append status (crlf ++ (codes "Content-Length: " ++ (show_nat n ++ (crlf ++ tail)))),
      length-append (show_nat n) (crlf ++ tail),
      length-show_nat n,
    )

-- What is to be sent for an address, to a socket.
abbrev pub answer_file : ℕ → List ℕ → Option ℕ → List Sent
answer_file sock url none = text sock (page (codes "404 Not Found") not_found_content) ∷ []
answer_file sock url (some size) =
    text sock (response (codes "200 OK") (codes "Server: chttp" ++ crlf) size [])
    ∷ file sock url size
    ∷ []

abbrev pub answer : Files → ℕ → List ℕ → List Sent
answer files sock url =
    if files.denied url
    then text sock (page (codes "403 Forbidden") (forbidden_content url)) ∷ []
    else answer_file sock url (files.size_of url)

-- The record has a response to its connection.
pub record IsServed (req req' : Request) : Type 0 where
  pub sock : req'.sock ≡ req.sock
  pub size : req'.res_size ≢ 0

send_page-text :
    (req : Request) (content status : List ℕ)
    → length status ≤ 20
    → length content ≤ 600
    → 0 < length content
    → ((send_page req (page status content)).1 ≡ text req.sock (page status content) ∷ [])
      × IsServed req (send_page req (page status content)).0
unfolding send_page
send_page-text req content status h k some_content =
    let p = page status content in
    let short = take-all 2046 p (omega (arith, length-page status content)) in
    (
      ap (λ bytes. text req.sock bytes ∷ [])
          (ap (take (length p)) short ∙ take-all (length p) p (omega arith)),
      record { sock = refl; size = λ e. absurd (omega (arith, e)) },
    )

send_file-text :
    (req : Request) (size : Option ℕ)
    → ((send_file req size).1 ≡ answer_file req.sock req.url size)
      × IsServed req (send_file req size).0
send_file-text req none = rw not_found_response-page (
    send_page-text req not_found_content (codes "404 Not Found") (omega arith) (omega arith)
      (omega arith))
send_file-text req (some size) = (
  ap (λ head. text req.sock head ∷ file req.sock req.url size ∷ []) (ok_response-response size),
  record { sock = refl; size = λ e. unfold ok_response in absurd (omega (arith, e)) },
)

-- To a request with an address, of no more than 255 characters, write_res makes the calls of one
-- response, none of it cut off: the status is 403 when access is denied, 404 when the file cannot be
-- opened, and 200 with the file's bytes otherwise; and in each of them Content-Length is the number
-- of bytes of the content that follows.
pub write_res_lem :
    (files : Files) (req : Request)
    → req.url_len ≡ length req.url
    → 0 < length req.url
    → length req.url ≤ 255
    → ((write_res files req).1 ≡ answer files req.sock req.url)
      × IsServed req (write_res files req).0
unfolding write_res
write_res_lem files req e h k =
    let some_url : req.url_len == 0 ≡ false = ground arith in
    elim (Bool-cases (files.denied req.url)) [
      | inl denied ↦
          let same : forbidden_response (146 + req.url_len) req.url
              ≡ page (codes "403 Forbidden") (forbidden_content req.url) =
            ap (λ n. forbidden_response (146 + n) req.url) e ∙ forbidden_response-page req.url in
          rw (some_url, denied, same)
            (send_page-text req (forbidden_content req.url) (codes "403 Forbidden") (omega arith)
              (omega (arith, length-forbidden_content req.url))
              (omega (arith, length-forbidden_content req.url)))
      | inr allowed ↦ rw (some_url, allowed) (send_file-text req (files.size_of req.url))
    ]
