-- ===== src/WebServer/Response.antt =====
-- The responses of hw12-webserver/main.c.
use otus_c_2025_3_kushko.Common.{
  ℕ, ◌+◌, ◌-◌, Bool, List, [], ◌∷◌, ◌++◌, Option, none, some, length, take, ◌==◌, if◌then◌else◌,
}
use otus_c_2025_3_kushko.Common.Decimal.{show_nat}
use otus_c_2025_3_kushko.Common.Text.{codes}
use otus_c_2025_3_kushko.WebServer.Request.{Request, buf_sz}

abbrev pub crlf : List ℕ
crlf = 13 ∷ 10 ∷ []

-- FORBIDDEN_RESPONSE with its two arguments.
unfoldable pub forbidden_response : ℕ → List ℕ → List ℕ
forbidden_response content_length url =
    codes "HTTP/1.1 403 Forbidden"
    ++ (crlf
        ++ (codes "Content-Length: "
            ++ (show_nat content_length
                ++ (crlf
                    ++ (codes "Connection: close"
                        ++ (crlf
                            ++ (codes "Content-Type: text/html"
                                ++ (crlf
                                    ++ (crlf
                                        ++ (codes "<html><head><title>403 Forbidden</title></head>"
                                            ++ (codes "<body>"
                                                ++ (codes "<h1>Forbidden</h1>"
                                                    ++ (codes
                                                          "<p>You don't have permission to access /"
                                                        ++ (url
                                                            ++ (codes " on this server!</p>"
                                                            ++ (codes "</body></html>"
                                                            ++ 10 ∷ []))))))))))))))))

-- NOT_FOUND_RESPONSE
unfoldable pub not_found_response : List ℕ
not_found_response =
    codes "HTTP/1.1 404 Not Found"
    ++ (crlf
        ++ (codes "Content-Length: 133"
            ++ (crlf
                ++ (codes "Connection: close"
                    ++ (crlf
                        ++ (codes "Content-Type: text/html"
                            ++ (crlf
                                ++ (crlf
                                    ++ (codes
                                          "<html><head><title>404 Not Found</title></head><body><h1>Not Found</h1>"
                                        ++ (codes
                                              "The requested URL was not found on this server.</body></html>"
                                            ++ 10 ∷ []))))))))))

-- OK_RESPONSE with its argument.
unfoldable pub ok_response : ℕ → List ℕ
ok_response size =
    codes "HTTP/1.1 200 OK"
    ++ (crlf
        ++ (codes "Server: chttp"
            ++ (crlf
                ++ (codes "Content-Length: "
                    ++ (show_nat size
                        ++ (crlf
                            ++ (codes "Connection: close"
                                ++ (crlf
                                    ++ (codes "Content-Type: text/html" ++ (crlf ++ crlf))))))))))

-- What the file system answers: whether access to a file is denied, and its size if it can be
-- opened.
pub record Files : Type 0 where
  pub denied : List ℕ → Bool
  pub size_of : List ℕ → Option ℕ

-- A call of `send` or of `sendfile`, with its socket.
pub data Sent : Type 0 where
  text : ℕ → List ℕ → Sent
  file : ℕ → List ℕ → ℕ → Sent

abbrev pub sock_of : Sent → ℕ
sock_of (text sock bytes) = sock
sock_of (file sock url size) = sock

-- `snprintf` into `res_buf`, the length of which it returns, and `send` of that length.
unfoldable pub send_page : Request → List ℕ → Request × List Sent
send_page req page =
    let buf = take (buf_sz - 2) page in
    let size = length page in
    (record req { res_buf = buf; res_size = size }, text req.sock (take size buf) ∷ [])

abbrev pub send_file : Request → Option ℕ → Request × List Sent
send_file req none = send_page req not_found_response
send_file req (some size) =
    let head = ok_response size in
    (
      record req { res_buf = head; res_size = length head },
      text req.sock head ∷ file req.sock req.url size ∷ [],
    )

unfoldable pub write_res : Files → Request → Request × List Sent
write_res files req =
    if req.url_len == 0
    then (req, [])
    else if files.denied req.url
    then send_page req (forbidden_response (146 + req.url_len) req.url)
    else send_file req (files.size_of req.url)
