-- ===== src/WebServer/Tests.antt =====
-- Runs of hw12-webserver on a directory of one file, and its theorems there.
use otus_c_2025_3_kushko.Common.{
  ℕ, ◌≡◌, refl, true, false, List, [], ◌∷◌, none, some, length, replicate, ◌==◌, if◌then◌else◌,
  blit, arith,
}
use otus_c_2025_3_kushko.Common.Int.{pos, ◌+ℤ◌, ◌-ℤ◌, ◌≤ℤ◌}
use otus_c_2025_3_kushko.Common.Decimal.{show_nat}
use otus_c_2025_3_kushko.WebServer.Start.{
  Visit, events_of, answers, options, main, listening, runs, first_server, main-answers,
}
use otus_c_2025_3_kushko.Common.Decimal.{atoi, read_digits}
use otus_c_2025_3_kushko.Common.Text.{codes, c_string, strstr, strtok}
use otus_c_2025_3_kushko.WebServer.Request.{
  Request, no_request, got, read_req, receive, parse_url, mark,
}
use otus_c_2025_3_kushko.WebServer.Response.{Files, write_res, ok_response}
use otus_c_2025_3_kushko.WebServer.Pages.{answer, IsServed, write_res_lem}
use otus_c_2025_3_kushko.WebServer.Loop.{Event, incoming, ready, Server, most_events, handle, serve}
use otus_c_2025_3_kushko.WebServer.Serve.{request_text, IsRequest}
use otus_c_2025_3_kushko.WebServer.Clients.{read_req-closed, IsSpared, lost_client, serve-bound}

-- Files with a name of one character have 7 bytes, and there are no others.
abbrev one_directory : Files
one_directory = record {
  denied = λ url. false;
  size_of = λ url. if length url == 1 then some 7 else none;
}

abbrev start : Server
start = record { req = no_request; ev_count = pos 1; sent = []; closed = [] }

abbrev method : List ℕ
method = codes "GET"

abbrev rest : List ℕ
rest = codes "HTTP/1.1"

abbrev get_a : List ℕ
get_a = request_text method (codes "a") rest

get_a-IsRequest : IsRequest method (codes "a") rest
get_a-IsRequest = record {
  method_word = omega arith;
  some_method = omega arith;
  path_word = omega arith;
  some_path = omega arith;
  path_fits = omega arith;
  rest_text = omega arith;
  fits = omega arith;
}

-- Two clients, one after the other.
abbrev visit : ℕ → Visit
visit conn = record {
  conn = conn;
  method = method;
  path = codes "a";
  rest = rest;
  files = one_directory;
}

main-answers_example :
    main [] listening (events_of (visit 5 ∷ visit 6 ∷ []))
    ≡ runs (options []) (
        some (record first_server { sent = answers (visit 5 ∷ visit 6 ∷ []); closed = 6 ∷ 5 ∷ [] }))
main-answers_example =
    main-answers [] (visit 5 ∷ visit 6 ∷ []) (get_a-IsRequest, (get_a-IsRequest, tt))

port-given : (options (codes "d" ∷ codes "1.2.3.4" ∷ codes "80" ∷ [])).port ≡ pos 80
unfolding options atoi read_digits
port-given = refl

abbrev asks_for_b : Request
asks_for_b = record no_request { sock = 5; url = codes "bb"; url_len = 2 }

write_res_lem_example :
    ((write_res one_directory asks_for_b).1 ≡ answer one_directory 5 (codes "bb"))
    × IsServed asks_for_b (write_res one_directory asks_for_b).0
write_res_lem_example = write_res_lem one_directory asks_for_b refl (omega arith) (omega arith)

no_header : strstr (c_string no_request.req_buf) (13 ∷ 10 ∷ 13 ∷ 10 ∷ []) ≡ false
unfolding strstr c_string
no_header = refl

read_req-closed_example : read_req (replicate 3 (got [])) no_request ≡ none
read_req-closed_example = read_req-closed 3 no_request no_header

-- Two connections, and an event that is of the first one, with its request.
abbrev two_clients : List Event
two_clients =
    incoming (some 5) true
    ∷ incoming (some 6) true
    ∷ ready true true (got get_a ∷ []) one_directory
    ∷ []

-- The answer goes to the second one.
abbrev after_two : Server
after_two = record {
  req = no_request;
  ev_count = pos 2;
  sent = answer one_directory 6 (codes "a");
  closed = 6 ∷ [];
}

two_clients_run : serve start two_clients ≡ some after_two
unfolding serve handle read_req receive parse_url mark write_res ok_response strstr strtok c_string
    blit ◌+ℤ◌ ◌-ℤ◌ show_nat
two_clients_run = refl

lost_client_example : IsSpared 5 start after_two
lost_client_example =
    lost_client start after_two 5 6 (ready true true (got get_a ∷ []) one_directory ∷ [])
      (omega arith) (omega arith) refl (unfold ◌+ℤ◌ in refl) tt two_clients_run

serve-bound_example : after_two.ev_count ≤ℤ pos most_events
serve-bound_example = serve-bound start after_two two_clients (omega arith) two_clients_run
