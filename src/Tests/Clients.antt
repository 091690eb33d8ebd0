-- ===== src/Tests/Clients.antt =====
-- The theorems on the client at concrete inputs.
use book_filer_module_http.Prelude.{
  ◌+◌, ◌≡◌, refl, ◌≢◌, ◌⊎◌, true, Option, some, ◌∷◌, Text, codes, returns, undefined, arith,
}
use book_filer_module_http.Prelude.Int.{success}
use book_filer_module_http.Url.{get_encoded_host}
use book_filer_module_http.Request.{set_request}
use book_filer_module_http.Response.{new_response, set_response}
use book_filer_module_http.Client.{
  Network, c_str, ClientImpl, view, new_client, prepare, end, get_response_str, get_response_json,
}
use book_filer_module_http.Client.Exchange.{end_lem, get_response_str_dangles}
use book_filer_module_http.Certificate.Options.{string_literal}
use book_filer_module_http.Tests.Libraries.{
  libraries, addresses, request_messages, response_messages, RequestMessage, ResponseMessage, json,
  JsonValue, literal,
}

-- Every text is the JSON of itself.
abbrev pub parse_all : Text → Option JsonValue
parse_all t = some (literal (string_literal t))

abbrev missing : ResponseMessage
missing = record response_messages.new_message { code = 404; text = codes "gone" }

-- A network on which nothing is found.
abbrev pub empty_network : Network libraries
empty_network = record { connects = λ host. true; answer_to = λ host m. some missing }

-- A client that has had an answer.
abbrev answered_client : ClientImpl libraries json
answered_client = record (new_client libraries json) { response_str = view 0 (codes "old") }

abbrev later_client : ClientImpl libraries json
later_client = record answered_client {
  request =
      set_request libraries (prepare libraries json answered_client request_messages.new_message)
        answered_client.request;
  response = some (set_response response_messages missing (new_response response_messages));
  response_beast = some missing;
  exchanges = 1;
}

later-ended :
    end libraries json empty_network parse_all answered_client ≡ returns (later_client, success)
unfolding end new_client set_request
later-ended = refl

end_lem_example :
    (m : RequestMessage) × (res : ResponseMessage) × (success ≡ success)
    × (empty_network.connects (get_encoded_host addresses answered_client.url) ≡ true)
    × (empty_network.answer_to
          (get_encoded_host addresses answered_client.url)
          (prepare libraries json answered_client m)
        ≡ some res)
    × (((response_messages.status res ≡ 200)
          × (get_response_json libraries json later_client
              ≡ parse_all (c_str (response_messages.body res)))
          × (later_client.response_str
              ≡ view (answered_client.exchanges + 1) (response_messages.body res)))
        ⊎ ((response_messages.status res ≢ 200)
            × (get_response_json libraries json later_client
                ≡ get_response_json libraries json answered_client)
            × (later_client.response_str ≡ answered_client.response_str)))
end_lem_example =
    end_lem libraries json empty_network parse_all answered_client later_client success later-ended

answered-view : answered_client.response_str ≡ view answered_client.exchanges (b'o' ∷ codes "ld")
unfolding new_client
answered-view = refl

never-found :
    (m : RequestMessage) (res : ResponseMessage)
    → empty_network.answer_to (get_encoded_host addresses answered_client.url) m ≡ some res
    → response_messages.status res ≢ 200
never-found m res e = λ h. ground arith

get_response_str_dangles_example : get_response_str libraries json later_client ≡ undefined
get_response_str_dangles_example =
    get_response_str_dangles libraries json empty_network parse_all answered_client later_client
      success b'o' (codes "ld") answered-view never-found later-ended
