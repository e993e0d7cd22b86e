-- ===== src/Client/Tests.antt =====
-- Requests of the client as they are written, and the theorems at them.
use mini_agent_oscoder.Prelude.{◌≡◌, refl, none, some, [], ◌∷◌, lit, text_eq, join}
use mini_agent_oscoder.Json.{str, arr, nil, end, field, obj, property}
use mini_agent_oscoder.Scripts.{replied, failed}
use mini_agent_oscoder.Client.{DaemonCall, RunPart, route, endpoint}
use mini_agent_oscoder.Client.Routes.{identify}
use mini_agent_oscoder.Client.Routes.Complete.{normal, identify-endpoint}
use mini_agent_oscoder.Client.Uri.{encode_uri_component, target}
use mini_agent_oscoder.Client.Uri.Queries.{encoded, query_fields, query_fields-target}
use mini_agent_oscoder.Client.Uri.Paths.{path_segments}
use mini_agent_oscoder.Client.Answers.{
  Response, ParsedUrl, IsAnswer, request, request-IsAnswer, configure_daemon,
}

abbrev read_file : DaemonCall
read_file = DaemonCall.get_project_file_content (lit "p1") (lit "a/b ü.ts")

read_file-target :
    target (λ s. s) (endpoint read_file)
    ≡ some (lit "/projects/p1/files/content?path=a%2Fb%20%C3%BC.ts")
unfolding target endpoint route lit encode_uri_component join
read_file-target = refl

-- Half of a pair.
encode_uri_component-throws : encode_uri_component (0xd83d ∷ lit "a") ≡ none
unfolding encode_uri_component lit
encode_uri_component-throws = refl

identify-endpoint_example :
    let r = endpoint read_file in
    identify r.method
      (path_segments (lit "/projects/p1/files/content?path=a%2Fb%20%C3%BC.ts"))
      r.query
      r.body
    ≡ some (normal read_file)
identify-endpoint_example =
    identify-endpoint (λ s. s) read_file (lit "/projects/p1/files/content?path=a%2Fb%20%C3%BC.ts")
      (unfold route in unfold lit in refl) read_file-target

-- Identifiers are not encoded in a path, so that two functions may send the same request.
same_request :
    endpoint (DaemonCall.get_run (lit "a/trace"))
    ≡ endpoint (DaemonCall.get_part RunPart.trace (lit "a"))
unfolding endpoint route lit join
same_request = refl

query_fields-target_example :
    encoded (endpoint read_file).query
    ≡ some (query_fields (lit "/projects/p1/files/content?path=a%2Fb%20%C3%BC.ts"))
unfolding endpoint
query_fields-target_example =
    query_fields-target (λ s. s) (endpoint read_file)
      (lit "/projects/p1/files/content?path=a%2Fb%20%C3%BC.ts") refl
      (unfold lit in unfold join in refl) (unfold lit in refl) (unfold lit in refl) read_file-target

abbrev missing : Response
missing = record {
  status = 404;
  body = some (obj (field (lit "detail") (str (lit "no such run")) end));
}

missing-request :
    request (λ _. []) (lit "bad json") (replied missing) ≡ failed (some (lit "no such run"))
unfolding request property text_eq lit
missing-request = refl

-- A detail that is no text, of which nothing is printed, leaves an error without a message.
abbrev unexplained : Response
unexplained = record { status = 422; body = some (obj (field (lit "detail") (arr nil) end)) }

unexplained-request : request (λ _. []) (lit "bad json") (replied unexplained) ≡ failed (some [])
unfolding request property text_eq lit
unexplained-request = refl

request-IsAnswer_example :
    IsAnswer
      (λ _. [])
      (lit "bad json")
      missing
      (request (λ _. []) (lit "bad json") (replied missing))
request-IsAnswer_example = request-IsAnswer (λ _. []) (lit "bad json") missing

abbrev remote : ParsedUrl
remote = record {
  protocol = lit "http:";
  hostname = lit "example.com";
  origin = lit "http://example.com";
}

remote-refused :
    configure_daemon (λ _. some remote) (lit "http://example.com/x")
    ≡ failed (some (lit "Desktop Daemon must use a loopback HTTP URL"))
unfolding configure_daemon text_eq lit
remote-refused = refl
