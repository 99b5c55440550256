-- ===== src/Ui/Http/Exchange.antt =====
-- A request and its answer over one connection of the server of ui/src/http.rs.
use fips_shield.Base.{◌+◌, ◌<◌, ◌≤◌, ◌≡◌, refl, true, some, List, length, ◌∙◌, ap, ok}
use fips_shield.Std.Text.{Text}
use fips_shield.Std.Utf8.{Bytes, as_bytes}
use fips_shield.Ui.Http.{
  Stream, Request, Response, request_of, read_request, serve_connection, response_bytes,
  max_request_line, max_header_bytes, max_headers,
}
use fips_shield.Ui.Http.Client.{is_plain, AreLines, joined, read_response}
use fips_shield.Ui.Http.Framing.{status_line, header_lines, read_response-response_bytes}
use fips_shield.Ui.Http.Lines.{sends, AreShort}
use fips_shield.Ui.Http.Accepting.{is_target, request_text, read_request-request_text}

-- A response as a client reads it.
abbrev pub received : Response → Bytes × List Bytes × Bytes
received resp = (status_line resp, header_lines resp, as_bytes resp.body)

-- The answer to a request that is accepted.
serve_connection-ok :
    (handler : Request → Response) (s : Stream) (r : Request)
    → (read_request s).0 ≡ ok r
    → serve_connection handler s ≡ response_bytes (handler r)
unfolding serve_connection
serve_connection-ok handler s r h = rw (serve_connection, h) refl

-- A client that sends a GET request as in `read_request-request_text`, and reads lines up to the
-- first empty one and then as many bytes as `Content-Length` says, gets the status, the eight
-- headers and exactly the body that the handler gives for the target, whatever the handler is, if
-- the content type of that response is printable ASCII.
pub read_response-serve_connection :
    (handler : Request → Response) (target : Text) (headers : List Text) (s : Stream)
    → is_target target ≡ true
    → length target + 15 ≤ max_request_line
    → AreLines headers
    → AreShort headers
    → length headers < max_headers
    → length (joined headers) ≤ max_header_bytes
    → is_plain (handler (request_of target)).content_type ≡ true
    → let resp = handler (request_of target) in
      read_response 10 (serve_connection handler (sends (request_text target headers) s))
      ≡ some (status_line resp, header_lines resp, as_bytes resp.body)
read_response-serve_connection handler target headers s h m hs k n b p =
    let sent = sends (request_text target headers) s in
    let accepted : (read_request sent).0 ≡ ok (request_of target) =
      ap (λ x. x.0) (read_request-request_text target headers s h m hs k n b) in
    ap (read_response 10) (serve_connection-ok handler sent (request_of target) accepted)
    ∙ read_response-response_bytes (handler (request_of target)) p
