-- ===== src/Http/Tests.antt =====
-- Runs of the HTTP server's model, and the theorems at concrete requests.
use scratchpad.Common.{
  ◌↔◌, ℕ, zero, suc, ◌<◌, ◌==◌, ==_iff, ap, Bool-cases, not, ◌&&◌, take, ◌≡◌, refl, inl, inr, Bool,
  true, false, none, some, [], ◌∷◌, ◌++◌, arith, min, Bytes, codes, length, bytes_eq, contains,
  strip_prefix, strip_last, starts_with, all,
}
use scratchpad.Common.Io.{
  Input, byte, fault, interrupted, would_block, other_kind, bytes_input, ok, err, accepts, fails,
  Output,
}
use scratchpad.Common.Io.Writes.{calm}
use scratchpad.Http.{head, Request, Response, complete, request_max}
use scratchpad.Http.Parse.{
  parse_request, split_once, skip_one_blank_line, version_shape_ok, method_of, path_of,
}
use scratchpad.Http.Parse.Grammar.{SaysRequest}
use scratchpad.Http.Parse.Sound.{parse_request_sound}
use scratchpad.Http.Parse.Complete.{parse_request_complete}
use scratchpad.Http.Respond.{error_response, route}
use scratchpad.Http.Respond.Contract.{AsksPage, route-ok_iff}
use scratchpad.Http.Sanitize.{is_printable, sanitize}
use scratchpad.Http.Sanitize.Bounds.{length-sanitize, sanitize-printable}
use scratchpad.Http.Read.{read_request, terminated, ends_with, stop}
use scratchpad.Http.Read.Framing.{
  Framed, EndsFirst, read_request-Framed, read_request_complete, read_request-retried, retried,
  retried_result,
}
use scratchpad.Http.Serve.{serve_connection, write_response}
use scratchpad.Http.Serve.Wire.{wire, Delivered, write_response-Delivered}
use scratchpad.Http.Serve.Outcome.{Accounted, serve_connection-request, serve_connection-Accounted}
use scratchpad.Http.Serve.Answer.{Answers, serve_connection-Answers}
use scratchpad.Http.Serve.Log.{Logged, serve_connection-Logged}

abbrev hello : Bytes
hello = codes "\r\nHEAD /index.html?x=1 HTTP/1.1\r\nHost: a\r\n\r\n"

abbrev hello_request : Request
hello_request = record {
  method = head;
  target = codes "/index.html?x=1";
  path = codes "/index.html";
  major = 1;
  minor = 1;
  line = codes "HEAD /index.html?x=1 HTTP/1.1";
}

parse-hello : parse_request hello ≡ some hello_request
unfolding parse_request split_once skip_one_blank_line strip_prefix strip_last contains bytes_eq
    version_shape_ok starts_with method_of path_of
parse-hello = refl

parse-refuses :
    (parse_request (codes "GET /\r\n") ≡ none)
    × (parse_request (codes "GET / HTTP/1\n") ≡ none)
    × (parse_request (codes "GET /a b HTTP/1.1\n") ≡ none)
    × (parse_request (codes "GET / HTTP/1.1") ≡ none)
unfolding parse_request split_once skip_one_blank_line strip_prefix strip_last contains bytes_eq
    version_shape_ok starts_with
parse-refuses = (refl, refl, refl, refl)

sanitize-cuts : sanitize (codes "GET \n/abcdef") 9 ≡ codes "GET ?/..."
unfolding sanitize
sanitize-cuts = refl

read-eintr :
    read_request 8 (byte b'a' ∷ fault interrupted ∷ byte b'\n' ∷ byte b'\n' ∷ byte b'z' ∷ [])
    ≡ stop (ok complete) (codes "a\n\n") (byte b'z' ∷ [])
unfolding read_request terminated ends_with bytes_eq
read-eintr = refl

parse_request_sound_example : SaysRequest hello hello_request
parse_request_sound_example = parse_request_sound hello parse-hello

parse_request_complete_example : parse_request hello ≡ some hello_request
parse_request_complete_example = parse_request_complete hello parse_request_sound_example

route-ok_iff_example :
    (((route hello_request (codes "<p>")).status ≡ 200) ↔ AsksPage hello_request)
    × ((route hello_request (codes "<p>")
          ≡ record { status = 200; reason = codes "OK"; body = codes "<p>"; allow = none })
        ↔ AsksPage hello_request)
route-ok_iff_example = route-ok_iff hello_request (codes "<p>")

length-sanitize_example : length (sanitize hello 5) ≡ min (length hello) 5
length-sanitize_example = length-sanitize hello 5

sanitize-printable_example : all is_printable (sanitize hello 20) ≡ true
sanitize-printable_example = sanitize-printable hello 20

abbrev broken_input : Input
broken_input = byte b'G' ∷ fault interrupted ∷ byte b'E' ∷ fault would_block ∷ []

read_request-Framed_example : Framed 4 [] broken_input (read_request 4 broken_input)
read_request-Framed_example = read_request-Framed 4 broken_input

-- No start of `block` with fewer than `k` bytes ends a header block.
open_below : ℕ → Bytes → Bool
open_below zero block = true
open_below (suc k) block = not (terminated (take k block)) && open_below k block

open_below_sound :
    (k : ℕ) (block : Bytes)
    → open_below k block ≡ true
    → (n : ℕ) → n < k
    → terminated (take n block) ≡ false
unfolding open_below
open_below_sound zero block h n lt = elim lt [ ]
open_below_sound (suc k) block h n lt = elim (Bool-cases (n == k)) [
  | inl e ↦ ground (arith, ap (λ m. terminated (take m block)) ((==_iff n k).0 e))
  | inr e ↦ open_below_sound k block (ground arith) n (ground arith)
]

abbrev small : Bytes
small = codes "HEAD / HTTP/1.0\n\n"

small-EndsFirst : EndsFirst small
unfolding terminated ends_with bytes_eq open_below
small-EndsFirst = (refl, open_below_sound (length small) small refl)

abbrev small_request : Request
small_request = record {
  method = head;
  target = codes "/";
  path = codes "/";
  major = 1;
  minor = 0;
  line = codes "HEAD / HTTP/1.0";
}

parse-small : parse_request small ≡ some small_request
unfolding parse_request split_once skip_one_blank_line strip_prefix strip_last contains bytes_eq
    version_shape_ok starts_with method_of path_of
parse-small = refl

read_request_complete_example :
    read_request 17 (bytes_input (small ++ codes "xyz"))
    ≡ stop (ok complete) small (bytes_input (codes "xyz"))
read_request_complete_example =
    read_request_complete 17 small (codes "xyz") small-EndsFirst (omega arith)

read_request-retried_example :
    retried_result (read_request 4 broken_input) ≡ read_request 4 (retried broken_input)
read_request-retried_example = read_request-retried 4 broken_input

abbrev failing : Output
failing = record { written = []; answers = accepts ∷ fails 3 (other_kind 32) ∷ [] }

write_response-Delivered_example :
    Delivered
      (wire (error_response 404) false)
      []
      (write_response (error_response 404) false failing)
write_response-Delivered_example = write_response-Delivered (error_response 404) false failing

abbrev page : Bytes
page = codes "<p>"

serve_connection-request_example :
    let s = serve_connection page (bytes_input (small ++ codes "xyz")) (calm []) (calm []) in
    (s.output ≡ calm (wire (route small_request page) true))
    × (s.input ≡ bytes_input (codes "xyz"))
    × (s.transaction ≡ record { result = ok tt; left_unread = false })
serve_connection-request_example =
    serve_connection-request page small (codes "xyz") [] (calm []) small_request
      (parse_request_sound small parse-small) small-EndsFirst (omega arith)

serve_connection-Accounted_example :
    let r = read_request request_max broken_input in
    Accounted page failing r.block r.outcome (serve_connection page broken_input failing failing)
serve_connection-Accounted_example = serve_connection-Accounted page broken_input failing failing

serve_connection-Logged_example :
    Logged
      (elim (read_request request_max broken_input).outcome [ ok _ ↦ 2 | err _ ↦ 1 ])
      []
      (serve_connection page broken_input failing (calm [])).log.written
serve_connection-Logged_example = serve_connection-Logged page broken_input failing []

small_read : (read_request request_max (bytes_input (small ++ codes "xyz"))).outcome ≡ ok complete
unfolding read_request terminated ends_with bytes_eq
small_read = refl

serve_connection-Answers_example :
    let s = serve_connection page (bytes_input (small ++ codes "xyz")) failing failing in
    (resp : Response) × (suppress_body : Bool) × Answers page
      (read_request request_max (bytes_input (small ++ codes "xyz"))).block
      complete
      resp
      suppress_body
    × Delivered (wire resp suppress_body) [] (s.transaction.result, s.output)
serve_connection-Answers_example =
    serve_connection-Answers page (bytes_input (small ++ codes "xyz")) failing failing small_read
