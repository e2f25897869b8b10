-- ===== src/Http/Serve.antt =====
-- http.rs: `put_response`, `write_response` and `serve_connection`. The three streams are passed in
-- and returned as they are left.
pub mod Wire
pub mod Outcome
pub mod Log
pub mod Answer
use scratchpad.Common.{
  ℕ, Bool, true, false, Option, none, some, List, [], ◌∷◌, ◌++◌, Bytes, codes, if◌then◌else◌,
  length,
}
use scratchpad.Common.Decimal.{decimal}
use scratchpad.Common.Io.{IoError, Input, Result, ok, err, Output, Write, write_all, flush, ◌>>◌}
use scratchpad.Http.{
  prog_name, server_name, content_type, request_max, log_line_max, ConnectionError, write, message,
  Method, Request, Response, ReadOutcome, complete, too_large, Transaction,
}
use scratchpad.Http.Parse.{skip_one_blank_line, first_line, parse_request}
use scratchpad.Http.Respond.{error_response, route, is_head}
use scratchpad.Http.Sanitize.{sanitize}
use scratchpad.Http.Read.{ReadResult, read_request}

abbrev crlf : Bytes
crlf = codes "\r\n"

-- The status line and the header lines, each as its `write!` formats it.
abbrev pub status_line : Response → Bytes
status_line resp =
    codes "HTTP/1.1 " ++ (decimal resp.status ++ (codes " " ++ (resp.reason ++ crlf)))

abbrev pub server_line : Bytes
server_line = codes "Server: " ++ (server_name ++ crlf)

abbrev pub type_line : Bytes
type_line = codes "Content-Type: " ++ (content_type ++ crlf)

abbrev pub length_line : Response → Bytes
length_line resp = codes "Content-Length: " ++ (decimal (length resp.body) ++ crlf)

abbrev pub close_line : Bytes
close_line = codes "Connection: close\r\n"

abbrev pub allow_line : Bytes → Bytes
allow_line allow = codes "Allow: " ++ (allow ++ crlf)

put_allow : Option Bytes → Write IoError → Write IoError
put_allow (some allow) next = write_all (allow_line allow) >> next
put_allow none next = next

put_body : Bool → Bytes → Write IoError → Write IoError
put_body true body next = next
put_body false body next = write_all body >> next

put_response : Response → Bool → Write IoError
put_response resp suppress_body =
    write_all (status_line resp)
    >> write_all server_line
    >> write_all type_line
    >> write_all (length_line resp)
    >> write_all close_line
    >> put_allow resp.allow (write_all crlf >> put_body suppress_body resp.body flush)

-- `map_err(ConnectionError::Write)`
abbrev as_write : Result IoError (Unit {0}) × Output → Result ConnectionError (Unit {0}) × Output
as_write (ok u, out) = (ok u, out)
as_write (err e, out) = (err (write e), out)

pub write_response : Response → Bool → Write ConnectionError
write_response resp suppress_body out = as_write (put_response resp suppress_body out)

-- `let _ = writeln!(log, "{PROG_NAME}: ...")`
unfoldable pub log_line : Bytes → Output → Output
log_line text log = (write_all (prog_name ++ (codes ": " ++ (text ++ codes "\n"))) log).1

-- The response, whether its body is suppressed, what is logged before it, and `left_unread`.
pub record Plan : Type 0 where
  pub response : Response
  pub suppress_body : Bool
  pub note : Bytes
  pub left_unread : Bool

plan_parsed : Bytes → Bytes → Option Request → Plan
plan_parsed page block (some req) = record {
  response = route req page;
  suppress_body = is_head req.method;
  note = codes "request " ++ sanitize req.line log_line_max;
  left_unread = false;
}
plan_parsed page block none = record {
  response = error_response 400;
  suppress_body = false;
  note =
      codes "malformed request \""
      ++ (sanitize (first_line (skip_one_blank_line block)) log_line_max ++ codes "\"");
  left_unread = false;
}

-- `let resp = if ... else if let ... else ...`
unfoldable pub plan : Bytes → ReadOutcome → Bytes → Plan
unfolding plan_parsed
plan page too_large block = record {
  response = error_response 431;
  suppress_body = false;
  note = codes "request header block over " ++ (decimal request_max ++ codes " bytes");
  left_unread = true;
}
plan page complete block = plan_parsed page block (parse_request block)

pub record Served : Type 0 where
  pub transaction : Transaction
  pub input : Input
  pub output : Output
  pub log : Output

sent : Plan → ℕ
sent p = if p.suppress_body then 0 else length p.response.body

finish : Plan → Input → Output → Result ConnectionError (Unit {0}) × Output → Served
finish p input log (err failure, output) = record {
  transaction = record { result = err failure; left_unread = p.left_unread };
  input = input;
  output = output;
  log = log_line (message failure) log;
}
finish p input log (ok _, output) = record {
  transaction = record { result = ok tt; left_unread = p.left_unread };
  input = input;
  output = output;
  log =
      log_line
        (codes "response "
          ++ (decimal p.response.status
              ++ (codes " "
                  ++ (p.response.reason ++ (codes " (" ++ (decimal (sent p) ++ codes " bytes)"))))))
        log;
}

serve_read : Bytes → Output → Output → Input → Result ConnectionError ReadOutcome → Bytes → Served
serve_read page output log input (err failure) block = record {
  transaction = record { result = err failure; left_unread = false };
  input = input;
  output = output;
  log = log_line (message failure) log;
}
serve_read page output log input (ok outcome) block =
    let p = plan page outcome block in
    finish p input (log_line p.note log) (write_response p.response p.suppress_body output)

pub serve_connection : Bytes → Input → Output → Output → Served
serve_connection page input output log =
    let r = read_request request_max input in serve_read page output log r.unread r.outcome r.block
