-- ===== src/Http/Serve/Log.antt =====
-- The server's log: a client cannot write a line of its own into it.
use scratchpad.Common.{
  ℕ, ◌≡◌, refl, ap, true, Option, none, some, [], ◌∷◌, ◌++◌, arith, Bytes, codes, all, all-append,
  zero, suc,
}
use scratchpad.Common.Decimal.{decimal, decimal-AllDigits, AllDigits}
use scratchpad.Common.Io.{Input, Result, ok, err, Output}
use scratchpad.Common.Io.Writes.{calm, Writes-write_all}
use scratchpad.Http.{
  request_max, log_line_max, prog_name, ConnectionError, closed, timeout, read, write, message,
  Request, Response, ReadOutcome, complete, too_large,
}
use scratchpad.Http.Parse.{parse_request, first_line, skip_one_blank_line}
use scratchpad.Http.Respond.{error_response, route, status_reason}
use scratchpad.Http.Sanitize.{is_printable}
use scratchpad.Http.Sanitize.Bounds.{sanitize-printable}
use scratchpad.Http.Read.{ReadResult, read_request}
use scratchpad.Http.Serve.{
  Plan, plan, plan_parsed, log_line, sent, finish, serve_read, serve_connection, write_response,
}

abbrev line_of : Bytes → Bytes
line_of text = prog_name ++ (codes ": " ++ (text ++ codes "\n"))

-- `line` is the server's name, printable text and a newline.
abbrev pub IsLogLine : Bytes → Type 0
IsLogLine line =
    (text : Bytes) × (line ≡ prog_name ++ (codes ": " ++ (text ++ codes "\n")))
    × (all is_printable text ≡ true)

-- The log has grown by this many lines.
abbrev pub Logged : ℕ → Bytes → Bytes → Type 0
Logged zero old new = new ≡ old
Logged (suc n) old new = (line : Bytes) × IsLogLine line × Logged n (old ++ line) new

all-digits : (xs : Bytes) → AllDigits xs → all is_printable xs ≡ true
all-digits [] h = refl
all-digits (x ∷ xs) h = ground (arith, all-digits xs)

decimal-printable : (n : ℕ) → all is_printable (decimal n) ≡ true
decimal-printable n = all-digits (decimal n) (decimal-AllDigits n)

message-printable : (f : ConnectionError) → all is_printable (message f) ≡ true
unfolding message
message-printable closed = refl
message-printable timeout = refl
message-printable (read e) = refl
message-printable (write e) = refl

log_line-calm :
    (text old : Bytes)
    → log_line text (calm old) ≡ calm (old ++ (prog_name ++ (codes ": " ++ (text ++ codes "\n"))))
unfolding log_line
log_line-calm text old =
    ap (λ r. r.1) ((Writes-write_all (prog_name ++ (codes ": " ++ (text ++ codes "\n")))).quiet old)

status_reason-printable : (n : ℕ) → all is_printable (status_reason n) ≡ true
unfolding status_reason
status_reason-printable n = ground arith

abbrev reply_text : Response → ℕ → Bytes
reply_text r n =
    codes "response "
    ++ (decimal r.status
        ++ (codes " " ++ (r.reason ++ (codes " (" ++ (decimal n ++ codes " bytes)")))))

reply_text-printable :
    (r : Response) (n : ℕ)
    → all is_printable r.reason ≡ true
    → all is_printable (reply_text r n) ≡ true
reply_text-printable r n h = simp (all-append, decimal-printable r.status, decimal-printable n, h)

route-reason : (req : Request) (page : Bytes) → all is_printable (route req page).reason ≡ true
unfolding route error_response
route-reason req page = ground (
  arith,
  status_reason-printable 505,
  status_reason-printable 405,
  status_reason-printable 404,
  status_reason-printable 200,
)

plan-printable :
    (page : Bytes) (o : ReadOutcome) (block : Bytes)
    → (all is_printable (plan page o block).note ≡ true)
      × (all is_printable (plan page o block).response.reason ≡ true)
unfolding plan
plan-printable page too_large block = (
  simp (all-append, decimal-printable request_max),
  unfold error_response in status_reason-printable 431,
)
plan-printable page complete block = parsed (parse_request block)
  where
    parsed :
        (q : Option Request)
        → (all is_printable (plan_parsed page block q).note ≡ true)
          × (all is_printable (plan_parsed page block q).response.reason ≡ true)
    parsed none = (
      simp (all-append, sanitize-printable (first_line (skip_one_blank_line block)) log_line_max),
      unfold error_response in status_reason-printable 400,
    )
    parsed (some req) = (sanitize-printable req.line log_line_max, route-reason req page)

finish-Logged :
    (p : Plan) (input : Input) (old : Bytes) (w : Result ConnectionError (Unit {0}) × Output)
    → all is_printable p.response.reason ≡ true
    → Logged 1 old (finish p input (calm old) w).log.written
unfolding finish sent
finish-Logged p input old (ok _, out) h =
    let text = reply_text p.response (sent p) in
    rw log_line-calm (line_of text, (text, refl, reply_text-printable p.response (sent p) h), refl)
finish-Logged p input old (err f, out) h =
    rw log_line-calm (line_of (message f), (message f, refl, message-printable f), refl)

-- Whatever a client sends and however the streams fail, a connection adds to a log that takes every
-- write exactly one line for a failed read and two otherwise, each of them the server's name and
-- printable text: no request can end a line, forge one or send a terminal an escape.
pub serve_connection-Logged :
    (page : Bytes) (input : Input) (output : Output) (old : Bytes)
    → Logged
        (elim (read_request request_max input).outcome [ ok _ ↦ 2 | err _ ↦ 1 ])
        old
        (serve_connection page input output (calm old)).log.written
unfolding serve_connection serve_read
serve_connection-Logged page input output old = go r.outcome r.block r.unread
  where
    r : ReadResult
    r = read_request request_max input

    go :
        (o : Result ConnectionError ReadOutcome) (block : Bytes) (unread : Input)
        → Logged
            (elim o [ ok _ ↦ 2 | err _ ↦ 1 ])
            old
            (serve_read page output (calm old) unread o block).log.written
    go (err f) block unread =
        rw log_line-calm (line_of (message f), (message f, refl, message-printable f), refl)
    go (ok o) block unread =
        let p = plan page o block in
        let (n, h) = plan-printable page o block in
        rw log_line-calm (
          line_of p.note,
          (p.note, refl, n),
          finish-Logged p unread (old ++ line_of p.note)
              (write_response p.response p.suppress_body output) h,
        )
