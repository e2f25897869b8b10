-- ===== src/Http/Serve/Outcome.antt =====
-- The whole transaction of one connection.
use scratchpad.Common.{
  ℕ, ◌≤◌, ◌≡◌, refl, true, false, none, some, [], ◌∷◌, ◌++◌, ◌↔◌, arith, Bytes, length,
}
use scratchpad.Common.Io.{interrupted, byte, fault, Input, bytes_input, Result, ok, err, Output}
use scratchpad.Common.Io.Writes.{calm}
use scratchpad.Http.{
  request_max, ConnectionError, answered, Request, ReadOutcome, complete, too_large,
}
use scratchpad.Http.Parse.{parse_request}
use scratchpad.Http.Parse.Grammar.{SaysRequest}
use scratchpad.Http.Parse.Complete.{parse_request_complete}
use scratchpad.Http.Respond.{error_response, route, is_head}
use scratchpad.Http.Read.{read_loop, read_request}
use scratchpad.Http.Read.Framing.{EndsFirst, read_request_complete}
use scratchpad.Http.Serve.{
  Plan, plan, plan_parsed, Served, log_line, finish, serve_read, serve_connection,
}
use scratchpad.Http.Serve.Wire.{
  wire, Delivered, delivered, cut_short, write_response-Delivered, write_response-calm,
}

-- A request that the grammar allows, in a header block within the limit, gets the routed response
-- on an output that does not fail: all of it for a GET, and its head alone for a HEAD. The bytes
-- after the block are not read.
pub serve_connection-request :
    (page block rest old : Bytes) (log : Output) (r : Request)
    → SaysRequest block r
    → EndsFirst block
    → length block ≤ request_max
    → let s = serve_connection page (bytes_input (block ++ rest)) (calm old) log in
      (s.output ≡ calm (old ++ wire (route r page) (is_head r.method)))
      × (s.input ≡ bytes_input rest)
      × (s.transaction ≡ record { result = ok tt; left_unread = false })
unfolding serve_connection serve_read plan finish
serve_connection-request page block rest old log r g d h =
    rw
      (
        read_request_complete request_max block rest d h,
        parse_request_complete block g,
        write_response-calm (route r page) (is_head r.method) old,
      )
      (refl, refl, refl)

read_loop-answered :
    (f : ConnectionError) (cap : ℕ) (out : Bytes) (input : Input)
    → (read_loop cap out input).outcome ≡ err f
    → answered f ≡ false
unfolding read_loop answered
read_loop-answered f cap out [] h = ground arith
read_loop-answered f cap out (byte b ∷ input) h =
    ground (arith, read_loop-answered f cap (out ++ b ∷ []) input)
read_loop-answered f cap out (fault interrupted ∷ input) h = read_loop-answered f cap out input h
read_loop-answered f cap out (fault e ∷ input) h = ground arith

-- What the connection came to, given how its read ended.
abbrev pub Accounted : Bytes → Output → Bytes → Result ConnectionError ReadOutcome → Served → Type 0
Accounted page output block (err f) s =
    (s.transaction ≡ record { result = err f; left_unread = false })
    × (answered f ≡ false)
    × (s.output ≡ output)
Accounted page output block (ok o) s =
    let p = plan page o block in
    Delivered (wire p.response p.suppress_body) output.written (s.transaction.result, s.output)
    × ((s.transaction.left_unread ≡ true) ↔ (o ≡ too_large))
    × ((o ≡ too_large) → p.response ≡ error_response 431)

plan-left_unread :
    (page : Bytes) (o : ReadOutcome) (block : Bytes)
    → (((plan page o block).left_unread ≡ true) ↔ (o ≡ too_large))
      × ((o ≡ too_large) → (plan page o block).response ≡ error_response 431)
unfolding plan
plan-left_unread page too_large block = (ground arith, λ _. refl)
plan-left_unread page complete block =
    elim (parse_request block)
      as (λ q.
        (((plan_parsed page block q).left_unread ≡ true) ↔ (complete ≡ too_large))
        × ((complete ≡ too_large) → (plan_parsed page block q).response ≡ error_response 431)) [
          | none ↦ (ground arith, λ e. cc)
          | some r ↦ (ground arith, λ e. cc)
        ]

finish-Delivered :
    {bs old : Bytes} {w : Result ConnectionError (Unit {0}) × Output} (p : Plan) (input : Input)
    (log : Output)
    → Delivered bs old w
    → Delivered bs old ((finish p input log w).transaction.result, (finish p input log w).output)
      × ((finish p input log w).transaction.left_unread ≡ p.left_unread)
unfolding finish
finish-Delivered p input log (delivered e) = (delivered e, refl)
finish-Delivered p input log (cut_short e n q) = (cut_short e n q, refl)

serve_read-Accounted :
    (page : Bytes) (output log : Output) (input : Input) (o : Result ConnectionError ReadOutcome)
    (block : Bytes)
    → ((f : ConnectionError) → o ≡ err f → answered f ≡ false)
    → Accounted page output block o (serve_read page output log input o block)
unfolding serve_read
serve_read-Accounted page output log input (err f) block h = (refl, h f refl, refl)
serve_read-Accounted page output log input (ok o) block h =
    let p = plan page o block in
    let (d, e) =
      finish-Delivered p input (log_line p.note log)
        (write_response-Delivered p.response p.suppress_body output) in
    let (u, v) = plan-left_unread page o block in (d, rw e u, v)

-- On any input, output and log. A failed read is the result, is not counted as answered, and writes
-- nothing. After a completed read the planned response goes out from its start, whole unless the
-- result is a write error; `left_unread` is set for a block over the limit and for no other, and
-- that block is answered with a 431.
pub serve_connection-Accounted :
    (page : Bytes) (input : Input) (output log : Output)
    → let r = read_request request_max input in
      Accounted page output r.block r.outcome (serve_connection page input output log)
unfolding serve_connection read_request
serve_connection-Accounted page input output log =
    let r = read_loop request_max [] input in
    serve_read-Accounted page output log r.unread r.outcome r.block
      (λ f h. read_loop-answered f request_max [] input h)
