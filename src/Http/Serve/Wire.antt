-- ===== src/Http/Serve/Wire.antt =====
-- The bytes of a response, and what reaches an output that may fail.
use scratchpad.Common.{
  ℕ, ◌≡◌, Bool, true, false, Option, none, some, [], ◌++◌, append_assoc, append-nil, Bytes,
  if◌then◌else◌, subst, take,
}
use scratchpad.Common.Io.{IoError, Result, ok, err, Output, Write, write_all, flush, ◌>>◌}
use scratchpad.Common.Io.Writes.{
  Sent, all_sent, part_sent, calm, Writes, Writes-write_all, Writes-flush, Writes->>,
}
use scratchpad.Http.{ConnectionError, write, Response}
use scratchpad.Http.Serve.{
  crlf, status_line, server_line, type_line, length_line, close_line, allow_line, put_allow,
  put_body, put_response, as_write, write_response,
}

abbrev allow_part : Option Bytes → Bytes
allow_part none = []
allow_part (some allow) = allow_line allow

-- The head of the response, up to the empty line that ends it.
unfoldable pub wire_head : Response → Bytes
wire_head resp =
    status_line resp
    ++ (server_line
        ++ (type_line ++ (length_line resp ++ (close_line ++ (allow_part resp.allow ++ crlf)))))

unfoldable pub wire : Response → Bool → Bytes
wire resp suppress_body = wire_head resp ++ (if suppress_body then [] else resp.body)

Writes-put_body :
    (b : Bool) (body : Bytes) → Writes (if b then [] else body) (put_body b body flush)
unfolding put_body
Writes-put_body true body = Writes-flush
Writes-put_body false body =
    subst (λ z. Writes z (write_all body >> flush)) (append-nil body)
      (Writes->> (Writes-write_all body) Writes-flush)

Writes-put_allow :
    (a : Option Bytes) {bs : Bytes} {next : Write IoError}
    → Writes bs next
    → Writes (allow_part a ++ bs) (put_allow a next)
unfolding put_allow
Writes-put_allow none w = w
Writes-put_allow (some a) w = Writes->> (Writes-write_all (allow_line a)) w

wire-eq :
    (resp : Response) (b : Bool)
    → status_line resp
        ++ (server_line
            ++ (type_line
                ++ (length_line resp
                    ++ (close_line
                        ++ (allow_part resp.allow ++ (crlf ++ (if b then [] else resp.body)))))))
      ≡ wire resp b
unfolding wire wire_head
wire-eq resp b = simp append_assoc

Writes-put_response : (resp : Response) (b : Bool) → Writes (wire resp b) (put_response resp b)
unfolding put_response
Writes-put_response resp b =
    subst (λ z. Writes z (put_response resp b)) (wire-eq resp b)
      (Writes->> (Writes-write_all (status_line resp)) (
        Writes->> (Writes-write_all server_line) (
          Writes->> (Writes-write_all type_line) (
            Writes->> (Writes-write_all (length_line resp)) (
              Writes->> (Writes-write_all close_line) (
                Writes-put_allow resp.allow
                  (Writes->> (Writes-write_all crlf) (Writes-put_body b resp.body))))))))

-- `n` bytes of `bs` went out after `old`, all of them unless the result is a write error.
pub data Delivered (bs old : Bytes) : Result ConnectionError (Unit {0}) × Output → Type 0 where
  delivered : {out : Output} → out.written ≡ old ++ bs → Delivered bs old (ok tt, out)
  cut_short :
      {out : Output} (e : IoError) (n : ℕ)
      → out.written ≡ old ++ take n bs
      → Delivered bs old (err (write e), out)

as_write-Delivered :
    (bs old : Bytes) {r : Result IoError (Unit {0}) × Output}
    → Sent bs old r
    → Delivered bs old (as_write r)
as_write-Delivered bs old (all_sent p) = delivered p
as_write-Delivered bs old (part_sent e n p) = cut_short e n p

-- However the output behaves, what went out is a part of the response from its start, and it is the
-- whole response if `write_response` reports success. Any failure is reported as a write error.
pub write_response-Delivered :
    (resp : Response) (b : Bool) (out : Output)
    → Delivered (wire resp b) out.written (write_response resp b out)
unfolding write_response
write_response-Delivered resp b out =
    as_write-Delivered (wire resp b) out.written ((Writes-put_response resp b).sent out)

-- An output that never fails gets the whole response.
pub write_response-calm :
    (resp : Response) (b : Bool) (old : Bytes)
    → write_response resp b (calm old) ≡ (ok tt, calm (old ++ wire resp b))
unfolding write_response
write_response-calm resp b old = rw (Writes-put_response resp b).quiet
