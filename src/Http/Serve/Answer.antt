-- ===== src/Http/Serve/Answer.antt =====
-- What a connection answers, told from the grammar of requests and not from the code's checks.
use scratchpad.Common.{
  ℕ, ◌≡◌, ◌≢◌, refl, sym, Bool, true, false, ◌↔◌, ◌⊎◌, inl, inr, Option, none, some, ◌++◌, arith,
  Bytes, codes, ◌==◌, bytes_eq, bytes_eq_iff, Option-cases, not, ◌&&◌, if-cases, subst,
}
use scratchpad.Common.Decimal.{decimal}
use scratchpad.Common.Io.{Input, ok, Output}
use scratchpad.Http.{
  request_max, Method, head, other, Request, Response, ReadOutcome, complete, too_large, root_path,
  index_path,
}
use scratchpad.Http.Parse.{parse_request}
use scratchpad.Http.Parse.Grammar.{SaysRequest}
use scratchpad.Http.Parse.Sound.{parse_request_sound}
use scratchpad.Http.Parse.Complete.{parse_request_complete}
use scratchpad.Http.Respond.{
  error_response, error_body, status_head, status_reason, route, is_get, is_head,
}
use scratchpad.Http.Read.{read_request}
use scratchpad.Http.Serve.{plan, serve_connection}
use scratchpad.Http.Serve.Wire.{wire, Delivered}
use scratchpad.Http.Serve.Outcome.{serve_connection-Accounted, Accounted}

-- The answer of an error: its status twice in a page of its own.
abbrev pub refusal : ℕ → Bytes → Bytes → Option Bytes → Response
refusal status digits reason allow =
    let line = digits ++ (codes " " ++ reason) in
    record {
      status = status;
      reason = reason;
      body =
          codes "<!DOCTYPE html>\n<html lang=\"en\">\n<head><meta charset=\"utf-8\"><title>"
          ++ (line
              ++ (codes "</title></head>\n<body><h1>"
                  ++ (line ++ codes "</h1></body>\n</html>\n")));
      allow = allow;
    }

abbrev pub IsPagePath : Bytes → Type 0
IsPagePath path = (path ≡ codes "/") ⊎ (path ≡ codes "/index.html")

-- The answer to a request, by the first thing that is wrong with it.
pub data Reply (page : Bytes) (r : Request) : Response → Type 0 where
  bad_version :
      r.major ≢ 1
      → Reply page r (refusal 505 (codes "505") (codes "HTTP Version Not Supported") none)
  bad_method :
      r.major ≡ 1
      → r.method ≡ other
      → Reply page r
          (refusal 405 (codes "405") (codes "Method Not Allowed") (some (codes "GET, HEAD")))
  not_found :
      r.major ≡ 1
      → r.method ≢ other
      → (IsPagePath r.path → ⊥)
      → Reply page r (refusal 404 (codes "404") (codes "Not Found") none)
  the_page :
      r.major ≡ 1
      → r.method ≢ other
      → IsPagePath r.path
      → Reply page r (record { status = 200; reason = codes "OK"; body = page; allow = none })

-- The answer to what was read, and whether its body is left out.
pub data Answers (page block : Bytes) : ReadOutcome → Response → Bool → Type 0 where
  over_limit :
      Answers page block too_large
        (refusal 431 (codes "431") (codes "Request Header Fields Too Large") none)
        false
  malformed :
      ((r : Request) → SaysRequest block r → ⊥)
      → Answers page block complete (refusal 400 (codes "400") (codes "Bad Request") none) false
  replied :
      {resp : Response} {suppress_body : Bool} (r : Request)
      → SaysRequest block r
      → Reply page r resp
      → ((suppress_body ≡ true) ↔ (r.method ≡ head))
      → Answers page block complete resp suppress_body

refused_400 : error_response 400 ≡ refusal 400 (codes "400") (codes "Bad Request") none
unfolding error_response error_body status_head status_reason decimal
refused_400 = refl

refused_404 : error_response 404 ≡ refusal 404 (codes "404") (codes "Not Found") none
unfolding error_response error_body status_head status_reason decimal
refused_404 = refl

refused_405 :
    error_response 405
    ≡ refusal 405 (codes "405") (codes "Method Not Allowed") (some (codes "GET, HEAD"))
unfolding error_response error_body status_head status_reason decimal
refused_405 = refl

refused_431 :
    error_response 431 ≡ refusal 431 (codes "431") (codes "Request Header Fields Too Large") none
unfolding error_response error_body status_head status_reason decimal
refused_431 = refl

refused_505 :
    error_response 505 ≡ refusal 505 (codes "505") (codes "HTTP Version Not Supported") none
unfolding error_response error_body status_head status_reason decimal
refused_505 = refl

route-Reply : (page : Bytes) (r : Request) → Reply page r (route r page)
unfolding route status_reason
route-Reply page r =
    if-cases (Reply page r) (not (r.major == 1)) _ _
      (λ wrong. subst (Reply page r) (sym refused_505) (bad_version (ground (arith, wrong))))
      (λ h.
        let version : r.major ≡ 1 = ground (arith, h) in
        if-cases (Reply page r) (not (is_get r.method) && not (is_head r.method)) _ _
          (λ wrong.
            subst (Reply page r) (sym refused_405) (bad_method version (ground (arith, wrong))))
          (λ k.
            let method : r.method ≢ other = ground (arith, k) in
            if-cases (Reply page r)
              (not (bytes_eq r.path root_path) && not (bytes_eq r.path index_path)) _ _
              (λ wrong. subst (Reply page r) (sym refused_404) (
                not_found version method (
                  ground
                    (arith, wrong, bytes_eq_iff r.path root_path, bytes_eq_iff r.path index_path))))
              (λ l. the_page version method (
                ground (arith, l, bytes_eq_iff r.path root_path, bytes_eq_iff r.path index_path)))))

is_head_iff : (m : Method) → (is_head m ≡ true) ↔ (m ≡ head)
is_head_iff m = ground arith

plan-Answers :
    (page : Bytes) (o : ReadOutcome) (block : Bytes)
    → Answers page block o (plan page o block).response (plan page o block).suppress_body
unfolding plan
plan-Answers page too_large block =
    subst (λ resp. Answers page block too_large resp false) (sym refused_431) over_limit
plan-Answers page complete block = elim (Option-cases (parse_request block)) [
  | inl e ↦ rw e (
      subst (λ resp. Answers page block complete resp false) (sym refused_400)
        (malformed (λ r says. let q = parse_request_complete block says in cc)))
  | inr (r, e) ↦
      rw e (replied r (parse_request_sound block e) (route-Reply page r) (is_head_iff r.method))
]

-- After a read that ends well, on any input, output and log: a block over the limit is answered with a
-- 431, one that says no request with a 400, and one that says a request with a 505, 405, 404 or the page,
-- by the first of its version, method and path that is wrong. Each has its reason phrase and a page
-- that names both, a 405 alone lists the allowed methods, and the body is left out exactly for a HEAD.
-- That answer goes out from its start, whole unless the result is a write error.
pub serve_connection-Answers :
    (page : Bytes) (input : Input) (output log : Output) {o : ReadOutcome}
    → (read_request request_max input).outcome ≡ ok o
    → let s = serve_connection page input output log in
      (resp : Response) × (suppress_body : Bool) × Answers page
        (read_request request_max input).block
        o
        resp
        suppress_body
      × Delivered (wire resp suppress_body) output.written (s.transaction.result, s.output)
serve_connection-Answers page input output log {o} h =
    let block = (read_request request_max input).block in
    let p = plan page o block in
    let accounted : Accounted page output block (ok o) (serve_connection page input output log) =
      rw h at (serve_connection-Accounted page input output log) in
    (p.response, p.suppress_body, plan-Answers page o block, accounted.0)
