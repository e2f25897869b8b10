-- ===== src/Http/Respond.antt =====
-- http.rs: `status_reason`, `error_response` and `route`.
pub mod Contract
use scratchpad.Common.{
  ℕ, Bool, true, false, not, ◌&&◌, Option, none, some, List, [], ◌++◌, Bytes, codes, ◌==◌,
  if◌then◌else◌, bytes_eq,
}
use scratchpad.Common.Decimal.{decimal}
use scratchpad.Http.{
  Method, get, head, other, Request, Response, allowed_methods, root_path, index_path,
}

unfoldable pub status_reason : ℕ → Bytes
status_reason status =
    if status == 200
    then codes "OK"
    else if status == 400
    then codes "Bad Request"
    else if status == 404
    then codes "Not Found"
    else if status == 405
    then codes "Method Not Allowed"
    else if status == 431
    then codes "Request Header Fields Too Large"
    else if status == 505
    then codes "HTTP Version Not Supported"
    else codes "Unknown"

-- `format!("{status} {reason}")`
unfoldable pub status_head : ℕ → Bytes
status_head status = decimal status ++ (codes " " ++ status_reason status)

abbrev page_open : Bytes
page_open = codes "<!DOCTYPE html>\n<html lang=\"en\">\n<head><meta charset=\"utf-8\"><title>"

abbrev page_middle : Bytes
page_middle = codes "</title></head>\n<body><h1>"

abbrev page_close : Bytes
page_close = codes "</h1></body>\n</html>\n"

unfoldable pub error_body : ℕ → Bytes
error_body status =
    page_open ++ (status_head status ++ (page_middle ++ (status_head status ++ page_close)))

unfoldable pub error_response : ℕ → Response
error_response status = record {
  status = status;
  reason = status_reason status;
  body = error_body status;
  allow = if status == 405 then some allowed_methods else none;
}

-- `==` on `Method`
abbrev pub is_get : Method → Bool
is_get get = true
is_get _ = false

abbrev pub is_head : Method → Bool
is_head head = true
is_head _ = false

unfoldable pub route : Request → Bytes → Response
route req page =
    if not (req.major == 1)
    then error_response 505
    else if not (is_get req.method) && not (is_head req.method)
    then error_response 405
    else if not (bytes_eq req.path root_path) && not (bytes_eq req.path index_path)
    then error_response 404
    else record { status = 200; reason = status_reason 200; body = page; allow = none }
