-- ===== src/Http.antt =====
-- tiny_http_server/rust/src/http.rs: the types and constants of the protocol. The children model
-- its functions, and their children hold the proofs.
pub mod Parse
pub mod Respond
pub mod Sanitize
pub mod Read
pub mod Serve
mod Tests
use scratchpad.Common.{ℕ, Bool, true, false, Option, Bytes, codes}
use scratchpad.Common.Io.{IoError, Result}

abbrev pub prog_name : Bytes
prog_name = codes "tiny_http_server"

abbrev pub server_name : Bytes
server_name = codes "tiny_http_server"

abbrev pub content_type : Bytes
content_type = codes "text/html; charset=utf-8"

abbrev pub request_max : ℕ
request_max = 8192

abbrev pub log_line_max : ℕ
log_line_max = 255

abbrev pub allowed_methods : Bytes
allowed_methods = codes "GET, HEAD"

abbrev pub root_path : Bytes
root_path = codes "/"

abbrev pub index_path : Bytes
index_path = codes "/index.html"

abbrev pub ellipsis : Bytes
ellipsis = codes "..."

pub data ConnectionError : Type 0 where
  closed timeout : ConnectionError
  read write : IoError → ConnectionError

-- `ConnectionError::answered`
unfoldable pub answered : ConnectionError → Bool
answered (write _) = true
answered _ = false

-- the `Display` of a `ConnectionError`
unfoldable pub message : ConnectionError → Bytes
message closed = codes "client closed the connection without sending a request"
message timeout = codes "client sent nothing before the read timeout"
message (read _) = codes "error reading the request"
message (write _) = codes "error writing the response"

pub data Method : Type 0 where
  get head other : Method

pub record Request : Type 0 where
  pub method : Method
  pub target : Bytes
  pub path : Bytes
  pub major : ℕ
  pub minor : ℕ
  pub line : Bytes

pub record Response : Type 0 where
  pub status : ℕ
  pub reason : Bytes
  pub body : Bytes
  pub allow : Option Bytes

pub data ReadOutcome : Type 0 where
  complete too_large : ReadOutcome

pub record Transaction : Type 0 where
  pub result : Result ConnectionError (Unit {0})
  pub left_unread : Bool
