-- ===== src/Http.antt =====
-- What the gateway uses of net/http: requests with their headers, and the response writer. A
-- header is a list of name and value pairs whose names are compared without regard to case; the
-- status line and the header are sent by the first `WriteHeader`, and later calls change neither.
pub mod Laws
use kortex.Common.{
  ℕ, String, Bool, ◌==◌, Option, none, some, List, [], ◌∷◌, ◌++◌, if◌then◌else◌, false, length,
}
use kortex.Common.Int.{ℤ, pos, ltb_ℤ}
use kortex.Common.Utf8.{bytes}
use kortex.Common.Text.{fold_eq, ◌<>◌}

abbrev pub Header : Type 0
Header = List (String × String)

-- The first value of a name, or the empty text.
unfoldable pub header_get : String → Header → String
header_get name [] = ""
header_get name ((k, v) ∷ h) = if fold_eq k name then v else header_get name h

unfoldable pub header_del : String → Header → Header
header_del name [] = []
header_del name ((k, v) ∷ h) =
    if fold_eq k name then header_del name h else (k, v) ∷ header_del name h

unfoldable pub header_set : String → String → Header → Header
unfolding header_del
header_set name value h = header_del name h ++ (name, value) ∷ []

-- The body is none once it has been read or closed; under a limit, that of http.MaxBytesReader, a
-- longer body cannot be read to its end.
pub record Request : Type 0 where
  pub method : String
  pub path : String
  pub header : Header
  pub remote_addr : String
  pub content_length : ℤ
  pub body_limit : Option ℤ
  pub body : Option String

unfoldable pub over_limit : Option ℤ → String → Bool
over_limit none body = false
over_limit (some limit) body = ltb_ℤ limit (pos (length (bytes body)))

-- A response of an upstream server.
pub record Response : Type 0 where
  pub status_code : ℕ
  pub header : Header
  pub body : String

-- `status` and `sent` are what the client has received.
pub record ResponseWriter : Type 0 where
  pub header : Header
  pub status : Option ℕ
  pub sent : Header
  pub body : List String

abbrev pub new_writer : ResponseWriter
new_writer = record { header = []; status = none; sent = []; body = [] }

send : Option ℕ → ℕ → ResponseWriter → ResponseWriter
send none code w = record w { status = some code; sent = w.header }
send (some s) code w = w

unfoldable pub write_header : ℕ → ResponseWriter → ResponseWriter
unfolding send
write_header code w = send w.status code w

unfoldable pub write : String → ResponseWriter → ResponseWriter
unfolding write_header
write text w = let w' = write_header 200 w in record w' { body = w'.body ++ text ∷ [] }

unfoldable pub http_error : String → ℕ → ResponseWriter → ResponseWriter
unfolding header_set write write_header
http_error message code w = write (message <> "\n") (
    write_header code (record w {
      header = header_set "X-Content-Type-Options" "nosniff" (
          header_set "Content-Type" "text/plain; charset=utf-8"
            (header_del "Content-Length" w.header));
    }))
