-- ===== src/Http/Laws.antt =====
-- Laws of headers and of the response writer.
use kortex.Common.{ℕ, String, ◌≡◌, Option, none, some, arith}
use kortex.Http.{ResponseWriter, write_header, write, http_error}

-- The status that the client sees once a code has been written.
abbrev pub or_code : Option ℕ → ℕ → Option ℕ
or_code none code = some code
or_code (some s) code = some s

pub status-write_header :
    (code : ℕ) (w : ResponseWriter) → (write_header code w).status ≡ or_code w.status code
unfolding write_header
status-write_header code w = ground arith

pub status-write : (t : String) (w : ResponseWriter) → (write t w).status ≡ or_code w.status 200
unfolding write
status-write t w = ground arith

pub status-http_error :
    (m : String) (code : ℕ) (w : ResponseWriter)
    → (http_error m code w).status ≡ or_code w.status code
unfolding http_error
status-http_error m code w = ground arith
