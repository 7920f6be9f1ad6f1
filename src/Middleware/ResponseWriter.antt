-- ===== src/Middleware/ResponseWriter.antt =====
-- internal/middleware/http.go: the writer that records the status and the size of a response.
-- The wrapped writer is net/http's; which optional interfaces it has is a record of flags.
pub mod Recorded
pub mod Mismatch
pub mod Transparent
mod Tests
use Prim.Native.String.{len}
use yuna.Prelude.{
  ℕ, ◌+◌, ◌%◌, ◌^◌, String, Bool, true, false, Option, none, some, List, [], ◌∷◌, if◌then◌else◌,
}
use yuna.Http.Header.{Header}
use yuna.Http.Conn
use yuna.Http.Conn.{Conn, WriteError}

-- The type assertions that the wrapped writer passes.
pub record Interfaces : Type 0 where
  pub reader_from : Bool
  pub string_writer : Bool
  pub pusher : Bool
  pub hijacker : Bool
  pub flusher : Bool

pub record ResponseWriter : Type 0 where
  pub inner : Conn
  pub interfaces : Interfaces
  pub status_code : ℕ
  pub bytes_wrote : ℕ  -- uint64
  pub wrote_header : Bool

unfoldable pub new_response_writer : Interfaces → Conn → ResponseWriter
new_response_writer has c = record {
  inner = c;
  interfaces = has;
  status_code = 200;
  bytes_wrote = 0;
  wrote_header = false;
}

unfoldable pub header : ResponseWriter → Header
header r = r.inner.header

-- `if r.wroteHeader.CompareAndSwap(0, 1) { r.statusCode = http.StatusOK }`
unfoldable pub mark_ok : ResponseWriter → ResponseWriter
mark_ok r = if r.wrote_header then r else record r { wrote_header = true; status_code = 200 }

-- What a write to the wrapped writer leaves behind: its new state, and the bytes it took.
abbrev pub took :
    ResponseWriter → Conn × ℕ × Option WriteError → ResponseWriter × ℕ × Option WriteError
took r (c, n, e) = (record r { inner = c; bytes_wrote = (r.bytes_wrote + n) % 2 ^ 64 }, n, e)

unfoldable pub write : String → ResponseWriter → ResponseWriter × ℕ × Option WriteError
unfolding mark_ok Conn.write
write s r = let r' = mark_ok r in took r' (Conn.write s r'.inner)

unfoldable pub write_header : ℕ → ResponseWriter → ResponseWriter
unfolding Conn.write_header
write_header code r = if r.wrote_header then r else record r {
  inner = Conn.write_header code r.inner;
  status_code = code;
  wrote_header = true;
}

-- io.Copy over the reads of a source: it stops at the first error.
abbrev pub next_read {ℓ} :
    {W : Type ℓ}
    → (W → W × ℕ × Option WriteError)
    → W × ℕ × Option WriteError
    → W × ℕ × Option WriteError
next_read rest (r, n, some e) = (r, n, some e)
next_read rest (r, n, none) = let (r', m, e) = rest r in (r', n + m, e)

-- fallbackReadFromResponseWriter.Write, which does what Write does
unfoldable pub fallback_write : String → ResponseWriter → ResponseWriter × ℕ × Option WriteError
unfolding mark_ok Conn.write
fallback_write s r = let r' = mark_ok r in took r' (Conn.write s r'.inner)

unfoldable pub copy_fallback : List String → ResponseWriter → ResponseWriter × ℕ × Option WriteError
unfolding fallback_write
copy_fallback [] r = (r, 0, none)
copy_fallback (s ∷ src) r = next_read (copy_fallback src) (fallback_write s r)

-- net/http's ReadFrom: it copies the source's reads to the body.
unfoldable pub conn_read_from : List String → Conn → Conn × ℕ × Option WriteError
unfolding Conn.write
conn_read_from [] c = (c, 0, none)
conn_read_from (s ∷ src) c = next_read (conn_read_from src) (Conn.write s c)

unfoldable pub read_from : List String → ResponseWriter → ResponseWriter × ℕ × Option WriteError
unfolding mark_ok conn_read_from copy_fallback
read_from src r =
    if r.interfaces.reader_from
    then (let r' = mark_ok r in took r' (conn_read_from src r'.inner))
    else copy_fallback src r

unfoldable pub write_string : String → ResponseWriter → ResponseWriter × ℕ × Option WriteError
unfolding mark_ok write
write_string s r =
    if r.interfaces.string_writer
    then (let r' = mark_ok r in took r' (Conn.write s r'.inner))
    else write s r

-- What a call that the wrapped writer may not support does: it answers http.ErrNotSupported, or is
-- passed on to the wrapped writer.
pub data Forwarded : Type 0 where
  not_supported forwarded : Forwarded

unfoldable pub push : ResponseWriter → Forwarded
push r = if r.interfaces.pusher then forwarded else not_supported

unfoldable pub hijack : ResponseWriter → Forwarded
hijack r = if r.interfaces.hijacker then forwarded else not_supported

unfoldable pub flush : ResponseWriter → ResponseWriter
unfolding Conn.flush
flush r = if r.interfaces.flusher then record r { inner = Conn.flush r.inner } else r

unfoldable pub status : ResponseWriter → ℕ
status r = r.status_code

unfoldable pub bytes_written : ResponseWriter → ℕ
bytes_written r = r.bytes_wrote

unfoldable pub has_written_header : ResponseWriter → Bool
has_written_header r = r.wrote_header

unfoldable pub unwrap : ResponseWriter → Conn
unwrap r = r.inner
