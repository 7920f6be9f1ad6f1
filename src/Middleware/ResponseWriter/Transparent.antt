-- ===== src/Middleware/ResponseWriter/Transparent.antt =====
-- What the client is sent through the recording writer, against net/http's writer alone.
use yuna.Prelude.{ℕ, String, true, false, List, [], ◌∷◌, ◌≡◌, arith, if◌then◌else◌}
use yuna.Http.Conn
use yuna.Http.Conn.{Conn, is_informational}
use yuna.Middleware.ResponseWriter.{
  Interfaces, ResponseWriter, new_response_writer, conn_read_from, copy_fallback, read_from, flush,
  write_header, mark_ok, write,
}
use yuna.Middleware.ResponseWriter.Recorded.{Op, header_line, chunk, text, source, apply}

-- The calls of a handler, which may flush.
pub data Call : Type 0 where
  writes : Op → Call
  flushes : Call

unfoldable pub through : Call → ResponseWriter → ResponseWriter
unfolding apply flush
through (writes o) r = apply o r
through flushes r = flush r

-- The same call on the wrapped writer.
unfoldable pub direct : Interfaces → Call → Conn → Conn
direct has (writes (header_line code)) c = Conn.write_header code c
direct has (writes (chunk s)) c = (Conn.write s c).0
direct has (writes (text s)) c = (Conn.write s c).0
direct has (writes (source src)) c = (conn_read_from src c).0
direct has flushes c = if has.flusher then Conn.flush c else c

unfoldable pub all_through : List Call → ResponseWriter → ResponseWriter
unfolding through
all_through [] r = r
all_through (o ∷ os) r = all_through os (through o r)

unfoldable pub all_direct : Interfaces → List Call → Conn → Conn
unfolding direct
all_direct has [] c = c
all_direct has (o ∷ os) c = all_direct has os (direct has o c)

-- A final status line, or a source that is read at least once.
abbrev pub IsOrdinary : Call → Type 0
IsOrdinary (writes (header_line code)) = is_informational code ≡ false
IsOrdinary (writes (chunk s)) = Unit
IsOrdinary (writes (text s)) = Unit
IsOrdinary (writes (source [])) = ⊥
IsOrdinary (writes (source (s ∷ src))) = Unit
IsOrdinary flushes = Unit

-- The writer is over this connection, and drops a status line only where the connection does.
record Follows (has : Interfaces) (c : Conn) (r : ResponseWriter) : Type 0 where
  inner : r.inner ≡ c
  same_interfaces : r.interfaces ≡ has
  drops : r.wrote_header ≡ true → c.wrote_header ≡ true

-- What a copy of these reads does to any writer that follows.
abbrev CopyFollows : Interfaces → List String → Type 0
CopyFollows has src =
    (r : ResponseWriter)
    → r.interfaces ≡ has
    → (r.wrote_header ≡ true → r.inner.wrote_header ≡ true)
    → Follows has (conn_read_from src r.inner).0 (copy_fallback src r).0

-- Where ReadFrom is called with an empty source and net/http's writer has ReadFrom, a later status is
-- lost: the client is sent 200 where net/http without the writer sends the code.
pub empty_source_loses_status :
    (has : Interfaces) (c : Conn) (code : ℕ)
    → has.reader_from ≡ true
    → c.wrote_header ≡ false
    → is_informational code ≡ false
    → let os = writes (source []) ∷ writes (header_line code) ∷ [] in
      ((Conn.flush (all_through os (new_response_writer has c)).inner).status ≡ 200)
      × ((Conn.flush (all_direct has os c)).status ≡ code)
unfolding new_response_writer all_through all_direct through direct apply read_from write_header
    mark_ok conn_read_from Conn.flush Conn.write_header
empty_source_loses_status has c code e w f = ground arith
