-- ===== src/Middleware/ResponseWriter/Recorded.antt =====
-- What the writer records is what the client is sent.
use Prim.Native.String.{len}
use yuna.Prelude.{ℕ, ◌+◌, ◌%◌, ◌^◌, String, true, false, List, [], ◌∷◌, ◌++◌, ◌≡◌, arith}
use yuna.Http.Conn
use yuna.Http.Conn.{Conn, WriteError, is_informational}
use yuna.Middleware.ResponseWriter.{
  Interfaces, ResponseWriter, new_response_writer, write, write_header, write_string, read_from,
  conn_read_from, copy_fallback, fallback_write, status, bytes_written,
}

-- The calls of a handler that does not flush early.
pub data Op : Type 0 where
  header_line : ℕ → Op
  chunk : String → Op
  text : String → Op
  source : List String → Op

unfoldable pub apply : Op → ResponseWriter → ResponseWriter
unfolding write_header write write_string read_from
apply (header_line code) r = write_header code r
apply (chunk s) r = (write s r).0
apply (text s) r = (write_string s r).0
apply (source src) r = (read_from src r).0

unfoldable pub run : List Op → ResponseWriter → ResponseWriter
unfolding apply
run [] r = r
run (o ∷ os) r = run os (apply o r)

-- A status line that the call writes is a final one.
abbrev pub IsFinal : Op → Type 0
IsFinal (header_line code) = is_informational code ≡ false
IsFinal (chunk s) = Unit
IsFinal (text s) = Unit
IsFinal (source src) = Unit

abbrev pub AllFinal : List Op → Type 0
AllFinal [] = Unit
AllFinal (o ∷ os) = IsFinal o × AllFinal os

abbrev pub total : List String → ℕ
total [] = 0
total (s ∷ ss) = len s + total ss

total-append : (ss : List String) (s : String) → total (ss ++ s ∷ []) ≡ total ss + len s
total-append [] s = omega arith
total-append (t ∷ ss) s = omega (arith, total-append ss s)

-- The record agrees with the connection, which may still be without a status line.
pub record Agrees (r : ResponseWriter) : Type 0 where
  pub begun : r.inner.wrote_header ≡ true → r.wrote_header ≡ true
  pub same_status : r.inner.wrote_header ≡ true → r.inner.status ≡ r.status_code
  pub implied_ok : r.inner.wrote_header ≡ false → r.status_code ≡ 200
  pub same_bytes : r.bytes_wrote ≡ total r.inner.body % 2 ^ 64

-- What a copy to the connection does to it.
record Copied (c c' : Conn) (n : ℕ) : Type 0 where
  counted : total c'.body ≡ total c.body + n
  kept : c.wrote_header ≡ true → (c'.wrote_header ≡ true) × (c'.status ≡ c.status)
  begun_ok : c.wrote_header ≡ false → c'.wrote_header ≡ true → c'.status ≡ 200

write-Copied : (s : String) (c : Conn) → Copied c (Conn.write s c).0 (Conn.write s c).1
unfolding Conn.write
write-Copied s c = ground (arith, total-append c.body s)

conn_read_from-Copied :
    (src : List String) (c : Conn) → Copied c (conn_read_from src c).0 (conn_read_from src c).1
unfolding conn_read_from
conn_read_from-Copied [] c = ground arith
conn_read_from-Copied (s ∷ src) c =
    ground (arith, write-Copied s c, conn_read_from-Copied src (Conn.write s c).0)

fallback_write-Agrees : (s : String) (r : ResponseWriter) → Agrees r → Agrees (fallback_write s r).0
unfolding fallback_write
fallback_write-Agrees s r a = ground (arith, total-append r.inner.body s)

copy_fallback-Agrees :
    (src : List String) (r : ResponseWriter) → Agrees r → Agrees (copy_fallback src r).0
unfolding copy_fallback
copy_fallback-Agrees [] r a = a
copy_fallback-Agrees (s ∷ src) r a =
    ground (arith, fallback_write-Agrees s r a, copy_fallback-Agrees src (fallback_write s r).0)

read_from-Agrees : (src : List String) (r : ResponseWriter) → Agrees r → Agrees (read_from src r).0
unfolding read_from
read_from-Agrees src r a =
    ground (arith, conn_read_from-Copied src r.inner, copy_fallback-Agrees src r a)

apply-Agrees : (o : Op) (r : ResponseWriter) → IsFinal o → Agrees r → Agrees (apply o r)
unfolding apply
apply-Agrees (header_line code) r f a = ground arith
apply-Agrees (chunk s) r f a = ground (arith, total-append r.inner.body s)
apply-Agrees (text s) r f a = ground (arith, total-append r.inner.body s)
apply-Agrees (source src) r f a = read_from-Agrees src r a

run-Agrees : (os : List Op) (r : ResponseWriter) → AllFinal os → Agrees r → Agrees (run os r)
unfolding run
run-Agrees [] r f a = a
run-Agrees (o ∷ os) r f a = run-Agrees os (apply o r) f.1 (apply-Agrees o r f.0 a)

-- For every sequence of WriteHeader, Write, WriteString and ReadFrom calls whose status codes are
-- final ones, on a connection that has sent nothing: when the server has finished the response, the
-- recorded status is the status that the client was sent, and the recorded size is the number of
-- bytes of the body, modulo 2^64.
pub run_recorded :
    (has : Interfaces) (c : Conn) (os : List Op)
    → c.wrote_header ≡ false
    → c.body ≡ []
    → AllFinal os
    → let r = run os (new_response_writer has c) in
      ((Conn.flush r.inner).status ≡ status r) × (bytes_written r ≡ total r.inner.body % 2 ^ 64)
unfolding new_response_writer Conn.flush status bytes_written
run_recorded has c os w b f =
    ground (arith, run-Agrees os (new_response_writer has c) f (ground arith))
