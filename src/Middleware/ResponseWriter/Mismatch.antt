-- ===== src/Middleware/ResponseWriter/Mismatch.antt =====
-- Where the record and the response part: an informational status line, and an early flush.
use yuna.Prelude.{ℕ, true, false, ◌≡◌, arith}
use yuna.Http.Conn
use yuna.Http.Conn.{Conn, is_informational}
use yuna.Middleware.ResponseWriter.{Interfaces, new_response_writer, write_header, flush, status}

-- After an informational status line the final one is dropped: for every informational code and
-- every final code, on a connection that has sent nothing, the client is sent 200
-- where net/http without the writer sends the final code, and the informational code is recorded.
pub write_header_after_informational :
    (has : Interfaces) (c : Conn) (early final : ℕ)
    → c.wrote_header ≡ false
    → is_informational early ≡ true
    → is_informational final ≡ false
    → let r = write_header final (write_header early (new_response_writer has c)) in
      let plain = Conn.write_header final (Conn.write_header early c) in
      ((Conn.flush r.inner).status ≡ 200) × (status r ≡ early) × ((Conn.flush plain).status ≡ final)
unfolding new_response_writer write_header status Conn.flush Conn.write_header
write_header_after_informational has c early final w e f = ground arith

-- After an early flush the recorded status is not the one that was sent: for every final code, on a
-- connection that has sent nothing and can be flushed, the client is sent 200 and the code of the
-- later WriteHeader call is recorded.
pub write_header_after_flush :
    (has : Interfaces) (c : Conn) (code : ℕ)
    → has.flusher ≡ true
    → c.wrote_header ≡ false
    → let r = write_header code (flush (new_response_writer has c)) in
      ((Conn.flush r.inner).status ≡ 200) × (status r ≡ code)
unfolding new_response_writer write_header flush status Conn.flush Conn.write_header
write_header_after_flush has c code p w = ground arith
