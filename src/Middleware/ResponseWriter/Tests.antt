-- ===== src/Middleware/ResponseWriter/Tests.antt =====
-- The recording writer on a few calls.
use yuna.Prelude.{◌%◌, ◌^◌, List, [], ◌∷◌, ◌≡◌, refl}
use yuna.Http.Conn
use yuna.Http.Conn.{Conn, is_informational, fresh}
use yuna.Middleware.ResponseWriter.{new_response_writer, write_header, status, bytes_written, flush}
use yuna.Sample.{has}
use yuna.Middleware.ResponseWriter.Recorded.{
  run_recorded, Op, header_line, chunk, source, run, total,
}
use yuna.Middleware.ResponseWriter.Transparent.{
  Call, writes, flushes, all_through, all_direct, empty_source_loses_status,
}
use yuna.Middleware.ResponseWriter.Mismatch.{
  write_header_after_informational, write_header_after_flush,
}

abbrev calls : List Op
calls = header_line 201 ∷ chunk "ab" ∷ source ("c" ∷ []) ∷ header_line 500 ∷ []

run_recorded_example :
    let r = run calls (new_response_writer has fresh) in
    ((Conn.flush r.inner).status ≡ status r) × (bytes_written r ≡ total r.inner.body % 2 ^ 64)
unfolding is_informational
run_recorded_example = run_recorded has fresh calls refl refl (refl, (tt, (tt, (refl, tt))))

write_header_after_informational_run :
    let r = write_header 404 (write_header 103 (new_response_writer has fresh)) in
    let plain = Conn.write_header 404 (Conn.write_header 103 fresh) in
    ((Conn.flush r.inner).status ≡ 200) × (status r ≡ 103) × ((Conn.flush plain).status ≡ 404)
unfolding is_informational
write_header_after_informational_run =
    write_header_after_informational has fresh 103 404 refl refl refl

write_header_after_flush_run :
    let r = write_header 404 (flush (new_response_writer has fresh)) in
    ((Conn.flush r.inner).status ≡ 200) × (status r ≡ 404)
write_header_after_flush_run = write_header_after_flush has fresh 404 refl refl

abbrev flushed_calls : List Call
flushed_calls =
    writes (chunk "ab") ∷ flushes ∷ writes (source ("c" ∷ [])) ∷ writes (header_line 500) ∷ []

empty_source_loses_status_run :
    let os = writes (source []) ∷ writes (header_line 404) ∷ [] in
    ((Conn.flush (all_through os (new_response_writer has fresh)).inner).status ≡ 200)
    × ((Conn.flush (all_direct has os fresh)).status ≡ 404)
unfolding is_informational
empty_source_loses_status_run = empty_source_loses_status has fresh 404 refl refl refl
