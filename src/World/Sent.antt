-- ===== src/World/Sent.antt =====
-- What a client is sent by a handler that sets headers, writes a status line and encodes a value.
use Prim.Native.String
use Prim.Native.String.{len}
use package.text.Mathlib.TextPositions.{len-append}
use yuna.Prelude.{ℕ, ◌+◌, String, true, false, some, List, [], ◌∷◌, ◌++◌, ◌≡◌, arith}
use yuna.Http.Header.{Header}
use yuna.Http.Conn.{is_informational, body_allowed}
use yuna.World.{World, Writer, plain, recording, conn_of, map_header, write_header, encode}

-- Nothing has been written through this writer.
abbrev pub IsUnsent : Writer → Type 0
IsUnsent (plain c) = c.wrote_header ≡ false
IsUnsent (recording r) = (r.wrote_header ≡ false) × (r.inner.wrote_header ≡ false)

len-line : (s : String) → len (String.◌++◌ s "\n") ≡ len s + 1
len-line s = len-append s "\n"

abbrev send : (Header → Header) → ℕ → World → World
send f code w = write_header code (map_header f w)

-- The status line, the header that goes with it and the body, of a response in one go.
pub record IsSent (f : Header → Header) (code : ℕ) (line : List String) (w w' : World)
    : Type 0 where
  pub is_written : (conn_of w'.writer).wrote_header ≡ true
  pub status : (conn_of w'.writer).status ≡ code
  pub sent : (conn_of w'.writer).sent ≡ f (conn_of w.writer).header
  pub body : (conn_of w'.writer).body ≡ (conn_of w.writer).body ++ line
  pub same_events : w'.events ≡ w.events
  pub same_logs : w'.logs ≡ w.logs

pub send-encode :
    (f : Header → Header) (code : ℕ) (json : String) (w : World)
    → IsUnsent w.writer
    → is_informational code ≡ false
    → body_allowed code ≡ true
    → IsSent f code (String.◌++◌ json "\n" ∷ []) w (encode (some json) (send f code w)).0
      × ((encode (some json) (send f code w)).1 ≡ false)
unfolding encode write_header map_header
send-encode f code json w u i b = ground (arith, len-line json)
