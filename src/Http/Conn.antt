-- ===== src/Http/Conn.antt =====
-- net/http's own response: what has gone to the client, and what a handler may still change.
-- The client's connection takes every write.
use Prim.Native.String.{len}
use yuna.Prelude.{
  ℕ, String, Bool, true, false, not, ◌&&◌, ◌||◌, Option, none, some, List, [], ◌∷◌, ◌++◌, leb, eqb,
  if◌then◌else◌,
}
use yuna.Http.Header.{Header}

pub record Conn : Type 0 where
  pub header : Header  -- what Header() hands out
  pub wrote_header : Bool
  pub status : ℕ  -- the final status line, once `wrote_header`
  pub sent : Header  -- the header as it stood when the status line was written
  pub informational : List ℕ  -- the 1xx status lines sent before it
  pub body : List String  -- the writes that reached the body

abbrev pub fresh : Conn
fresh = record {
  header = [];
  wrote_header = false;
  status = 0;
  sent = [];
  informational = [];
  body = [];
}

-- A status line of this class may precede the final one; 101 is final.
unfoldable pub is_informational : ℕ → Bool
is_informational code = leb 100 code && leb code 199 && not (eqb code 101)

unfoldable pub body_allowed : ℕ → Bool
body_allowed code = not ((leb 100 code && leb code 199) || eqb code 204 || eqb code 304)

-- A panic on a code outside 100 to 999 is left out.
unfoldable pub write_header : ℕ → Conn → Conn
unfolding is_informational
write_header code c =
    if c.wrote_header
    then c
    else if is_informational code
    then record c { informational = c.informational ++ code ∷ [] }
    else record c { wrote_header = true; status = code; sent = c.header }

pub data WriteError : Type 0 where
  body_not_allowed : WriteError

-- The new state, the count of bytes taken and the error.
abbrev append_body : String → Conn → Conn × ℕ × Option WriteError
append_body s c =
    if eqb (len s) 0
    then (c, 0, none)
    else if body_allowed c.status
    then (record c { body = c.body ++ s ∷ [] }, len s, none)
    else (c, 0, some body_not_allowed)

unfoldable pub write : String → Conn → Conn × ℕ × Option WriteError
unfolding write_header body_allowed
write s c = append_body s (write_header 200 c)

unfoldable pub flush : Conn → Conn
unfolding write_header
flush c = write_header 200 c
