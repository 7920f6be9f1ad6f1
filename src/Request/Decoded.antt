-- ===== src/Request/Decoded.antt =====
-- Decode behind Consumes: the decoder of the type that a route consumes.
use yuna.Prelude.{String, Bool, Option, none, some, if◌then◌else◌}
use yuna.Http.Header
use yuna.World.{Request, World}
use yuna.Request.{NetHttp}

-- What Consumes takes of mime.ParseMediaType, which Decode takes without its error.
abbrev pub parse_with : (String → Bool) → NetHttp → String → Option String
parse_with is_error net ct = if is_error ct then none else some (net.media_type ct)
