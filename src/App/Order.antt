-- ===== src/App/Order.antt =====
-- The order of the middlewares of a server.
use yuna.Prelude.{List, ◌≡◌}
use yuna.World.{Handler, Middleware}
use yuna.Handler.Nesting.{nest}
use yuna.App.{Packages}

-- What chi documents: its middlewares run from the first to the last, each around the next.
abbrev pub RunsInOrder : Packages → Type 0
RunsInOrder p = (ms : List Middleware) (h : Handler) → p.chain ms h ≡ nest ms h
