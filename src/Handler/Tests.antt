-- ===== src/Handler/Tests.antt =====
-- A handler inside two middlewares.
use yuna.Prelude.{List, [], ◌∷◌, ◌≡◌, refl, String, false, some}
use yuna.World.{Middleware, returned, emit, span_started}
use yuna.Handler.{YunaHandler, adapt, wrap, answered, responded}
use yuna.Sample.{request, world}
use yuna.Handler.Nesting.{wrap-nest, nest}

abbrev finish : YunaHandler
finish r w = answered (some (λ r w. responded w false)) w

-- Two middlewares, each of which marks where it stands.
abbrev mark : String → Middleware
mark m next r w = next r (emit (span_started m) w)

abbrev two_marks : List Middleware
two_marks = mark "first" ∷ mark "second" ∷ []

wrap-nest_run : wrap finish two_marks ≡ nest two_marks (adapt finish)
wrap-nest_run = wrap-nest finish two_marks

-- The first middleware of the list runs first.
marks_in_order :
    wrap finish two_marks request world
    ≡ returned (emit (span_started "second") (emit (span_started "first") world))
unfolding wrap
marks_in_order = refl
