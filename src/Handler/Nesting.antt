-- ===== src/Handler/Nesting.antt =====
-- The order of the middleware.
use mathlib.Core.List.{reverse-cons}
use yuna.Prelude.{List, [], ◌∷◌, ◌++◌, reverse, ◌≡◌, refl, ◌∙◌, ap}
use yuna.World.{Handler, Middleware}
use yuna.Handler.{YunaHandler, adapt, wrap_loop, wrap}

-- The first middleware is the outermost.
abbrev pub nest : List Middleware → Handler → Handler
nest [] h = h
nest (m ∷ ms) h = m (nest ms h)

wrap_loop-append :
    (ms ns : List Middleware) (h : Handler) → wrap_loop (ms ++ ns) h ≡ wrap_loop ns (wrap_loop ms h)
unfolding wrap_loop
wrap_loop-append [] ns h = refl
wrap_loop-append (m ∷ ms) ns h = wrap_loop-append ms ns (m h)

wrap_loop-reverse : (ms : List Middleware) (h : Handler) → wrap_loop (reverse ms) h ≡ nest ms h
unfolding wrap_loop
wrap_loop-reverse [] h = refl
wrap_loop-reverse (m ∷ ms) h =
    ap (λ l. wrap_loop l h) (reverse-cons m ms)
    ∙ wrap_loop-append (reverse ms) (m ∷ []) h
    ∙ ap m (wrap_loop-reverse ms h)

-- `wrap` puts the first middleware outermost and the last next to the handler: it is the nesting of
-- the middleware around the handler.
pub wrap-nest : (h : YunaHandler) (ms : List Middleware) → wrap h ms ≡ nest ms (adapt h)
unfolding wrap
wrap-nest h ms = wrap_loop-reverse ms (adapt h)
