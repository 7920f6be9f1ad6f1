-- ===== src/Handler.antt =====
-- handler.go: a yuna handler as a net/http one, inside its middleware.
pub mod Nesting
mod Tests
use yuna.Prelude.{
  String, Bool, true, false, Option, none, some, List, [], ◌∷◌, ◌++◌, reverse, ◌≡◌, refl,
}
use yuna.World.{Request, World, Outcome, returned, panicked, Panic, Handler, Middleware, log_error}

-- What Respond did: it came back, with an error or without, or it panicked.
pub data Responded : Type 0 where
  responded : World → Bool → Responded
  respond_panicked : Panic → World → Responded

abbrev pub Responder : Type 0
Responder = Request → World → Responded

-- What a yuna handler did: it came back with a responder, which may be nil, or it panicked.
pub data Answer : Type 0 where
  answered : Option Responder → World → Answer
  answer_panicked : Panic → World → Answer

abbrev pub YunaHandler : Type 0
YunaHandler = Request → World → Answer

abbrev after_respond : Request → Responded → Outcome
after_respond r (responded w false) = returned w
after_respond r (responded w true) =
    returned (log_error r.ctx "Responder encountered an error writing response to the client" w)
after_respond r (respond_panicked p w) = panicked p w

abbrev after_answer : Request → Answer → Outcome
after_answer r (answered none w) = panicked (Panic.other "handler returned nil responder") w
after_answer r (answered (some respond) w) = after_respond r (respond r w)
after_answer r (answer_panicked p w) = panicked p w

-- The http.HandlerFunc at the centre of `wrap`.
unfoldable pub adapt : YunaHandler → Handler
adapt h r w = after_answer r (h r w)

-- The loop of `wrap`, from the last middleware to the first.
unfoldable pub wrap_loop : List Middleware → Handler → Handler
wrap_loop [] handler = handler
wrap_loop (m ∷ ms) handler = wrap_loop ms (m handler)

unfoldable pub wrap : YunaHandler → List Middleware → Handler
unfolding adapt wrap_loop
wrap h middlewares = wrap_loop (reverse middlewares) (adapt h)
