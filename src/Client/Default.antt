-- ===== src/Client/Default.antt =====
-- client.go: NewClient and DefaultClient.
use yuna.Prelude.{
  ℕ, String, Bool, true, false, Option, none, some, List, [], ◌∷◌, ◌≡◌, refl, ap, map,
}
use yuna.Log.Logger.{LogState}
use yuna.Otel.{Provider, Instrument, Made, made, refused}
use yuna.World.{Any}
use yuna.Options.{Config, BaseOption, new_config}
use yuna.Client.Instruments.{new_http_client_instrumenter}

-- http.Transport, where `init` changes it from net/http's default.
pub record Transport : Type 0 where
  pub max_idle_conns_per_host : ℕ
  pub max_idle_conns : ℕ
  pub max_conns_per_host : ℕ

unfoldable pub default_transport : Transport → Transport
default_transport t = record t {
  max_idle_conns_per_host = 100;
  max_idle_conns = 250;
  max_conns_per_host = 0;
}

-- The instrumenter that the hooks of a client call.
pub data Instrumenter : Type 0 where
  of_instruments : List Instrument → Instrumenter
  given : ℕ → Instrumenter

-- A client of resty, by what NewClient gives it: the transport and the tracer provider of its
-- instrumentation, and the configuration and the instrumenter of its hooks.
pub record RestyClient : Type 0 where
  pub transport : Transport
  pub trace_provider : Provider
  pub conf : Config
  pub instrumenter : Instrumenter

pub data NewClient : Type 0 where
  client : RestyClient → NewClient
  panics : String → NewClient

-- What the code takes from elsewhere: json.Marshal, net/http's default transport, and making an
-- instrument with the meter of a provider, by its error.
pub record Given : Type 0 where
  pub marshal : Any → Option String
  pub transport : Transport
  pub meter : Provider → Instrument → Option String

module _ (p : Given) where
  abbrev client_of : Config → Instrumenter → RestyClient
  client_of conf instrumenter = record {
    transport = default_transport p.transport;
    trace_provider = conf.trace_provider;
    conf = conf;
    instrumenter = instrumenter;
  }

  abbrev client_made : Config → Made → NewClient
  client_made conf (made is) = client (client_of conf (of_instruments is))
  client_made conf (refused err) = panics err

  abbrev client_with : Config → Option ℕ → NewClient
  client_with conf none =
      client_made conf
        (new_http_client_instrumenter p.meter conf.meter_provider conf.request_duration_buckets)
  client_with conf (some n) = client (client_of conf (given n))

  unfoldable pub new_client : LogState → List BaseOption → NewClient
  unfolding new_config new_http_client_instrumenter default_transport
  new_client s opts =
      let conf = new_config p.marshal s opts in client_with conf conf.client_instrumenter

-- clientInitializer, by whether it is done, and defaultClient, which is nil at first.
pub record DefaultState : Type 0 where
  pub is_done : Bool
  pub default_client : Option RestyClient

abbrev pub fresh : DefaultState
fresh = record { is_done = false; default_client = none }

pub data Answer : Type 0 where
  answer : Option RestyClient → Answer
  panicked : String → Answer

abbrev initialized : NewClient → Answer × DefaultState
initialized (client c) = (answer (some c), record { is_done = true; default_client = some c })
initialized (panics err) = (panicked err, record { is_done = true; default_client = none })

module _ (p : Given) where
  -- A function that panics in sync.Once.Do counts as done.
  abbrev default_client_if : Bool → LogState → DefaultState → Answer × DefaultState
  default_client_if true s st = (answer st.default_client, st)
  default_client_if false s st = initialized (new_client p s [])

  unfoldable pub default_client : LogState → DefaultState → Answer × DefaultState
  unfolding new_client
  default_client s st = default_client_if st.is_done s st

  -- The answers to calls one after another, each with the loggers at its time.
  abbrev pub answers : List LogState → DefaultState → List Answer
  answers [] st = []
  answers (s ∷ ss) st = (default_client s st).0 ∷ answers ss (default_client s st).1

  abbrev pub first_answer : NewClient → Answer
  first_answer (client c) = answer (some c)
  first_answer (panics err) = panicked err

  abbrev pub later_answer : NewClient → Answer
  later_answer (client c) = answer (some c)
  later_answer (panics err) = answer none

  answers-done :
      (ss : List LogState) (o : Option RestyClient)
      → answers ss (record { is_done = true; default_client = o }) ≡ map (λ s. answer o) ss
  unfolding default_client
  answers-done [] o = refl
  answers-done (s ∷ ss) o = ap (λ xs. answer o ∷ xs) (answers-done ss o)

  answers-initialized :
      (ss : List LogState) (c : NewClient)
      → (initialized c).0 ∷ answers ss (initialized c).1
        ≡ first_answer c ∷ map (λ s. later_answer c) ss
  answers-initialized ss (client c) = ap (λ xs. answer (some c) ∷ xs) (answers-done ss (some c))
  answers-initialized ss (panics err) = ap (λ xs. panicked err ∷ xs) (answers-done ss none)

  -- However often DefaultClient is called, the client is made once, by NewClient without options at
  -- the first call, and every call answers that same client; where the first call panics, every
  -- later one answers nil.
  pub default_client_shared :
      (s : LogState) (ss : List LogState)
      → answers (s ∷ ss) fresh
        ≡ first_answer (new_client p s []) ∷ map (λ t. later_answer (new_client p s [])) ss
  unfolding default_client
  default_client_shared s ss = answers-initialized ss (new_client p s [])
