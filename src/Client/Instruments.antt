-- ===== src/Client/Instruments.antt =====
-- internal/metrics/client.go: the instruments of a client, and what each call of the instrumenter
-- measures.
use yuna.Prelude.{ℕ, ℤ, String, Bool, Option, List, [], ◌∷◌}
use yuna.Otel.{Provider, or_global, float64_histogram, int64_counter, Instrument, Made, make_all}
use yuna.Client.{
  Call, record_request, record_client_error, record_dns_lookup, record_tls_handshake,
  record_conn_time, record_conn_reuse, record_conn_idle, called,
}

abbrev or_default : List ℕ → List ℕ
or_default [] = 25 ∷ 50 ∷ 100 ∷ 250 ∷ 500 ∷ 1000 ∷ []
or_default (b ∷ bs) = b ∷ bs

abbrev connection_buckets : List ℕ
connection_buckets = 10 ∷ 25 ∷ 50 ∷ 100 ∷ 250 ∷ []

abbrev histogram : String → String → List ℕ → Instrument
histogram name description buckets = record {
  kind = float64_histogram;
  name = name;
  description = description;
  unit = "s";
  buckets = buckets;
}

abbrev counter : String → String → Instrument
counter name description = record {
  kind = int64_counter;
  name = name;
  description = description;
  unit = "";
  buckets = [];
}

-- The instruments, in the order in which they are made.
unfoldable pub client_instruments : List ℕ → List Instrument
client_instruments buckets =
    histogram "http.client.request.duration"
      "Duration in seconds for the client to transmit a request and receive a response from the server"
      (or_default buckets)
    ∷ counter "http.client.errors" "Number of errors encountered by the client"
    ∷ histogram "http.client.dns.lookup.duration"
        "Duration in seconds for the client to perform a DNS lookup" connection_buckets
    ∷ histogram "http.client.tls.handshake.duration"
        "Duration in seconds for the client to perform a TLS handshake" connection_buckets
    ∷ histogram "http.client.connection.duration"
        "Duration in seconds for the client to establish a connection to the server"
        connection_buckets
    ∷ counter "http.client.connection.reuse"
        "Number of times the client reused a connection to the server"
    ∷ counter "http.client.connection.idle"
        "Number of times the client closed a connection to the server"
    ∷ []

-- NewHttpClientInstrumenter, where `meter` makes the instruments of a provider's meter.
unfoldable pub new_http_client_instrumenter :
    (Provider → Instrument → Option String) → Provider → List ℕ → Made
unfolding or_global client_instruments make_all
new_http_client_instrumenter meter mp buckets =
    make_all (meter (or_global mp)) (client_instruments buckets)

pub data AttributeValue : Type 0 where
  a_string : String → AttributeValue
  an_int : ℕ → AttributeValue
  a_bool : Bool → AttributeValue

-- A Record of a duration in nanoseconds, or an Add of a number.
pub data Amount : Type 0 where
  seconds_of : ℤ → Amount
  added : ℕ → Amount

pub record Measurement : Type 0 where
  pub name : String
  pub amount : Amount
  pub attributes : List (String × AttributeValue)

abbrev server_address : String → String × AttributeValue
server_address addr = ("server.address", a_string addr)

-- The methods of HttpClientInstrumenter; a hook of the application measures nothing.
unfoldable pub measure : Call → List Measurement
measure (record_request method path addr status latency) =
    record {
      name = "http.client.request.duration";
      amount = seconds_of latency;
      attributes =
          ("http.request.method", a_string method)
          ∷ server_address addr
          ∷ ("http.response.status_code", an_int status)
          ∷ ("http.route", a_string path)
          ∷ [];
    }
    ∷ []
measure (record_client_error addr) =
    record { name = "http.client.errors"; amount = added 1; attributes = server_address addr ∷ [] }
    ∷ []
measure (record_dns_lookup latency) =
    record {
      name = "http.client.dns.lookup.duration";
      amount = seconds_of latency;
      attributes = [];
    }
    ∷ []
measure (record_tls_handshake addr latency) =
    record {
      name = "http.client.tls.handshake.duration";
      amount = seconds_of latency;
      attributes = server_address addr ∷ [];
    }
    ∷ []
measure (record_conn_time addr latency) =
    record {
      name = "http.client.connection.duration";
      amount = seconds_of latency;
      attributes = server_address addr ∷ [];
    }
    ∷ []
measure (record_conn_reuse addr reused) =
    record {
      name = "http.client.connection.reuse";
      amount = added 1;
      attributes = server_address addr ∷ ("reused", a_bool reused) ∷ [];
    }
    ∷ []
measure (record_conn_idle addr idle) =
    record {
      name = "http.client.connection.idle";
      amount = added 1;
      attributes = server_address addr ∷ ("was.idle", a_bool idle) ∷ [];
    }
    ∷ []
measure (called n) = []
