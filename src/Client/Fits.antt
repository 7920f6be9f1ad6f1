-- ===== src/Client/Fits.antt =====
-- Each measurement has its instrument.
use yuna.Prelude.{
  ℕ, String, Bool, true, false, ◌&&◌, Option, none, some, List, [], ◌∷◌, ◌≡◌, refl, ap, ◌∙◌, any,
  ◌==◌,
}
use mathlib.Core.Path.{subst}
use yuna.Otel.{
  Provider, or_global, Kind, float64_histogram, int64_counter, int64_up_down_counter, Instrument,
  Made, made, refused, after, make_all,
}
use yuna.Client.{
  Call, record_request, record_client_error, record_dns_lookup, record_tls_handshake,
  record_conn_time, record_conn_reuse, record_conn_idle, called,
}
use yuna.Client.Instruments.{
  Amount, seconds_of, added, Measurement, measure, client_instruments, new_http_client_instrumenter,
}

-- An amount is of a kind: durations are recorded, and numbers are added.
abbrev kind_of : Amount → Kind
kind_of (seconds_of d) = float64_histogram
kind_of (added n) = int64_counter

abbrev same_kind : Kind → Kind → Bool
same_kind float64_histogram float64_histogram = true
same_kind int64_counter int64_counter = true
same_kind int64_up_down_counter int64_up_down_counter = true
same_kind _ _ = false

abbrev fits : Measurement → Instrument → Bool
fits m i = i.name == m.name && same_kind i.kind (kind_of m.amount)

-- Some instrument fits, for each measurement.
abbrev pub all_fit : List Measurement → List Instrument → Bool
all_fit [] is = true
all_fit (m ∷ ms) is = any (fits m) is && all_fit ms is

abbrev Makes : List Instrument → Made → Type 0
Makes js (made is) = is ≡ js
Makes js (refused err) = Unit

after-Makes :
    (i : Instrument) (o : Option String) (js : List Instrument) (m : Made)
    → Makes js m
    → Makes (i ∷ js) (after i o m)
after-Makes i none js (made is) h = ap (λ ks. i ∷ ks) h
after-Makes i none js (refused err) h = tt
after-Makes i (some err) js m h = tt

make_all-Makes :
    (meter : Instrument → Option String) (js : List Instrument) → Makes js (make_all meter js)
unfolding make_all
make_all-Makes meter [] = refl
make_all-Makes meter (j ∷ js) =
    after-Makes j (meter j) js (make_all meter js) (make_all-Makes meter js)

measure-fits :
    (c : Call) (buckets : List ℕ) → all_fit (measure c) (client_instruments buckets) ≡ true
unfolding measure client_instruments
measure-fits (record_request method path addr status latency) buckets = refl
measure-fits (record_client_error addr) buckets = refl
measure-fits (record_dns_lookup latency) buckets = refl
measure-fits (record_tls_handshake addr latency) buckets = refl
measure-fits (record_conn_time addr latency) buckets = refl
measure-fits (record_conn_reuse addr reused) buckets = refl
measure-fits (record_conn_idle addr idle) buckets = refl
measure-fits (called n) buckets = refl

-- Where NewHttpClientInstrumenter does not panic, every call of the instrumenter measures with an
-- instrument that it has made, under that name, and of the kind of what is measured: a histogram for
-- a duration and a counter for a number.
pub measurements_fit :
    (meter : Provider → Instrument → Option String) (mp : Provider) (buckets : List ℕ)
    (is : List Instrument) (c : Call)
    → new_http_client_instrumenter meter mp buckets ≡ made is
    → all_fit (measure c) is ≡ true
unfolding new_http_client_instrumenter
measurements_fit meter mp buckets is c h =
    ap (all_fit (measure c)) (
      subst (Makes (client_instruments buckets)) h
        (make_all-Makes (meter (or_global mp)) (client_instruments buckets)))
    ∙ measure-fits c buckets
