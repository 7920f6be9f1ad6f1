-- ===== src/Client/Exchange.antt =====
-- What the hooks record at an exchange. When resty calls them is data: an exchange says how far it
-- came.
use yuna.Prelude.{
  String, Bool, true, false, Option, none, some, List, [], ◌∷◌, ◌++◌, ◌≡◌, refl, ap, ◌∙◌, arith,
  ltb, if◌then◌else◌,
}
use mathlib.Core.List.{append-nil}
use yuna.Options.{Config, Hook, no_op, hook}
use yuna.Client.{
  RawRequest, RestyRequest, RestyResponse, plain, response_error, Call, record_request,
  record_client_error, called, Hooked, ran, nil_pointer, TraceInfo, record_trace, templated_path,
  path_or, run_after, run_error, Outside, before_request, after_response, on_error,
}

-- How an exchange ends once the hooks before it have run: with an error before resty has made the
-- raw request; with an error after it, from a response whose status is zero if none came; or with a
-- response that was read.
pub data Exchange : Type 0 where
  not_sent : String → Exchange
  failed : RawRequest → RestyResponse → String → Exchange
  answered : RawRequest → RestyResponse → Exchange

abbrev after_calls : List Call → Hooked → Hooked
after_calls cs (ran ds e) = ran (cs ++ ds) e
after_calls cs (nil_pointer ds) = nil_pointer (cs ++ ds)

-- The calls that count an exchange.
abbrev is_count : Call → Bool
is_count (record_request method path host status time) = true
is_count (record_client_error host) = true
is_count _ = false

abbrev pub counts : List Call → List Call
counts [] = []
counts (c ∷ cs) = if is_count c then c ∷ counts cs else counts cs

abbrev pub counts_of : Hooked → List Call
counts_of (ran cs e) = counts cs
counts_of (nil_pointer cs) = counts cs

abbrev finish : Config → RestyRequest → RestyResponse → Hooked → Hooked
finish conf r resp (ran cs none) = ran cs none
finish conf r resp (ran cs (some err)) =
    after_calls cs (on_error conf r (response_error (some resp) err))
finish conf r resp (nil_pointer cs) = nil_pointer cs

abbrev with_raw : RawRequest → RestyRequest → RestyRequest
with_raw raw r = record r { raw_request = some raw }

abbrev send : Outside → Config → RestyRequest → Exchange → Hooked
send z conf r (not_sent err) = on_error conf r (plain err)
send z conf r (failed raw resp err) =
    on_error conf (with_raw raw r) (response_error (some resp) err)
send z conf r (answered raw resp) =
    finish conf (with_raw raw r) resp (after_response z conf (with_raw raw r) resp)

abbrev send_after : Outside → Config → Exchange → RestyRequest × Option String → Hooked
send_after z conf x (r, none) = send z conf r x
send_after z conf x (r, some err) = on_error conf r (plain err)

-- The hooks of an exchange, in resty's order: before the request, after a response that was read,
-- and on an error.
abbrev pub run_exchange : Outside → Config → RestyRequest → Exchange → Hooked
run_exchange z conf r x = send_after z conf x (before_request z conf r)

counts-trace : (host : String) (t : TraceInfo) → counts (record_trace host t) ≡ []
unfolding record_trace
counts-trace host t = ground arith

counts-append : (cs ds : List Call) → counts (cs ++ ds) ≡ counts cs ++ counts ds
counts-append [] ds = refl
counts-append (c ∷ cs) ds = ground (arith, counts-append cs ds)

-- The hook of OnError counts nothing where there was a response.
finish-ran :
    (conf : Config) (r : RestyRequest) (resp : RestyResponse) (cs : List Call) (e : Option String)
    → ltb 0 resp.status_code ≡ true
    → counts_of (finish conf r resp (ran cs e)) ≡ counts cs
unfolding on_error
finish-ran conf r resp cs none h = refl
finish-ran conf r resp cs (some err) h = rw (h, append-nil cs) refl

finish-run_after :
    (z : Outside) (conf : Config) (k : Hook) (r : RestyRequest) (resp : RestyResponse)
    (cs : List Call)
    → ltb 0 resp.status_code ≡ true
    → counts_of (finish conf r resp (run_after z k r resp cs)) ≡ counts cs
finish-run_after z conf no_op r resp cs h = refl
finish-run_after z conf (hook n) r resp cs h =
    finish-ran conf r resp (cs ++ called n ∷ []) (z.after n r resp) h
    ∙ counts-append cs (called n ∷ [])
    ∙ append-nil (counts cs)

counts-send :
    (z : Outside) (conf : Config) (raw : RawRequest) (r : RestyRequest) (resp : RestyResponse)
    → ltb 0 resp.status_code ≡ true
    → counts_of (send z conf r (answered raw resp))
      ≡ record_request raw.method (templated_path r.ctx) raw.host resp.status_code resp.time ∷ []
unfolding after_response
counts-send z conf raw r resp h =
    finish-run_after z conf conf.on_after_response (with_raw raw r) resp _ h
    ∙ ap
        (λ cs.
          record_request raw.method (templated_path r.ctx) raw.host resp.status_code resp.time ∷ cs)
        (counts-trace raw.host resp.trace_info)

-- An exchange whose response was read is counted exactly once, and as a request: with the path that
-- was stored before the request, the path of its URL, or the URL if it does not parse, whatever the
-- hook after the response answers, and whether or not the exchange is traced. It takes that the
-- hook before the request returns no error and keeps that path, and a status above zero.
pub answered_counts_once :
    (z : Outside) (conf : Config) (r r' : RestyRequest) (raw : RawRequest) (resp : RestyResponse)
    → before_request z conf r ≡ (r', none)
    → templated_path r'.ctx ≡ path_or r.url (z.parse r.url)
    → ltb 0 resp.status_code ≡ true
    → counts_of (run_exchange z conf r (answered raw resp))
      ≡ record_request raw.method
          (path_or r.url (z.parse r.url))
          raw.host
          resp.status_code
          resp.time
        ∷ []
answered_counts_once z conf r r' raw resp b p h =
    ap (λ st. counts_of (send_after z conf (answered raw resp) st)) b
    ∙ counts-send z conf raw r' resp h
    ∙ rw p refl

-- The calls of an exchange, without the error of its hooks.
abbrev pub calls_of : Hooked → List Call
calls_of (ran cs e) = cs
calls_of (nil_pointer cs) = cs

abbrev pub hook_calls : Hook → List Call
hook_calls no_op = []
hook_calls (hook n) = called n ∷ []

calls-run_error : (k : Hook) (c : Call) → calls_of (run_error k (c ∷ [])) ≡ c ∷ hook_calls k
calls-run_error no_op c = refl
calls-run_error (hook n) c = refl

calls-if :
    (b : Bool) (h : Hooked) (cs : List Call)
    → calls_of h ≡ cs
    → calls_of (if b then ran [] none else h) ≡ (if b then [] else cs)
calls-if true h cs e = refl
calls-if false h cs e = e

-- An exchange that fails once the raw request is made: without a response its one count is a client
-- error of the host, and the application's error hook is called after it; with the status of a
-- response, as where its body cannot be read, it is not counted at all, and the error hook is not
-- called.
pub failed_counts :
    (z : Outside) (conf : Config) (r r' : RestyRequest) (raw : RawRequest) (resp : RestyResponse)
    (err : String)
    → before_request z conf r ≡ (r', none)
    → calls_of (run_exchange z conf r (failed raw resp err)) ≡ (
        if ltb 0 resp.status_code
        then []
        else record_client_error raw.host ∷ hook_calls conf.on_client_error)
unfolding on_error
failed_counts z conf r r' raw resp err b =
    ap (λ st. calls_of (send_after z conf (failed raw resp err) st)) b
    ∙ calls-if (ltb 0 resp.status_code) _ _
        (calls-run_error conf.on_client_error (record_client_error raw.host))

-- Where the hook before the request returns an error, on a request that resty has not made yet, the
-- hook of OnError runs into a nil pointer, and neither counts the error nor calls the application's
-- error hook.
pub before_error_nil_pointer :
    (z : Outside) (conf : Config) (r r' : RestyRequest) (x : Exchange) (err : String)
    → before_request z conf r ≡ (r', some err)
    → r'.raw_request ≡ none
    → run_exchange z conf r x ≡ nil_pointer []
unfolding on_error
before_error_nil_pointer z conf r r' x err b n = ap (send_after z conf x) b ∙ rw n refl
