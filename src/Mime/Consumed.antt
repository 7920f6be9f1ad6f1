-- ===== src/Mime/Consumed.antt =====
-- Which requests a route takes.
use yuna.Prelude.{
  String, Bool, true, false, not, ◌&&◌, ◌||◌, Option, none, some, List, [], ◌∷◌, ◌==◌, ◌≡◌, refl,
  ◌∙◌, ap, sym, arith, any, any-append, eq_iff, Bool-cases, inl, inr, if◌then◌else◌,
}
use Prim.Native.String
use yuna.Text.{to_lower, has_suffix, has_prefix, before}
use yuna.Http.Header
use yuna.Http.Conn.{is_informational}
use yuna.World.{Any, Request, World, Outcome, Handler}
use yuna.World.Sent.{IsUnsent}
use yuna.Problem.Responses.{unsupported_media_type}
use yuna.App.Crash.{HasSent, serve-HasSent}
use yuna.Mime.{
  contains, normalize_one, normalize_loop, normalize_media_types, accepts, matches_loop,
  matches_any, has_no_body, consumes, check_type, unsupported,
}
use yuna.Mime.Normal.{normal, Agree, normalize_one-Agree}

-- A type of the list takes a media type: it is the same, or it is a wildcard, which ends in "/*", and
-- the media type starts with what the wildcard has before its first slash, and a slash.
abbrev pub takes : String → String → Bool
takes mt a = mt == a || (has_suffix a "/*" && has_prefix mt (String.◌++◌ (before b'/' a) "/"))

accepts-takes : (mt a : String) → accepts mt a ≡ takes mt a
unfolding accepts
accepts-takes mt a = refl

any_of_contains :
    (p : String → Bool) (k : String) (ks : List String)
    → contains k ks ≡ true
    → p k ≡ true
    → any p ks ≡ true
any_of_contains p k [] c h = c
any_of_contains p k (j ∷ ks) c h = elim (Bool-cases (j == k)) [
  | inl e ↦ ap (λ b. b || any p ks) (ap p ((eq_iff j k).0 e) ∙ h)
  | inr e ↦ ground (arith, any_of_contains p k ks (ground arith) h)
]

-- The normal form drops no type that is not empty: a test holds of some type of it exactly when
-- it holds of the normal form of some type of the list.
abbrev pub any_normal : (String → Bool) → List String → Bool
any_normal p ts = any (λ t. not (normal t == "") && p (normal t)) ts

any-normalize_one :
    (p : String → Bool) (t : String) (st : List String × List String)
    → Agree st
    → any p (normalize_one t st).0 ≡ (any p st.0 || (not (normal t == "") && p (normal t)))
unfolding normalize_one
any-normalize_one p t (out, seen) a = elim (Bool-cases (normal t == "")) [
  | inl e ↦ rw e ground arith
  | inr e ↦ rw e elim (Bool-cases (contains (normal t) seen)) [
    | inl c ↦ rw c ground (arith, any_of_contains p (normal t) out (sym (a (normal t)) ∙ c))
    | inr c ↦ rw c ground (arith, any-append p out (normal t ∷ []))
  ]
]

any-normalize_loop :
    (p : String → Bool) (ts : List String) (st : List String × List String)
    → Agree st
    → any p (normalize_loop ts st).0 ≡ (any p st.0 || any_normal p ts)
unfolding normalize_loop
any-normalize_loop p [] st a = ground arith
any-normalize_loop p (t ∷ ts) st a = ground (
  arith,
  any-normalize_loop p ts (normalize_one t st) (normalize_one-Agree t st a),
  any-normalize_one p t st a,
)

matches_loop-any : (mt : String) (ks : List String) → matches_loop mt ks ≡ any (takes mt) ks
unfolding matches_loop
matches_loop-any mt [] = refl
matches_loop-any mt (k ∷ ks) = rw (accepts-takes mt k, matches_loop-any mt ks) refl

matches_any-normalize_media_types :
    (mt : String) (types : List String)
    → matches_any mt (normalize_media_types types) ≡ any_normal (takes (to_lower mt)) types
unfolding matches_any normalize_media_types
matches_any-normalize_media_types mt types =
    matches_loop-any (to_lower mt) _
    ∙ any-normalize_loop (takes (to_lower mt)) types ([], []) (λ k. refl)

-- A media type that the types admit: found, not empty, and taken by some type of the list.
abbrev pub admits : List String → Option String → Bool
admits types none = false
admits types (some mt) = not (mt == "") && any_normal (takes (to_lower mt)) types

check_type-admits :
    (marshal : Any → Option String) (parse : String → Option String) (types : List String)
    (next : Handler) (r : Request) (w : World) (o : Option String)
    → check_type marshal parse (normalize_media_types types) next r w o
      ≡ (if admits types o then next r w else unsupported marshal parse r w)
check_type-admits marshal parse types next r w none = refl
check_type-admits marshal parse types next r w (some mt) =
    rw (matches_any-normalize_media_types mt types)
      (elim (Bool-cases (mt == "")) [ inl e ↦ rw e refl | inr e ↦ rw e refl ])

pub unsupported-HasSent :
    (marshal : Any → Option String) (parse : String → Option String) (r : Request) (w : World)
    → IsUnsent w.writer
    → HasSent 415 (unsupported marshal parse r w)
unfolding unsupported_media_type is_informational
unsupported-HasSent marshal parse r w u =
    serve-HasSent marshal unsupported_media_type r w 415 u refl refl

-- What Consumes comes to, before anything is sent.
abbrev pub Decided : Bool → Handler → Request → World → Outcome → Type 0
Decided true next r w o = o ≡ next r w
Decided false next r w o = HasSent 415 o

pub consumes-decided :
    (marshal : Any → Option String) (parse : String → Option String) (a : String)
    (allowed : List String) (next : Handler) (r : Request) (w : World)
    → consumes marshal parse (a ∷ allowed) next r w ≡ (
        if has_no_body r.method
          || admits (a ∷ allowed) (parse (Header.get "Content-Type" w.request_header))
        then next r w
        else unsupported marshal parse r w)
unfolding consumes
consumes-decided marshal parse a allowed next r w = elim (Bool-cases (has_no_body r.method)) [
  | inl e ↦ rw e refl
  | inr e ↦ rw e (
      check_type-admits marshal parse (a ∷ allowed) next r w
        (parse (Header.get "Content-Type" w.request_header)))
]

Decided-if :
    (b : Bool) (next : Handler) (r : Request) (w : World) (o : Outcome)
    → HasSent 415 o
    → Decided b next r w (if b then next r w else o)
Decided-if true next r w o h = refl
Decided-if false next r w o h = h

-- Where nothing has been sent, a route with a list of types that is not empty runs its handler exactly when the request has a
-- method without a body, or its Content-Type parses to a media type that is not empty and that, in
-- lower case, some type of the list takes once it is in lower case and without the space around it,
-- and is not empty; otherwise the client is sent the status 415.
pub consumes_decides :
    (marshal : Any → Option String) (parse : String → Option String) (a : String)
    (allowed : List String) (next : Handler) (r : Request) (w : World)
    → IsUnsent w.writer
    → Decided
        (has_no_body r.method
          || admits (a ∷ allowed) (parse (Header.get "Content-Type" w.request_header)))
        next
        r
        w
        (consumes marshal parse (a ∷ allowed) next r w)
consumes_decides marshal parse a allowed next r w u =
    rw (consumes-decided marshal parse a allowed next r w)
      (Decided-if _ next r w _ (unsupported-HasSent marshal parse r w u))
