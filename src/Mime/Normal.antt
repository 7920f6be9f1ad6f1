-- ===== src/Mime/Normal.antt =====
-- The normal form of a list of media types.
use yuna.Prelude.{
  String, Bool, false, not, ◌&&◌, ◌||◌, List, [], ◌∷◌, ◌++◌, ◌==◌, ◌≡◌, ◌≢◌, refl, ◌∙◌, sym, arith,
  any, any-append, eq_iff, Bool-cases, inl, inr,
}
use yuna.Text.{to_lower, trim_space}
use yuna.Text.Order.{Fresh, IsDistinct}
use yuna.Mime.{contains, normalize_one, normalize_loop, normalize_media_types}

-- The text as it is compared.
abbrev pub normal : String → String
normal t = to_lower (trim_space t)

-- `out` and `seen` hold the same types.
abbrev pub Agree : List String × List String → Type 0
Agree (out, seen) = (k : String) → contains k seen ≡ contains k out

pub normalize_one-Agree :
    (t : String) (st : List String × List String) → Agree st → Agree (normalize_one t st)
unfolding normalize_one
normalize_one-Agree t (out, seen) a k =
    ground (arith, a k, a (normal t), any-append (λ j. j == k) out (normal t ∷ []))

contains-normalize_one :
    (t k : String) (st : List String × List String)
    → Agree st
    → contains k (normalize_one t st).0 ≡ (contains k st.0 || (normal t == k && not (k == "")))
unfolding normalize_one
contains-normalize_one t k (out, seen) a = ground (
  arith,
  a k,
  a (normal t),
  any-append (λ j. j == k) out (normal t ∷ []),
  eq_iff (normal t) k,
  eq_iff k "",
  eq_iff (normal t) "",
)

IsDistinct-snoc :
    (ks : List String) (k : String)
    → contains k ks ≡ false
    → IsDistinct ks
    → IsDistinct (ks ++ k ∷ [])
IsDistinct-snoc [] k n d = (tt, tt)
IsDistinct-snoc (j ∷ ks) k n d = (
  Fresh-snoc ks k j d.0 (λ e. ground (arith, e, n, eq_iff j k)),
  IsDistinct-snoc ks k (ground arith) d.1,
)
  where
    Fresh-snoc : (ks : List String) (k j : String) → Fresh j ks → k ≢ j → Fresh j (ks ++ k ∷ [])
    Fresh-snoc [] k j f n = (n, tt)
    Fresh-snoc (i ∷ ks) k j f n = (f.0, Fresh-snoc ks k j f.1 n)

normalize_one-IsDistinct :
    (t : String) (st : List String × List String)
    → Agree st
    → IsDistinct st.0
    → IsDistinct (normalize_one t st).0
unfolding normalize_one
normalize_one-IsDistinct t (out, seen) a d = elim (Bool-cases (normal t == "")) [
  | inl e ↦ rw e d
  | inr e ↦ rw e elim (Bool-cases (contains (normal t) seen)) [
    | inl c ↦ rw c d
    | inr c ↦ rw c (IsDistinct-snoc out (normal t) (sym (a (normal t)) ∙ c) d)
  ]
]

-- The two facts on `out` and `seen` over the loop.
normalize_loop-IsDistinct :
    (ts : List String) (st : List String × List String)
    → Agree st
    → IsDistinct st.0
    → IsDistinct (normalize_loop ts st).0
unfolding normalize_loop
normalize_loop-IsDistinct [] st a d = d
normalize_loop-IsDistinct (t ∷ ts) st a d =
    normalize_loop-IsDistinct ts (normalize_one t st) (normalize_one-Agree t st a)
      (normalize_one-IsDistinct t st a d)

-- Some type of the list has the normal form `k`.
abbrev pub names : String → List String → Bool
names k ts = any (λ t. normal t == k) ts

contains-normalize_loop :
    (k : String) (ts : List String) (st : List String × List String)
    → Agree st
    → contains k (normalize_loop ts st).0 ≡ (contains k st.0 || (names k ts && not (k == "")))
unfolding normalize_loop
contains-normalize_loop k [] st a = ground arith
contains-normalize_loop k (t ∷ ts) st a = ground (
  arith,
  contains-normalize_loop k ts (normalize_one t st) (normalize_one-Agree t st a),
  contains-normalize_one t k st a,
)

-- The normal form of a list of media types has no type twice, and holds a text exactly when it is
-- not empty and is some type of the list in lower case and without the space around it.
pub normalize_media_types_lem :
    (types : List String)
    → IsDistinct (normalize_media_types types)
      × ((k : String) → contains k (normalize_media_types types) ≡ (names k types && not (k == "")))
unfolding normalize_media_types
normalize_media_types_lem types = (
  normalize_loop-IsDistinct types ([], []) (λ k. refl) tt,
  λ k. contains-normalize_loop k types ([], []) (λ k. refl),
)
