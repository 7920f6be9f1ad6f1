-- ===== src/Middleware/RequestLog/Raced/Kept.antt =====
-- What every interleaving of requests keeps of the logger that a request is given.
use yuna.Prelude.{
  ℕ, Option, none, some, List, [], ◌∷◌, ◌++◌, ◌≡◌, ◌⊎◌, inl, inr, refl, sym, ap, ◌∙◌, All,
  All-append, eqb, Bool-cases,
}
use mathlib.Core.List.{append-nil, append_assoc}
use mathlib.Core.Path.{subst}
use yuna.Log.Level.{Attr}
use yuna.Log.Logger.{Logger, with_attrs}
use yuna.Middleware.RequestLog.Raced.{
  Serving, Access, reads, writes, hands_over, Shared, set_at, Raced, begin, next,
}

-- The attribute is one of the list.
abbrev pub Among : List Attr → Attr → Type 0
Among [] a = ⊥
Among (b ∷ bs) a = (b ≡ a) ⊎ Among bs a

module _ (attrs : ℕ → List Attr) (l : Logger) where
  -- The attribute is one that some request adds.
  abbrev pub IsAdded : Attr → Type 0
  IsAdded a = (i : ℕ) × Among (attrs i) a

  All-IsAdded :
      (i : ℕ) (xs : List Attr) → ((a : Attr) → Among xs a → Among (attrs i) a) → All IsAdded xs
  All-IsAdded i [] h = tt
  All-IsAdded i (x ∷ xs) h = ((i, h x (inl refl)), All-IsAdded i xs (λ a m. h a (inr m)))

  -- The logger that the middleware was made with, and then attributes that requests add.
  abbrev pub IsGrown : Logger → Type 0
  IsGrown g = (extra : List Attr) × (g ≡ with_attrs extra l) × All IsAdded extra

  abbrev IfGrown : Option Logger → Type 0
  IfGrown none = Unit
  IfGrown (some g) = IsGrown g

  record Kept (v : Serving) : Type 0 where
    todo : All IsAdded v.todo
    made : IfGrown v.made
    given : IfGrown v.given

  IsGrown-with_attrs :
      (a : Attr) (g : Logger) → IsGrown g → IsAdded a → IsGrown (with_attrs (a ∷ []) g)
  unfolding with_attrs
  IsGrown-with_attrs a g (extra, e, h) k = (
    extra ++ a ∷ [],
    ap (with_attrs (a ∷ [])) e
        ∙ ap (λ xs. record l { attrs = xs }) (append_assoc l.attrs extra (a ∷ [])),
    All-append IsAdded extra (a ∷ []) h (k, tt),
  )

  Access-Kept :
      {g m : Logger} {u v : Serving} → Access g u m v → IsGrown g → Kept u → IsGrown m × Kept v
  Access-Kept (reads {l = g} {a = a}) i k =
      (i, record { todo = k.todo.1; made = IsGrown-with_attrs a g i k.todo.0; given = tt })
  Access-Kept writes i k = (k.made, record { todo = k.todo; made = tt; given = tt })
  Access-Kept hands_over i k = (i, record { todo = tt; made = tt; given = i })

  set_at-Kept :
      (i j : ℕ) (v : Serving) (f : ℕ → Serving)
      → Kept v
      → ((j : ℕ) → Kept (f j))
      → Kept (set_at i v f j)
  set_at-Kept i j v f k h = elim (Bool-cases (eqb i j)) [ inl e ↦ rw e k | inr e ↦ rw e (h j) ]

  Raced-Kept : (s : Shared) → Raced attrs l s → IsGrown s.logger × ((j : ℕ) → Kept (s.requests j))
  unfolding with_attrs
  Raced-Kept s begin = (
    ([], ap (λ xs. record l { attrs = xs }) (sym (append-nil l.attrs)), tt),
    λ j. record { todo = All-IsAdded j (attrs j) (λ a m. m); made = tt; given = tt },
  )
  Raced-Kept s (next {s = s'} {v = v} r i a) =
      let (g, k) = Raced-Kept s' r in
      let (m, kv) = Access-Kept a g (k i) in (m, λ j. set_at-Kept i j v s'.requests kv k)

  -- However the requests interleave, the logger that a request's handler is given has the level, the
  -- settings and the groups of the logger that the middleware was made with, and its attributes,
  -- followed by attributes that requests add and by nothing else.
  pub Raced-IsGrown :
      (s : Shared) (i : ℕ) (g : Logger)
      → Raced attrs l s
      → (s.requests i).given ≡ some g
      → IsGrown g
  Raced-IsGrown s i g r e = subst IfGrown e ((Raced-Kept s r).1 i).given
