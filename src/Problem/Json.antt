-- ===== src/Problem/Json.antt =====
-- `MarshalJSON` writes the object of the members.
use Prim.Native.String
use package.text.Mathlib.TextLemmas.{append_assoc, nil-append}
use yuna.Prelude.{
  String, Bool, true, false, Option, some, List, [], ◌∷◌, map, ◌≡◌, ◌∙◌, refl, Option-cases,
  Bool-cases, inl, inr,
}
use yuna.World.{Any, text}
use yuna.Problem.{
  ProblemDetails, is_reserved, ◌>>=◌, >>=-assoc, write_kv, write_extensions, marshal_json,
}
use yuna.Problem.Members.{Member, unreserved, pick, members, commas, texts, render}

module _ (marshal : Any → Option String) where
  -- The rest of the buffer, once the members before are written.
  finish : List Member → String × Bool → Option String
  finish [] st = some (String.◌++◌ st.0 "}")
  finish (m ∷ ms) st = write_kv marshal m.0 m.1 st >>= finish ms

  write_extensions-finish :
      (ext : List (String × Any)) (ks : List String) (st : String × Bool)
      → (write_extensions marshal ext ks st >>= λ st. some (String.◌++◌ st.0 "}"))
        ≡ finish (map (pick ext) (unreserved ks)) st
  unfolding write_extensions finish unreserved
  write_extensions-finish ext [] st = refl
  write_extensions-finish ext (k ∷ ks) st = elim (Bool-cases (is_reserved k)) [
    | inl e ↦ rw (e, write_extensions, unreserved) (write_extensions-finish ext ks st)
    | inr e ↦
        rw (e, write_extensions, unreserved) (simp (>>=-assoc, write_extensions-finish ext ks) refl)
  ]

  finish_later :
      (ms : List Member) (buf : String)
      → finish ms (buf, false)
        ≡ (texts marshal ms >>= λ ts. some (String.◌++◌ buf (String.◌++◌ (commas ts) "}")))
  unfolding finish texts commas write_kv
  finish_later [] buf = rw nil-append
  finish_later ((k, v) ∷ ms) buf = elim (Option-cases (marshal (text k))) [
    | inl e ↦ rw e refl
    | inr (kb, e) ↦ elim (Option-cases (marshal v)) [
      | inl e' ↦ rw (e, e') refl
      | inr (vb, e') ↦ rw (e, e') (simp (finish_later ms, >>=-assoc, append_assoc) refl)
    ]
  ]

  marshal_json-finish :
      (p : ProblemDetails) → marshal_json marshal p ≡ finish (members p) ("{", true)
  unfolding marshal_json finish members
  marshal_json-finish p = simp (write_extensions-finish)

  finish_first :
      (m : Member) (ms : List Member) → finish (m ∷ ms) ("{", true) ≡ render marshal (m ∷ ms)
  unfolding finish render commas write_kv
  finish_first (k, v) ms = elim (Option-cases (marshal (text k))) [
    | inl e ↦ rw e refl
    | inr (kb, e) ↦ elim (Option-cases (marshal v)) [
      | inl e' ↦ rw (e, e') refl
      | inr (vb, e') ↦ rw (e, e') (simp (finish_later ms, >>=-assoc, append_assoc) refl)
    ]
  ]

  -- `MarshalJSON` returns the JSON object of the members of the problem: "type", "title", "detail",
  -- "instance" and "status", and then each extension whose key is not reserved, by sorted keys; it
  -- fails exactly when one of them does not marshal.
  pub marshal_json-render :
      (p : ProblemDetails) → marshal_json marshal p ≡ render marshal (members p)
  unfolding members
  marshal_json-render p = marshal_json-finish p ∙ finish_first _ _
