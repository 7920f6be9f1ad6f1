-- ===== src/Log/Attr.antt =====
-- log/attr.go: attributes, and chains of attribute rewriters.
use yuna.Prelude.{String, Option, none, some, List, [], ◌∷◌, ◌++◌, ◌≡◌, refl, arith}
use yuna.Log.Level.{Level, Attr, text, level_attr_formatter}

-- Error, for an error with this text, and Stack, where debug.Stack returns `stack`.
unfoldable pub error : String → Attr
error err = record { key = "err"; value = text err }

unfoldable pub stack_attr : String → Attr
stack_attr stack = record { key = "stacktrace"; value = text stack }

-- A rewriter with its groups given; a nil function is `none`.
abbrev pub ReplaceAttr : Type 0
ReplaceAttr = Attr → Attr

unfoldable pub chain_replace_attr : List (Option ReplaceAttr) → ReplaceAttr
chain_replace_attr [] a = a
chain_replace_attr (none ∷ fns) a = chain_replace_attr fns a
chain_replace_attr (some fn ∷ fns) a = chain_replace_attr fns (fn a)

-- Chaining two lists of rewriters, nil ones among them, is applying the first chain and then the
-- second.
pub chain_replace_attr-append :
    (fns gns : List (Option ReplaceAttr)) (a : Attr)
    → chain_replace_attr (fns ++ gns) a ≡ chain_replace_attr gns (chain_replace_attr fns a)
unfolding chain_replace_attr
chain_replace_attr-append [] gns a = refl
chain_replace_attr-append (none ∷ fns) gns a = chain_replace_attr-append fns gns a
chain_replace_attr-append (some fn ∷ fns) gns a = chain_replace_attr-append fns gns (fn a)

-- A logger made with no options formats an attribute by the level formatter twice, which is the
-- same as once.
pub level_attr_formatter_twice :
    (name : Level → String) (a : Attr)
    → chain_replace_attr
        (some (level_attr_formatter name) ∷ some (level_attr_formatter name) ∷ [])
        a
      ≡ level_attr_formatter name a
unfolding chain_replace_attr level_attr_formatter
level_attr_formatter_twice name a = ground arith
