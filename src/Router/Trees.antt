-- ===== src/Router/Trees.antt =====
-- The trees of routes that chi's routers keep, as the program can see them.
use Prim.Native.String
use yuna.Prelude.{
  ℕ, suc, String, Bool, true, false, not, List, [], ◌∷◌, ◌++◌, ◌==◌, ◌&&◌, ◌≡◌, refl, sym, ap, ◌∙◌,
  arith, any, eqb, if◌then◌else◌,
}
use mathlib.Core.List.{append_assoc, append-nil}
use yuna.Text.{has_prefix, has_suffix, before}
use yuna.World.{Handler}

-- A route: its method, its pattern, and what serves it.
abbrev pub Entry : Type 0
Entry = String × String × Handler

-- What is mounted: a handler, or the router of this tree.
pub data Mounted : Type 0 where
  serves : Handler → Mounted
  routed : ℕ → Mounted

abbrev pub Mount : Type 0
Mount = String × Mounted

-- A tree of a router and its inline routers, and whether the router still takes middlewares.
pub record View : Type 0 where
  pub routes : List Entry
  pub mounts : List Mount
  pub is_open : Bool

-- All trees, by the order in which their routers were made, and whether some call has panicked.
pub record Trees : Type 0 where
  pub made : ℕ
  pub panicked : Bool
  pub view : ℕ → View

abbrev pub empty_view : View
empty_view = record { routes = []; mounts = []; is_open = true }

unfoldable pub change : ℕ → (View → View) → Trees → Trees
change n f t = record t { view = λ k. if eqb k n then f (t.view k) else t.view k }

unfoldable pub fresh : Trees → Trees
fresh t = record t { made = suc t.made; view = λ k. if eqb k t.made then empty_view else t.view k }

abbrev pub shut : View → View
shut v = record v { is_open = false }

abbrev pub add_entry : Entry → View → View
add_entry e v = record v { routes = v.routes ++ e ∷ []; is_open = false }

abbrev pub put_mount : Mount → View → View
put_mount m v = record v { mounts = v.mounts ++ m ∷ []; is_open = false }

abbrev pub close : ℕ → Trees → Trees
close n = change n shut

abbrev pub add_route : ℕ → Entry → Trees → Trees
add_route n e = change n (add_entry e)

abbrev pub add_mount : ℕ → Mount → Trees → Trees
add_mount n m = change n (put_mount m)

abbrev pub add_routes : ℕ → List Entry → Trees → Trees
add_routes n [] t = t
add_routes n (e ∷ es) t = add_routes n es (add_route n e t)

abbrev pub add_mounts : ℕ → List Mount → Trees → Trees
add_mounts n [] t = t
add_mounts n (m ∷ ms) t = add_mounts n ms (add_mount n m t)

abbrev pub is_method : String → Bool
is_method name =
    any (λ m. m == name)
      ("GET" ∷ "POST" ∷ "PUT" ∷ "DELETE" ∷ "PATCH" ∷ "OPTIONS" ∷ "HEAD" ∷ "CONNECT" ∷ "TRACE" ∷ [])

-- A pattern that starts with a slash and has neither parameters nor a wildcard.
unfoldable pub is_plain : String → Bool
unfolding has_prefix before
is_plain p = has_prefix p "/" && before b'{' p == p && before b'}' p == p && before b'*' p == p

-- The pattern with a slash at its end.
unfoldable pub slashed : String → String
unfolding has_suffix
slashed p = if has_suffix p "/" then p else String.◌++◌ p "/"

-- A method, and a plain pattern, that no route of the tree has and no mount takes.
unfoldable pub takes_route : String → String → List Entry → List Mount → Bool
unfolding is_plain slashed
takes_route name pattern rs ms =
    is_method name
    && is_plain pattern
    && not (any (λ e. e.0 == name && e.1 == pattern) rs)
    && not (any (λ m. slashed m.0 == slashed pattern) ms)

-- A plain pattern that neither a route nor a mount of the tree has, up to a slash at the end.
unfoldable pub takes_mount : String → List Entry → List Mount → Bool
unfolding is_plain slashed
takes_mount pattern rs ms =
    is_plain pattern
    && not (any (λ e. slashed e.1 == slashed pattern) rs)
    && not (any (λ m. slashed m.0 == slashed pattern) ms)

-- The tree takes these one after the other.
unfoldable pub takes_routes : List Entry → List Entry → List Mount → Bool
unfolding takes_route
takes_routes [] rs ms = true
takes_routes (e ∷ es) rs ms = takes_route e.0 e.1 rs ms && takes_routes es (rs ++ e ∷ []) ms

unfoldable pub takes_mounts : List Mount → List Entry → List Mount → Bool
unfolding takes_mount
takes_mounts [] rs ms = true
takes_mounts (m ∷ new) rs ms = takes_mount m.0 rs ms && takes_mounts new rs (ms ++ m ∷ [])

pub takes_mounts-append :
    (xs ys : List Mount) (rs : List Entry) (ms : List Mount)
    → takes_mounts (xs ++ ys) rs ms ≡ (takes_mounts xs rs ms && takes_mounts ys rs (ms ++ xs))
unfolding takes_mounts
takes_mounts-append [] ys rs ms = ap (takes_mounts ys rs) (sym (append-nil ms))
takes_mounts-append (x ∷ xs) ys rs ms =
    rw (takes_mounts-append xs ys rs (ms ++ x ∷ []), append_assoc ms (x ∷ []) xs) (ground arith)

pub view-change : (n : ℕ) (f : View → View) (t : Trees) → (change n f t).view n ≡ f (t.view n)
unfolding change
view-change n f t = ground arith

pub view-change_other :
    (n k : ℕ) (f : View → View) (t : Trees) → eqb k n ≡ false → (change n f t).view k ≡ t.view k
unfolding change
view-change_other n k f t e = rw e refl

pub view-fresh : (t : Trees) → (fresh t).view t.made ≡ empty_view
unfolding fresh
view-fresh t = ground arith

pub view-fresh_other : (t : Trees) (k : ℕ) → eqb k t.made ≡ false → (fresh t).view k ≡ t.view k
unfolding fresh
view-fresh_other t k e = rw e refl

pub and_left : (a b : Bool) → (a && b) ≡ true → a ≡ true
and_left a b h = ground (arith, h)

pub and_right : (a b : Bool) → (a && b) ≡ true → b ≡ true
and_right a b h = ground (arith, h)

-- What routes add to a tree.
pub routes-add_routes :
    (n : ℕ) (es : List Entry) (t : Trees)
    → ((add_routes n es t).view n).routes ≡ (t.view n).routes ++ es
routes-add_routes n [] t = sym (append-nil (t.view n).routes)
routes-add_routes n (e ∷ es) t =
    routes-add_routes n es (add_route n e t)
    ∙ ap (λ v. v.routes ++ es) (view-change n _ t)
    ∙ append_assoc (t.view n).routes (e ∷ []) es

pub mounts-add_routes :
    (n : ℕ) (es : List Entry) (t : Trees) → ((add_routes n es t).view n).mounts ≡ (t.view n).mounts
mounts-add_routes n [] t = refl
mounts-add_routes n (e ∷ es) t =
    mounts-add_routes n es (add_route n e t) ∙ ap (λ v. v.mounts) (view-change n _ t)

pub view-add_routes_other :
    (n k : ℕ) (es : List Entry) (t : Trees)
    → eqb k n ≡ false
    → (add_routes n es t).view k ≡ t.view k
view-add_routes_other n k [] t d = refl
view-add_routes_other n k (e ∷ es) t d =
    view-add_routes_other n k es (add_route n e t) d ∙ view-change_other n k _ t d

pub made-add_routes :
    (n : ℕ) (es : List Entry) (t : Trees)
    → ((add_routes n es t).made ≡ t.made) × ((add_routes n es t).panicked ≡ t.panicked)
unfolding change
made-add_routes n [] t = (refl, refl)
made-add_routes n (e ∷ es) t = made-add_routes n es (add_route n e t)

pub routes-add_mounts :
    (n : ℕ) (ms : List Mount) (t : Trees) → ((add_mounts n ms t).view n).routes ≡ (t.view n).routes
routes-add_mounts n [] t = refl
routes-add_mounts n (m ∷ ms) t =
    routes-add_mounts n ms (add_mount n m t) ∙ ap (λ v. v.routes) (view-change n _ t)

pub mounts-add_mounts :
    (n : ℕ) (ms : List Mount) (t : Trees)
    → ((add_mounts n ms t).view n).mounts ≡ (t.view n).mounts ++ ms
mounts-add_mounts n [] t = sym (append-nil (t.view n).mounts)
mounts-add_mounts n (m ∷ ms) t =
    mounts-add_mounts n ms (add_mount n m t)
    ∙ ap (λ v. v.mounts ++ ms) (view-change n _ t)
    ∙ append_assoc (t.view n).mounts (m ∷ []) ms

pub view-add_mounts_other :
    (n k : ℕ) (ms : List Mount) (t : Trees)
    → eqb k n ≡ false
    → (add_mounts n ms t).view k ≡ t.view k
view-add_mounts_other n k [] t d = refl
view-add_mounts_other n k (m ∷ ms) t d =
    view-add_mounts_other n k ms (add_mount n m t) d ∙ view-change_other n k _ t d

pub made-add_mounts :
    (n : ℕ) (ms : List Mount) (t : Trees)
    → ((add_mounts n ms t).made ≡ t.made) × ((add_mounts n ms t).panicked ≡ t.panicked)
unfolding change
made-add_mounts n [] t = (refl, refl)
made-add_mounts n (m ∷ ms) t = made-add_mounts n ms (add_mount n m t)
