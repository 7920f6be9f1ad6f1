-- ===== src/Router/Lists.antt =====
-- chi as the trees themselves: what the tests run, and a value that does what chi documents.
use yuna.Prelude.{ℕ, String, Bool, true, false, List, [], ◌++◌, ◌≡◌, refl, arith}
use yuna.World.{Handler, Middleware, returned}
use yuna.Handler.Nesting.{nest}
use yuna.Router.{Chi}
use yuna.Router.Trees.{Trees, fresh, close, add_route, add_mount, serves, routed, empty_view}
use yuna.Router.Table.{Documented}

-- A pointer to a router: the tree of one of its own, or an inline one with its middlewares.
pub data Pointer : Type 0 where
  root : ℕ → Pointer
  inlined : ℕ → List Middleware → Pointer

abbrev tree_of : Pointer → ℕ
tree_of (root n) = n
tree_of (inlined n ms) = n

abbrev middlewares : Pointer → List Middleware
middlewares (root n) = []
middlewares (inlined n ms) = ms

abbrev is_inlined : Pointer → Bool
is_inlined (root n) = false
is_inlined (inlined n ms) = true

abbrev add : String → Pointer → String → Handler → Trees → Trees
add name h pattern f = add_route (tree_of h) (name, pattern, nest (middlewares h) f)

abbrev nothing : Handler
nothing r w = returned w

abbrev with_inline : Pointer → List Middleware → Trees → Pointer × Trees
with_inline h ms t = (inlined (tree_of h) (middlewares h ++ ms), close (tree_of h) t)

abbrev pub tree_chi : Chi Trees Pointer
tree_chi = record {
  new_router = λ t. (root t.made, fresh t);
  serve = λ h t. nothing;
  use_all = λ h ms t. t;
  with_all = with_inline;
  get = add "GET";
  post = add "POST";
  put = add "PUT";
  delete = add "DELETE";
  patch = add "PATCH";
  options = add "OPTIONS";
  head = add "HEAD";
  connect = add "CONNECT";
  trace = add "TRACE";
  method = λ h name. add name h;
  mount = λ h pattern f. add_mount (tree_of h) (pattern, serves f);
  route =
      λ h pattern f t. add_mount (tree_of h) (pattern, routed t.made) (f (root t.made) (fresh t));
  group = λ h f t. let (k, t) = with_inline h [] t in f k t;
  not_found = λ h f t. t;
  method_not_allowed = λ h f t. t;
}

abbrev pub no_routes : Trees
no_routes = record { made = 0; panicked = false; view = λ n. empty_view }

pub middlewares-root : (h : Pointer) → is_inlined h ≡ false → middlewares h ≡ []
middlewares-root (root n) e = refl
middlewares-root (inlined n ms) e = ground (arith, e)

abbrev pub documented : Documented tree_chi
documented = record {
  look = λ t. t;
  tree = tree_of;
  is_inline = is_inlined;
  inline = λ h t. middlewares h;
  tree-new = λ t. refl;
  look-new = λ t. refl;
  is_inline-new = λ t. refl;
  inline-root = λ h t. middlewares-root h;
  get-method = λ h pattern f t. refl;
  post-method = λ h pattern f t. refl;
  put-method = λ h pattern f t. refl;
  delete-method = λ h pattern f t. refl;
  patch-method = λ h pattern f t. refl;
  options-method = λ h pattern f t. refl;
  head-method = λ h pattern f t. refl;
  connect-method = λ h pattern f t. refl;
  trace-method = λ h pattern f t. refl;
  look-method = λ h name pattern f t taken. refl;
  inline-method = λ k h name pattern f t. refl;
  tree-with = λ h ms t. refl;
  look-with = λ h ms t. refl;
  inline-with = λ h ms t. refl;
  inline-with_kept = λ h ms t. refl;
  look-mount = λ h pattern f t taken. refl;
  look-route = λ h pattern f t taken. refl;
  look-use_all = λ h ms t r o. refl;
  look-not_found = λ h f t. refl;
  look-method_not_allowed = λ h f t. refl;
}
