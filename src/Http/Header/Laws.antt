-- ===== src/Http/Header/Laws.antt =====
-- Reading a header back after a write.
use yuna.Prelude.{
  String, false, eq_refl, [], ◌∷◌, ◌++◌, ◌≡◌, refl, ◌==◌, arith, if◌then◌else◌, lookup,
  lookup-insert,
}
use yuna.Http.Header.{Header, canonical, values, values_of, get, set, add}

request_id_key : canonical "X-Request-ID" ≡ "X-Request-Id"
unfolding canonical
request_id_key = refl

space_in_key : canonical "a b" ≡ "a b"
unfolding canonical
space_in_key = refl

pub values_of-set :
    (k j v : String) (h : Header)
    → values_of j (set k v h) ≡ (if canonical k == canonical j then v ∷ [] else values_of j h)
unfolding values_of set
values_of-set k j v h = ground (arith, lookup-insert (canonical k) (canonical j) (v ∷ []) h)

pub get-set :
    (k j v : String) (h : Header)
    → get j (set k v h) ≡ (if canonical k == canonical j then v else get j h)
unfolding get set
get-set k j v h = ground (arith, lookup-insert (canonical k) (canonical j) (v ∷ []) h)

pub values_of-add :
    (k j v : String) (h : Header)
    → values_of j (add k v h)
      ≡ (if canonical k == canonical j then values_of k h ++ v ∷ [] else values_of j h)
unfolding values_of add
values_of-add k j v h =
    ground (
      arith,
      lookup-insert (canonical k) (canonical j) (values (lookup (canonical k) h) ++ v ∷ []) h,
    )

pub values_of-set_same : (k v : String) (h : Header) → values_of k (set k v h) ≡ v ∷ []
values_of-set_same k v h = rw (values_of-set k k v h, eq_refl (canonical k)) refl

pub values_of-set_ne :
    (k j v : String) (h : Header)
    → (canonical k == canonical j) ≡ false
    → values_of j (set k v h) ≡ values_of j h
values_of-set_ne k j v h n = rw (values_of-set k j v h, n) refl
