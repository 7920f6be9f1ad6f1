-- ===== src/Text/Order.antt =====
-- The order of texts is total and transitive, and `sort` sorts without adding or losing a key.
pub mod Unique
use yuna.Prelude.{
  ◌≡◌, refl, sym, arith, String, Bool, true, false, inl, inr, List, [], ◌∷◌, All, Bool-cases, any,
  ◌||◌, ◌≢◌, ◌==◌,
}
use yuna.Text.{str_leb, insert_sorted, sort}

pub str_leb_total : (s t : String) → str_leb s t ≡ false → str_leb t s ≡ true
unfolding str_leb
str_leb_total String.[] t h = cc
str_leb_total (String.◌∷◌ c s) String.[] h = refl
str_leb_total (String.◌∷◌ c s) (String.◌∷◌ d t) h = ground (arith, str_leb_total s t)

pub str_leb_trans : (s t u : String) → str_leb s t ≡ true → str_leb t u ≡ true → str_leb s u ≡ true
unfolding str_leb
str_leb_trans String.[] t u h k = refl
str_leb_trans (String.◌∷◌ c s) String.[] u h k = cc
str_leb_trans (String.◌∷◌ c s) (String.◌∷◌ d t) String.[] h k = cc
str_leb_trans (String.◌∷◌ c s) (String.◌∷◌ d t) (String.◌∷◌ e u) h k =
    ground (arith, str_leb_trans s t u)

-- `k` comes before every key of the list.
abbrev pub IsBelow : String → List String → Type 0
IsBelow k js = All (λ j. str_leb k j ≡ true) js

abbrev pub IsSorted : List String → Type 0
IsSorted [] = Unit
IsSorted (k ∷ ks) = IsBelow k ks × IsSorted ks

IsBelow-trans : (i k : String) (js : List String) → str_leb i k ≡ true → IsBelow k js → IsBelow i js
IsBelow-trans i k [] h b = tt
IsBelow-trans i k (j ∷ js) h b = (str_leb_trans i k j h b.0, IsBelow-trans i k js h b.1)

IsBelow-insert_sorted :
    (i k : String) (js : List String)
    → str_leb i k ≡ true
    → IsBelow i js
    → IsBelow i (insert_sorted k js)
unfolding insert_sorted
IsBelow-insert_sorted i k [] h b = (h, tt)
IsBelow-insert_sorted i k (j ∷ js) h b = elim (Bool-cases (str_leb k j)) [
  | inl le ↦ rw le (h, b)
  | inr gt ↦ rw gt (b.0, IsBelow-insert_sorted i k js h b.1)
]

insert_sorted-IsSorted :
    (k : String) (js : List String) → IsSorted js → IsSorted (insert_sorted k js)
unfolding insert_sorted
insert_sorted-IsSorted k [] s = (tt, tt)
insert_sorted-IsSorted k (j ∷ js) s = elim (Bool-cases (str_leb k j)) [
  | inl le ↦ rw le ((le, IsBelow-trans k j js le s.0), s)
  | inr gt ↦
      rw gt
        (IsBelow-insert_sorted j k js (str_leb_total k j gt) s.0, insert_sorted-IsSorted k js s.1)
]

pub sort-IsSorted : (ks : List String) → IsSorted (sort ks)
unfolding sort
sort-IsSorted [] = tt
sort-IsSorted (k ∷ ks) = insert_sorted-IsSorted k (sort ks) (sort-IsSorted ks)

-- A test holds of some key after sorting exactly when it holds of some key before.
any-insert_sorted :
    (p : String → Bool) (k : String) (js : List String)
    → any p (insert_sorted k js) ≡ (p k || any p js)
unfolding insert_sorted
any-insert_sorted p k [] = refl
any-insert_sorted p k (j ∷ js) = ground (arith, any-insert_sorted p k js)

pub any-sort : (p : String → Bool) (ks : List String) → any p (sort ks) ≡ any p ks
unfolding sort
any-sort p [] = refl
any-sort p (k ∷ ks) = ground (arith, any-insert_sorted p k (sort ks), any-sort p ks)

abbrev pub has : String → List String → Bool
has k ks = any (λ j. j == k) ks

-- No key of the list is `k`.
abbrev pub Fresh : String → List String → Type 0
Fresh k js = All (λ j. j ≢ k) js

abbrev pub IsDistinct : List String → Type 0
IsDistinct [] = Unit
IsDistinct (k ∷ ks) = Fresh k ks × IsDistinct ks

Fresh-insert_sorted :
    (i k : String) (js : List String) → k ≢ i → Fresh i js → Fresh i (insert_sorted k js)
unfolding insert_sorted
Fresh-insert_sorted i k [] ne f = (ne, tt)
Fresh-insert_sorted i k (j ∷ js) ne f = elim (Bool-cases (str_leb k j)) [
  | inl le ↦ rw le (ne, f)
  | inr gt ↦ rw gt (f.0, Fresh-insert_sorted i k js ne f.1)
]

pub Fresh-sort : (i : String) (ks : List String) → Fresh i ks → Fresh i (sort ks)
unfolding sort
Fresh-sort i [] f = tt
Fresh-sort i (k ∷ ks) f = Fresh-insert_sorted i k (sort ks) f.0 (Fresh-sort i ks f.1)

insert_sorted-IsDistinct :
    (k : String) (js : List String) → Fresh k js → IsDistinct js → IsDistinct (insert_sorted k js)
unfolding insert_sorted
insert_sorted-IsDistinct k [] f d = (tt, tt)
insert_sorted-IsDistinct k (j ∷ js) f d = elim (Bool-cases (str_leb k j)) [
  | inl le ↦ rw le (f, d)
  | inr gt ↦
      rw gt
        (Fresh-insert_sorted j k js (λ e. f.0 (sym e)) d.0, insert_sorted-IsDistinct k js f.1 d.1)
]

pub sort-IsDistinct : (ks : List String) → IsDistinct ks → IsDistinct (sort ks)
unfolding sort
sort-IsDistinct [] d = tt
sort-IsDistinct (k ∷ ks) d =
    insert_sorted-IsDistinct k (sort ks) (Fresh-sort k ks d.0) (sort-IsDistinct ks d.1)
