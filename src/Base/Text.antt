-- ===== src/Base/Text.antt =====
-- Texts in the order of their code points, which is that of Python's `str`, and lists of texts.
use Prim.Native.Char.{code}
use mathlib.Core.List.{List, [], ◌∷◌}
use text.Mathlib.TextEquality.{Char-path}
use subscription_manager.Base.{
  ℕ, ◌+◌, ◌<◌, ◌≡◌, sym, ap, ◌∙◌, ◌↔◌, refl, String, Bool, true, false, arith, Eq, ◌==◌, contains,
  String-discrete, ltb, if◌then◌else◌, string_eq,
}

-- `s <= t`
unfoldable pub text_leb : String → String → Bool
text_leb String.[] t = true
text_leb (String.◌∷◌ c s) String.[] = false
text_leb (String.◌∷◌ c s) (String.◌∷◌ d t) =
    if ltb (code c) (code d) then true else if ltb (code d) (code c) then false else text_leb s t

-- `sorted(xs)`
abbrev pub insert_sorted : String → List String → List String
insert_sorted a [] = a ∷ []
insert_sorted a (x ∷ xs) = if text_leb a x then a ∷ x ∷ xs else x ∷ insert_sorted a xs

unfoldable pub sorted : List String → List String
sorted [] = []
sorted (x ∷ xs) = insert_sorted x (sorted xs)

-- `xs.count(a)`
abbrev pub count : String → List String → ℕ
count a [] = 0
count a (x ∷ xs) = (if x == a then 1 else 0) + count a xs

pub text_leb_total : (s t : String) → text_leb s t ≡ false → text_leb t s ≡ true
unfolding text_leb
text_leb_total String.[] t h = cc
text_leb_total (String.◌∷◌ c s) String.[] h = refl
text_leb_total (String.◌∷◌ c s) (String.◌∷◌ d t) h = ground (arith, text_leb_total s t)

pub text_leb_antisymm : (s t : String) → text_leb s t ≡ true → text_leb t s ≡ true → s ≡ t
unfolding text_leb
text_leb_antisymm String.[] String.[] h k = refl
text_leb_antisymm String.[] (String.◌∷◌ d t) h k = cc
text_leb_antisymm (String.◌∷◌ c s) String.[] h k = cc
text_leb_antisymm (String.◌∷◌ c s) (String.◌∷◌ d t) h k =
    ground (arith, Char-path c d, text_leb_antisymm s t)

pub text_leb_trans :
    (s t u : String) → text_leb s t ≡ true → text_leb t u ≡ true → text_leb s u ≡ true
unfolding text_leb
text_leb_trans String.[] t u h k = refl
text_leb_trans (String.◌∷◌ c s) String.[] u h k = cc
text_leb_trans (String.◌∷◌ c s) (String.◌∷◌ d t) String.[] h k = cc
text_leb_trans (String.◌∷◌ c s) (String.◌∷◌ d t) (String.◌∷◌ e u) h k =
    ground (arith, text_leb_trans s t u)

count-insert_sorted :
    (a x : String) (xs : List String)
    → count a (insert_sorted x xs) ≡ (if x == a then 1 else 0) + count a xs
count-insert_sorted a x [] = refl
count-insert_sorted a x (y ∷ ys) = ground (arith, count-insert_sorted a x ys)

-- Sorting keeps every element as often as it occurs.
pub count-sorted : (a : String) (xs : List String) → count a (sorted xs) ≡ count a xs
unfolding sorted
count-sorted a [] = refl
count-sorted a (x ∷ xs) = ground (arith, count-insert_sorted a x (sorted xs), count-sorted a xs)

insert_sorted_comm :
    (a b : String) (xs : List String)
    → insert_sorted a (insert_sorted b xs) ≡ insert_sorted b (insert_sorted a xs)
insert_sorted_comm a b [] =
    ground (arith, text_leb_total a b, text_leb_total b a, text_leb_antisymm a b)
insert_sorted_comm a b (x ∷ xs) = ground (
  arith,
  insert_sorted_comm a b xs,
  text_leb_total a b,
  text_leb_total b a,
  text_leb_antisymm a b,
  text_leb_trans a b x,
  text_leb_trans b a x,
  text_leb_total a x,
  text_leb_total b x,
  text_leb_trans a x b,
  text_leb_trans b x a,
)

-- Two lists hold the same texts, each as often.
abbrev pub SameItems : List String → List String → Type 0
SameItems xs ys = (a : String) → count a xs ≡ count a ys

-- `xs.remove(a)`, and the list as it is where `a` is not in it
abbrev pub remove : String → List String → List String
remove a [] = []
remove a (x ∷ xs) = if x == a then xs else x ∷ remove a xs

count-remove :
    (a b : String) (xs : List String)
    → 0 < count a xs
    → count b xs ≡ (if a == b then 1 else 0) + count b (remove a xs)
count-remove a b [] h = absurd (omega arith)
count-remove a b (x ∷ xs) h = ground (arith, count-remove a b xs)

sorted-remove :
    (a : String) (xs : List String)
    → 0 < count a xs
    → sorted xs ≡ insert_sorted a (sorted (remove a xs))
unfolding sorted
sorted-remove a [] h = absurd (omega arith)
sorted-remove a (x ∷ xs) h =
    ground (arith, sorted-remove a xs, insert_sorted_comm x a (sorted (remove a xs)))

sorted-cons : (x : String) (xs : List String) → sorted (x ∷ xs) ≡ insert_sorted x (sorted xs)
unfolding sorted
sorted-cons x xs = refl

count_self : (a : String) (xs : List String) → 0 < count a (a ∷ xs)
count_self a xs = ground arith

sorted_of_SameItems : (xs ys : List String) → SameItems xs ys → sorted xs ≡ sorted ys
sorted_of_SameItems [] [] h = refl
sorted_of_SameItems [] (y ∷ ys) h = absurd (omega (arith, h y, count_self y ys))
sorted_of_SameItems (x ∷ xs) ys h =
    let present : 0 < count x ys = omega (arith, h x, count_self x xs) in
    let rest : sorted xs ≡ sorted (remove x ys) =
      sorted_of_SameItems xs (remove x ys) λ a. omega (arith, h a, count-remove x a ys present) in
    sorted-cons x xs ∙ ap (insert_sorted x) rest ∙ sym (sorted-remove x ys present)

-- Two lists are equal when sorted exactly if they hold the same texts, each as often.
pub sorted_iff : (xs ys : List String) → (sorted xs ≡ sorted ys) ↔ SameItems xs ys
sorted_iff xs ys =
    (λ h a. sym (count-sorted a xs) ∙ ap (count a) h ∙ count-sorted a ys, sorted_of_SameItems xs ys)

unfoldable pub texts-discrete : Discrete (List String)
texts-discrete = hlevel String-discrete

instance abbrev pub texts_eq : Eq (List String)
texts_eq = record { dec = texts-discrete }

pub count-contains : (a : String) (xs : List String) → (contains xs a ≡ true) ↔ (0 < count a xs)
count-contains a [] = (λ h. cc, λ h. absurd (omega arith))
count-contains a (x ∷ xs) = ground (arith, count-contains a xs)
