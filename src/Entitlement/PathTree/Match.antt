-- ===== src/Entitlement/PathTree/Match.antt =====
-- `match_path` and `_traverse_tree` of src/rhsm/pathtree.py.
use package.text.Mathlib.Text.{starts_with}
use subscription_manager.Base.{
  ℕ, zero, suc, ◌≡◌, ◌↔◌, ◌⊎◌, inl, inr, refl, sym, ◌∙◌, String, Bool, true, not, ◌&&◌, List, [],
  ◌∷◌, any, filter, contains, ◌==◌, string_eq, nat_eq, if◌then◌else◌, arith, Bool-cases, is_nil,
  any_sound, any_complete, contains-filter, String-discrete,
}
use subscription_manager.Base.Slashes.{strip_left, strip_right, split}
use subscription_manager.Base.Dict.{lookup, has, keys, has-lookup, contains-keys}
use subscription_manager.Base.Result.{Result, ok, err, value_error}
use subscription_manager.Entitlement.PathTree.{Node, Graph, path_end, or_nil}

-- the node at a place of the graph
abbrev node_at : Graph → ℕ → Node
node_at [] i = []
node_at (x ∷ g) zero = x
node_at (x ∷ g) (suc i) = node_at g i

-- `tree[word]`
abbrev children : String → Node → List ℕ
children word tree = or_nil (lookup word tree)

-- the words under which the loop looks: the word itself, if it is there, and every variable
abbrev words_to_try : String → Node → List String
words_to_try word tree =
    let variables = filter (λ k. starts_with k "$") (keys tree) in
    if has word tree then word ∷ variables else variables

unfoldable pub _traverse_tree : Graph → ℕ → List String → Bool
_traverse_tree g tree [] = has path_end (node_at g tree)
_traverse_tree g tree (word ∷ rest) =
    if has path_end (node_at g tree)
    then true
    else if word == "listing" && is_nil rest
    then true
    else any (λ k. any (λ child. _traverse_tree g child rest) (children k (node_at g tree)))
        (words_to_try word (node_at g tree))

unfoldable pub match_path : Graph → String → Result Bool
unfolding _traverse_tree
match_path g path =
    if not (starts_with path "/")
    then err value_error
    else ok (_traverse_tree g 0 (split (strip_right (strip_left path))))

-- A segment of a path fits a key of a node: the key is the segment, or a variable such as $releasever.
abbrev Fits : String → String → Type 0
Fits key word = (key ≡ word) ⊎ (starts_with key "$" ≡ true)

-- From a place of the graph a path of the tree can be read that is a prefix of the words. The word
-- "listing", as the last one, is accepted wherever the tree goes on.
pub data Matches (g : Graph) : ℕ → List String → Type 0 where
  ended :
      {tree : ℕ} (words : List String) → has path_end (node_at g tree) ≡ true → Matches g tree words
  listing : {tree : ℕ} {word : String} → word ≡ "listing" → Matches g tree (word ∷ [])
  step :
      {tree : ℕ} {word : String} {rest : List String} (key : String) (child : ℕ)
      → Fits key word
      → contains (children key (node_at g tree)) child ≡ true
      → Matches g child rest
      → Matches g tree (word ∷ rest)

words_to_try-Fits :
    (word key : String) (tree : Node) → contains (words_to_try word tree) key ≡ true → Fits key word
words_to_try-Fits word key tree h = elim (String-discrete key word) [
  | yes p ↦ inl p
  | no n ↦ inr (ground (arith, contains-filter (λ k. starts_with k "$") key (keys tree)))
]

-- A key that has children is one of the node.
has-children :
    (key : String) (tree : Node) (child : ℕ)
    → contains (children key tree) child ≡ true
    → has key tree ≡ true
has-children key tree child h = ground (arith, has-lookup key tree)

words_to_try-has :
    (word key : String) (tree : Node)
    → Fits key word
    → has key tree ≡ true
    → contains (words_to_try word tree) key ≡ true
words_to_try-has word key tree fits h =
    ground (arith, contains-filter (λ k. starts_with k "$") key (keys tree), contains-keys key tree)

abbrev goes_on : Graph → ℕ → String → List String → Bool
goes_on g tree word rest =
    any (λ k. any (λ child. _traverse_tree g child rest) (children k (node_at g tree)))
      (words_to_try word (node_at g tree))

goes_on-Matches :
    (g : Graph) (tree : ℕ) (word : String) (rest : List String)
    → ((child : ℕ) → _traverse_tree g child rest ≡ true → Matches g child rest)
    → goes_on g tree word rest ≡ true
    → Matches g tree (word ∷ rest)
goes_on-Matches g tree word rest matches h =
    let (key, tried, t) =
      any_sound (λ k. any (λ child. _traverse_tree g child rest) (children k (node_at g tree)))
        (words_to_try word (node_at g tree)) h in
    let (child, there, more) =
      any_sound (λ child. _traverse_tree g child rest) (children key (node_at g tree)) t in
    step key child (words_to_try-Fits word key (node_at g tree) tried) there (matches child more)

Matches-goes_on :
    (g : Graph) (tree : ℕ) (word : String) (rest : List String) (key : String) (child : ℕ)
    → Fits key word
    → contains (children key (node_at g tree)) child ≡ true
    → _traverse_tree g child rest ≡ true
    → goes_on g tree word rest ≡ true
Matches-goes_on g tree word rest key child fits there more =
    any_complete (λ k. any (λ c. _traverse_tree g c rest) (children k (node_at g tree)))
      (words_to_try word (node_at g tree)) key
      (words_to_try-has word key (node_at g tree) fits
        (has-children key (node_at g tree) child there))
      (any_complete (λ c. _traverse_tree g c rest) (children key (node_at g tree)) child there more)

traverse-nil : (g : Graph) (tree : ℕ) → _traverse_tree g tree [] ≡ has path_end (node_at g tree)
unfolding _traverse_tree
traverse-nil g tree = refl

traverse-cons :
    (g : Graph) (tree : ℕ) (word : String) (rest : List String)
    → _traverse_tree g tree (word ∷ rest) ≡ (
        if has path_end (node_at g tree)
        then true
        else if word == "listing" && is_nil rest
        then true
        else goes_on g tree word rest)
unfolding _traverse_tree
traverse-cons g tree word rest = refl

last_or_more :
    (g : Graph) (tree : ℕ) (word : String) (rest : List String)
    → ((child : ℕ) → _traverse_tree g child rest ≡ true → Matches g child rest)
    → (if word == "listing" && is_nil rest then true else goes_on g tree word rest) ≡ true
    → Matches g tree (word ∷ rest)
last_or_more g tree word [] matches h = elim (String-discrete word "listing") [
  | yes p ↦ listing p
  | no n ↦ goes_on-Matches g tree word [] matches (ground (arith, n))
]
last_or_more g tree word (w ∷ rest) matches h =
    goes_on-Matches g tree word (w ∷ rest) matches (ground arith)

sound :
    (g : Graph) (tree : ℕ) (words : List String)
    → _traverse_tree g tree words ≡ true
    → Matches g tree words
sound g tree [] h = ended [] (sym (traverse-nil g tree) ∙ h)
sound g tree (word ∷ rest) h = elim (Bool-cases (has path_end (node_at g tree))) [
  | inl e ↦ ended (word ∷ rest) e
  | inr e ↦
      last_or_more g tree word rest (λ child. sound g child rest)
        (ground (arith, e, traverse-cons g tree word rest))
]

complete :
    {g : Graph} {tree : ℕ} {words : List String}
    → Matches g tree words
    → _traverse_tree g tree words ≡ true
complete {g} {tree} (ended [] e) = traverse-nil g tree ∙ e
complete {g} {tree} (ended (word ∷ rest) e) = ground (arith, traverse-cons g tree word rest)
complete {g} {tree} (listing {word = w} e) = ground (arith, traverse-cons g tree w [])
complete {g} {tree} (step {word = w} {rest = r} key child fits m more) =
    let h = Matches-goes_on g tree w r key child fits m (complete more) in
    ground (arith, h, traverse-cons g tree w r)

-- `_traverse_tree` accepts the words exactly if they match from the node.
pub traverse_iff :
    (g : Graph) (tree : ℕ) (words : List String)
    → (_traverse_tree g tree words ≡ true) ↔ Matches g tree words
traverse_iff g tree words = (sound g tree words, complete)
