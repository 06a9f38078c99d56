-- ===== src/Entitlement/Tests.antt =====
-- Runs of src/rhsm/bitstream.py, src/rhsm/huffman.py and src/rhsm/pathtree.py on small inputs.
use mathlib.Core.List.{Perm}
use subscription_manager.Base.{
  ℕ, ◌≡◌, ◌≢◌, ◌↔◌, refl, ℕ_discrete, String-discrete, String, true, false, none, some, List, [],
  ◌∷◌, ◌++◌, is_some, string_eq,
}
use subscription_manager.Base.Dict.{lookup, has, keys}
use subscription_manager.Base.Result.{ok, err, index_error}
use subscription_manager.Entitlement.Bitstream.{bits_eq, Bits-discrete, GhettoBitStream}
use subscription_manager.Entitlement.Bitstream.Laws.{remaining}
use subscription_manager.Entitlement.Huffman.{HuffmanNode, leaf, node, codes, build_tree}
use subscription_manager.Entitlement.Huffman.Codes.{prefix_free}
use subscription_manager.Entitlement.Huffman.Build.{leaves, all_leaves, build_tree-perm}
use subscription_manager.Entitlement.PathTree.{
  Codec, Graph, path_end, _get_leaf_from_dict, path_tree,
}
use subscription_manager.Entitlement.PathTree.Decode.{get_leaf_from_dict_lem, single_leaf}
use subscription_manager.Entitlement.PathTree.Fuel.{path_tree-is_some}
use subscription_manager.Entitlement.PathTree.Match.{_traverse_tree, Matches, traverse_iff}

abbrev letters : List (HuffmanNode String)
letters = leaf 1 "a" ∷ leaf 2 "b" ∷ leaf 3 "c" ∷ []

-- the tree that is built of the letters
abbrev letters_tree : HuffmanNode String
letters_tree = node 6 (leaf 3 "c") (node 3 (leaf 1 "a") (leaf 2 "b"))

build_letters : build_tree letters ≡ ok letters_tree
unfolding build_tree ℕ_discrete
build_letters = refl

build_tree-perm_example :
    (letters ≢ []
      → (t : HuffmanNode String) × (build_tree letters ≡ ok t)
        × Perm (leaves t) (all_leaves letters))
    × (build_tree {A = String} [] ≡ err index_error)
build_tree-perm_example = build_tree-perm letters

code_of_c : lookup (false ∷ []) (codes letters_tree) ≡ some "c"
unfolding codes lookup Bits-discrete
code_of_c = refl

code_of_b : lookup (true ∷ true ∷ []) (codes letters_tree) ≡ some "b"
unfolding codes lookup Bits-discrete
code_of_b = refl

prefix_free_example : lookup ((false ∷ []) ++ true ∷ []) (codes letters_tree) ≡ none
prefix_free_example = prefix_free letters_tree (false ∷ []) true [] "c" code_of_c

-- the code of "b" and then that of "c"
abbrev two_codes : GhettoBitStream
two_codes = record { bytes = []; bit_buffer = true ∷ true ∷ false ∷ [] }

get_leaf_from_dict_example :
    (u : GhettoBitStream) × (_get_leaf_from_dict (codes letters_tree) two_codes ≡ (some "b", u))
    × (remaining u ≡ false ∷ [])
get_leaf_from_dict_example =
    get_leaf_from_dict_lem letters_tree true (true ∷ []) (false ∷ []) "b" two_codes code_of_b refl

abbrev alone : HuffmanNode String
alone = leaf 1 "a"

single_leaf_example : (_get_leaf_from_dict (codes alone) two_codes).0 ≡ none
single_leaf_example = single_leaf 1 "a" two_codes

abbrev two_bytes : List ℕ
two_bytes = 1 ∷ 2 ∷ []

-- /content/$releasever and /content/beta/rpms
abbrev paths : Graph
paths =
    (("content", 1 ∷ []) ∷ [])
    ∷ (("$releasever", 3 ∷ []) ∷ ("beta", 2 ∷ []) ∷ [])
    ∷ (("rpms", 3 ∷ []) ∷ [])
    ∷ ((path_end, []) ∷ [])
    ∷ []

traverse_example :
    (_traverse_tree paths 0 ("content" ∷ "8" ∷ "os" ∷ []) ≡ true)
    ↔ Matches paths 0 ("content" ∷ "8" ∷ "os" ∷ [])
traverse_example = traverse_iff paths 0 ("content" ∷ "8" ∷ "os" ∷ [])

traverse_paths : _traverse_tree paths 0 ("content" ∷ "8" ∷ "os" ∷ []) ≡ true
unfolding _traverse_tree lookup String-discrete ℕ_discrete has keys
traverse_paths = refl

-- a codec of texts that are not compressed and have one word
abbrev plain : Codec
plain = record { decompress = λ data'. ok (data', 2 ∷ 128 ∷ []); decode = λ word. ok "content" }

path_tree-is_some_example : is_some (path_tree plain (1 ∷ 0 ∷ 2 ∷ [])) ≡ true
path_tree-is_some_example = path_tree-is_some plain (1 ∷ 0 ∷ 2 ∷ [])
