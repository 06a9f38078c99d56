-- ===== src/Entitlement/PathTree.antt =====
-- `PathTree` of src/rhsm/pathtree.py. The dictionaries that stand for the nodes of the path tree are
-- the entries of a list, and refer to one another by their places in it.
pub mod Decode
pub mod Fuel
pub mod Match
use Prim.Native.Char.{Char, code}
use package.text.Mathlib.Text.{starts_with}
use subscription_manager.Base.{
  ℕ, zero, suc, ◌+◌, ◌-◌, ◌*◌, String, Bool, true, false, not, ◌&&◌, Option, none, some, List, [],
  ◌∷◌, ◌++◌, map, ltb, length, is_some, any, filter, contains, ◌==◌, string_eq, nat_eq,
  if◌then◌else◌,
}
use subscription_manager.Base.Dict.{Dict, lookup, insert, has, keys}
use subscription_manager.Base.Result.{Result, ok, err, value_error, attribute_error}
use subscription_manager.Entitlement.Bitstream.{
  Bits, bits_eq, GhettoBitStream, __next__, pop_byte, combine_bytes,
}
use subscription_manager.Entitlement.Huffman.{HuffmanNode, leaf, codes, build_tree}

-- What zlib and the decoding of UTF-8 do: the decompressed bytes with the unused ones, and a text.
pub record Codec : Type 0 where
  pub decompress : List ℕ → Result (List ℕ × List ℕ)
  pub decode : List ℕ → Result String

-- data.split(b"\0")
abbrev split_zero : List ℕ → List (List ℕ)
split_zero [] = [] ∷ []
split_zero (b ∷ data') = elim (split_zero data') [
  | [] ↦ if b == 0 then [] ∷ [] else (b ∷ []) ∷ []
  | w ∷ ws ↦ if b == 0 then [] ∷ w ∷ ws else (b ∷ w) ∷ ws
]

-- `[word.decode("utf-8") for word in words]`
abbrev decode_all : (List ℕ → Result String) → List (List ℕ) → Result (List String)
decode_all decode [] = ok []
decode_all decode (w ∷ ws) = elim (decode w) [
  | err e ↦ err e
  | ok s ↦ elim (decode_all decode ws) [ err e ↦ err e | ok rest ↦ ok (s ∷ rest) ]
]

-- leaves with the weights n, n + 1, ...
abbrev weighted : {A : Type 0} → ℕ → List A → List (HuffmanNode A)
weighted n [] = []
weighted n (x ∷ xs) = leaf n x ∷ weighted (n + 1) xs

unfoldable pub _unpack_data : Codec → List ℕ → Result (List (HuffmanNode String) × List ℕ)
_unpack_data c compressed = elim (c.decompress compressed) [
  | err e ↦ err e
  | ok (plain, unused) ↦ elim (decode_all c.decode (split_zero plain)) [
    | err e ↦ err e
    | ok words ↦ ok (weighted 1 words, unused)
  ]
]

-- `[bitstream.pop_byte() for x in range(n)]`
unfoldable pub pop_bytes : ℕ → GhettoBitStream → Result (List ℕ × GhettoBitStream)
unfolding pop_byte
pop_bytes zero s = ok ([], s)
pop_bytes (suc n) s = elim (pop_byte s) [
  | err e ↦ err e
  | ok (byte, t) ↦ elim (pop_bytes n t) [ err e ↦ err e | ok (bytes, u) ↦ ok (byte ∷ bytes, u) ]
]

unfoldable pub _get_node_count : GhettoBitStream → Result (ℕ × GhettoBitStream)
unfolding pop_bytes
_get_node_count s = elim (pop_byte s) [
  | err e ↦ err e
  | ok (first_byte, t) ↦
      if ltb first_byte 128 then ok (first_byte, t) else elim (pop_bytes (first_byte - 128) t) [
        | err e ↦ err e
        | ok (count_bytes, u) ↦ ok (combine_bytes count_bytes, u)
      ]
]

-- range(weight, weight + n), as leaves whose value is the place of their node
abbrev path_leaves : ℕ → ℕ → List (HuffmanNode ℕ)
path_leaves zero weight = []
path_leaves (suc n) weight = leaf weight weight ∷ path_leaves n (weight + 1)

unfoldable pub _generate_path_leaves :
    GhettoBitStream → Result (List (HuffmanNode ℕ) × GhettoBitStream)
unfolding _get_node_count
_generate_path_leaves s = elim (_get_node_count s) [
  | err e ↦ err e
  | ok (node_count, t) ↦ ok (path_leaves (node_count - 1) 1, t)
]

abbrev pub bits_left : GhettoBitStream → ℕ
bits_left s = length s.bit_buffer + 8 * length s.bytes

-- The loop over the bits of the stream; the fuel bounds its rounds, each of which takes one bit.
unfoldable pub get_leaf :
    {A : Type 0} → ℕ → Dict Bits A → Bits → GhettoBitStream → Option A × GhettoBitStream
get_leaf zero code_dict code s = (none, s)
get_leaf (suc fuel) code_dict code s = elim (__next__ s) [
  | none ↦ (none, s)
  | some (bit, t) ↦ elim (lookup (code ++ bit ∷ []) code_dict) [
    | some a ↦ (some a, t)
    | none ↦ get_leaf fuel code_dict (code ++ bit ∷ []) t
  ]
]

unfoldable pub _get_leaf_from_dict :
    {A : Type 0} → Dict Bits A → GhettoBitStream → Option A × GhettoBitStream
unfolding get_leaf
_get_leaf_from_dict code_dict s = get_leaf (bits_left s + 1) code_dict [] s

-- A node: the words that lead on, each with the nodes that it leads to.
abbrev pub Node : Type 0
Node = Dict String (List ℕ)

abbrev pub Graph : Type 0
Graph = List Node

abbrev pub path_end : String
path_end = "PATH END"

abbrev pub or_nil : Option (List ℕ) → List ℕ
or_nil none = []
or_nil (some xs) = xs

-- value.setdefault(word, []).append(child)
unfoldable pub append_child : String → ℕ → Node → Node
append_child word child value = insert word (or_nil (lookup word value) ++ (child ∷ [])) value

-- The `while True` loop that fills one node. `none` is out of fuel, of which each round takes one;
-- a path node that is `None` has no attribute `value`.
unfoldable pub read_node :
    ℕ
    → Dict Bits String
    → Dict Bits ℕ
    → Node
    → GhettoBitStream
    → Option (Result (Node × GhettoBitStream))
unfolding append_child
read_node zero word_dict path_dict value s = none
read_node (suc fuel) word_dict path_dict value s =
    let (word, t) = _get_leaf_from_dict word_dict s in
    elim word [
      | none ↦ some (ok (value, t))
      | some w ↦
          let (child, u) = _get_leaf_from_dict path_dict t in
          let more : Option (Result (Node × GhettoBitStream)) = elim child [
            | none ↦ some (err attribute_error)
            | some i ↦ read_node fuel word_dict path_dict (append_child w i value) u
          ] in
          if w == "" then some (ok (value, t)) else more
    ]

-- the loop over `values`
unfoldable pub read_nodes :
    ℕ → Dict Bits String → Dict Bits ℕ → GhettoBitStream → Option (Result (Graph × GhettoBitStream))
unfolding read_node
read_nodes zero word_dict path_dict s = some (ok ([], s))
read_nodes (suc n) word_dict path_dict s =
    elim (read_node (bits_left s + 1) word_dict path_dict [] s) [
      | none ↦ none
      | some (err e) ↦ some (err e)
      | some (ok (value, t)) ↦ elim (read_nodes n word_dict path_dict t) [
        | none ↦ none
        | some (err e) ↦ some (err e)
        | some (ok (graph, u)) ↦ some (ok (value ∷ graph, u))
      ]
    ]

-- `if not value: value[PATH_END] = None`
abbrev mark_end : Node → Node
mark_end [] = (path_end, []) ∷ []
mark_end (entry ∷ value) = entry ∷ value

unfoldable pub _generate_path_tree :
    Dict Bits ℕ → List (HuffmanNode ℕ) → Dict Bits String → GhettoBitStream → Option (Result Graph)
unfolding read_nodes
_generate_path_tree path_dict leaves word_dict s =
    elim (read_nodes (length leaves + 1) word_dict path_dict s) [
      | none ↦ none
      | some (err e) ↦ some (err e)
      | some (ok (graph, t)) ↦ some (ok (map mark_end graph))
    ]

-- `__init__`: the graph whose first node is the root of the path tree
unfoldable pub path_tree : Codec → List ℕ → Option (Result Graph)
unfolding _generate_path_tree _unpack_data _generate_path_leaves
path_tree c compressed = elim (_unpack_data c compressed) [
  | err e ↦ some (err e)
  | ok (word_leaves, unused_bits) ↦ elim (build_tree word_leaves) [
    | err e ↦ some (err e)
    | ok word_tree ↦
        elim (_generate_path_leaves (record { bytes = unused_bits; bit_buffer = [] })) [
          | err e ↦ some (err e)
          | ok (leaves, bitstream) ↦ elim (build_tree leaves) [
            | err e ↦ some (err e)
            | ok tree ↦ _generate_path_tree (codes tree) leaves (codes word_tree) bitstream
          ]
        ]
  ]
]
