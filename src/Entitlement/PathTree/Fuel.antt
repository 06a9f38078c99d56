-- ===== src/Entitlement/PathTree/Fuel.antt =====
-- The loops of `_generate_path_tree` end: each round takes at least one bit of the stream.
use subscription_manager.Base.{
  ℕ, zero, suc, ◌+◌, ◌<◌, ◌≤◌, ◌≡◌, refl, ap, ◌∙◌, String, Bool, true, Option, none, some, List, [],
  ◌∷◌, ◌++◌, length, arith, Option-cases, inl, inr, is_some, string_eq,
}
use subscription_manager.Base.Dict.{Dict, lookup}
use subscription_manager.Base.Result.{ok, err, Result-cases}
use subscription_manager.Entitlement.Bitstream.{Bits, bits_eq, GhettoBitStream, __next__}
use subscription_manager.Entitlement.Bitstream.Laws.{remaining, Yields, next-Yields}
use subscription_manager.Entitlement.Huffman.{HuffmanNode, codes, build_tree}
use subscription_manager.Entitlement.PathTree.{
  Codec, Node, bits_left, get_leaf, _get_leaf_from_dict, append_child, read_node, read_nodes,
  _unpack_data, _generate_path_leaves, _generate_path_tree, path_tree,
}
use subscription_manager.Entitlement.PathTree.Decode.{bits_left-remaining}

Yields-one_less :
    (bits : Bits) (o : Option (Bool × GhettoBitStream)) (b : Bool) (u : GhettoBitStream)
    → Yields bits o
    → o ≡ some (b, u)
    → length bits ≡ suc (length (remaining u))
Yields-one_less bits none b u h e = absurd (ground arith)
Yields-one_less bits (some (c, t)) b u h e =
    let same : t ≡ u = cc in
    ap length h ∙ ap (λ (v : GhettoBitStream). suc (length (remaining v))) same

next_takes_one :
    (s : GhettoBitStream) (b : Bool) (u : GhettoBitStream)
    → __next__ s ≡ some (b, u)
    → bits_left u < bits_left s
next_takes_one s b u e =
    let one_less = Yields-one_less (remaining s) (__next__ s) b u (next-Yields s) e in
    omega (arith, bits_left-remaining s, bits_left-remaining u, one_less)

-- what was taken off the stream when the bits left after it are those of `u`
abbrev Shrinks : {A : Type 0} → GhettoBitStream → Option A × GhettoBitStream → Type 0
Shrinks s (none, u) = bits_left u ≤ bits_left s
Shrinks s (some a, u) = bits_left u < bits_left s

Shrinks-after :
    {A : Type 0} (s t : GhettoBitStream) (r : Option A × GhettoBitStream)
    → bits_left t < bits_left s
    → Shrinks t r
    → Shrinks s r
Shrinks-after s t (none, u) h k = omega arith
Shrinks-after s t (some a, u) h k = omega arith

get_leaf-Shrinks :
    {A : Type 0} (fuel : ℕ) (d : Dict Bits A) (code : Bits) (s : GhettoBitStream)
    → Shrinks s (get_leaf fuel d code s)
unfolding get_leaf
get_leaf-Shrinks zero d code s = omega arith
get_leaf-Shrinks (suc fuel) d code s = elim (Option-cases (__next__ s)) [
  | inl e ↦ rw (get_leaf, e) (omega arith)
  | inr ((b, u), e) ↦ elim (Option-cases (lookup (code ++ b ∷ []) d)) [
    | inl none_there ↦
        rw (get_leaf, e, none_there)
          (Shrinks-after s u (get_leaf fuel d (code ++ b ∷ []) u) (next_takes_one s b u e)
            (get_leaf-Shrinks fuel d (code ++ b ∷ []) u))
    | inr (a, there) ↦ rw (get_leaf, e, there) (next_takes_one s b u e)
  ]
]

leaf_from_dict-Shrinks :
    {A : Type 0} (d : Dict Bits A) (s : GhettoBitStream) → Shrinks s (_get_leaf_from_dict d s)
unfolding _get_leaf_from_dict
leaf_from_dict-Shrinks d s = get_leaf-Shrinks (bits_left s + 1) d [] s

Shrinks-le :
    {A : Type 0} (s : GhettoBitStream) (r : Option A × GhettoBitStream)
    → Shrinks s r
    → bits_left (r.1) ≤ bits_left s
Shrinks-le s (none, u) h = h
Shrinks-le s (some a, u) h = omega arith

Shrinks-lt :
    {A : Type 0} (s : GhettoBitStream) (r : Option A × GhettoBitStream) (a : A)
    → Shrinks s r
    → r.0 ≡ some a
    → bits_left (r.1) < bits_left s
Shrinks-lt s (none, u) a h e = absurd (ground arith)
Shrinks-lt s (some b, u) a h e = h

module _ (word_dict : Dict Bits String) (path_dict : Dict Bits ℕ) where
  read_node-is_some :
      (fuel : ℕ) (value : Node) (s : GhettoBitStream)
      → bits_left s < fuel
      → is_some (read_node fuel word_dict path_dict value s) ≡ true
  unfolding read_node
  read_node-is_some zero value s h = absurd (omega arith)
  read_node-is_some (suc fuel) value s h =
      let read = _get_leaf_from_dict word_dict s in
      elim (Option-cases (read.0)) [
        | inl e ↦ rw (read_node, e) refl
        | inr (w, e) ↦
            let read' = _get_leaf_from_dict path_dict (read.1) in
            let fewer : bits_left (read'.1) < fuel = omega (
              arith,
              Shrinks-lt s read w (leaf_from_dict-Shrinks word_dict s) e,
              Shrinks-le (read.1) read' (leaf_from_dict-Shrinks path_dict (read.1)),
            ) in
            elim (Option-cases (read'.0)) [
              | inl e' ↦ rw (read_node, e, e') (ground arith)
              | inr (i, e') ↦
                  rw (read_node, e, e')
                    (ground
                      (arith, read_node-is_some fuel (append_child w i value) (read'.1) fewer))
            ]
      ]

  read_nodes-is_some :
      (n : ℕ) (s : GhettoBitStream) → is_some (read_nodes n word_dict path_dict s) ≡ true
  unfolding read_nodes
  read_nodes-is_some zero s = refl
  read_nodes-is_some (suc n) s =
      elim (Option-cases (read_node (bits_left s + 1) word_dict path_dict [] s)) [
        | inl e ↦ absurd (ground (arith, read_node-is_some (bits_left s + 1) [] s))
        | inr (err x, e) ↦ rw (read_nodes, e) refl
        | inr (ok (value, t), e) ↦ elim (Option-cases (read_nodes n word_dict path_dict t)) [
          | inl e' ↦ absurd (ground (arith, read_nodes-is_some n t))
          | inr (err x, e') ↦ rw (read_nodes, e, e') refl
          | inr (ok (graph, u), e') ↦ rw (read_nodes, e, e') refl
        ]
      ]

generate_path_tree-is_some :
    (path_dict : Dict Bits ℕ) (leaves : List (HuffmanNode ℕ)) (word_dict : Dict Bits String)
    (s : GhettoBitStream)
    → is_some (_generate_path_tree path_dict leaves word_dict s) ≡ true
unfolding _generate_path_tree
generate_path_tree-is_some path_dict leaves word_dict s =
    elim (Option-cases (read_nodes (length leaves + 1) word_dict path_dict s)) [
      | inl e ↦
          absurd (ground (arith, read_nodes-is_some word_dict path_dict (length leaves + 1) s))
      | inr (err x, e) ↦ rw (_generate_path_tree, e) refl
      | inr (ok (graph, u), e) ↦ rw (_generate_path_tree, e) refl
    ]

-- The loops of `PathTree.__init__` end on every input: the result is a tree or an exception, never a
-- loop that runs out of fuel.
pub path_tree-is_some : (c : Codec) (compressed : List ℕ) → is_some (path_tree c compressed) ≡ true
unfolding path_tree
path_tree-is_some c compressed = elim (Result-cases (_unpack_data c compressed)) [
  | inl (x, e) ↦ rw (path_tree, e) refl
  | inr ((word_leaves, unused), e) ↦ elim (Result-cases (build_tree word_leaves)) [
    | inl (x, f) ↦ rw (path_tree, e, f) refl
    | inr (word_tree, f) ↦
        let stream : GhettoBitStream = record { bytes = unused; bit_buffer = [] } in
        elim (Result-cases (_generate_path_leaves stream)) [
          | inl (x, g) ↦ rw (path_tree, e, f, g) refl
          | inr ((leaves, s), g) ↦ elim (Result-cases (build_tree leaves)) [
            | inl (x, h) ↦ rw (path_tree, e, f, g, h) refl
            | inr (tree, h) ↦
                rw (path_tree, e, f, g, h)
                  (generate_path_tree-is_some (codes tree) leaves (codes word_tree) s)
          ]
        ]
  ]
]
