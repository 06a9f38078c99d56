-- ===== src/Entitlement/Huffman.antt =====
-- `HuffmanNode` of src/rhsm/huffman.py. The nodes of a tree are found from its root, so that a node's
-- link to its parent is its place in the tree. The priority queue of the module `heapq` is the list of
-- its entries in the order in which `heappop` takes them: by weight, and by counter where weights are
-- equal.
pub mod Codes
pub mod Build
use subscription_manager.Base.{
  ℕ, zero, suc, ◌+◌, Bool, true, false, Option, none, some, List, [], ◌∷◌, ◌++◌, map, ltb, length,
  if◌then◌else◌,
}
use subscription_manager.Base.Dict.{Dict}
use subscription_manager.Base.Result.{Result, ok, err, index_error}
use subscription_manager.Entitlement.Bitstream.{Bits}

pub data HuffmanNode (A : Type 0) : Type 0 where
  leaf : ℕ → A → HuffmanNode A
  node : ℕ → HuffmanNode A → HuffmanNode A → HuffmanNode A

-- an entry of the queue: a node and its counter
abbrev pub Entry : Type 0 → Type 0
Entry A = HuffmanNode A × ℕ

module _ {A : Type 0} where
  abbrev pub weight : HuffmanNode A → ℕ
  weight (leaf w a) = w
  weight (node w l r) = w

  unfoldable pub combine : HuffmanNode A → HuffmanNode A → HuffmanNode A
  combine l r = node (weight l + weight r) l r

  -- the order of the tuples: by weight, then by counter
  abbrev pub before : Entry A → Entry A → Bool
  before (x, i) (y, j) =
      if ltb (weight x) (weight y)
      then true
      else if ltb (weight y) (weight x)
      then false
      else ltb i j

  unfoldable pub heappush : Entry A → List (Entry A) → List (Entry A)
  heappush e [] = e ∷ []
  heappush e (f ∷ queue) = if before e f then e ∷ f ∷ queue else f ∷ heappush e queue

  -- `[(node, next(counter)) for node in nodes]` and `heapify`
  unfoldable pub heapify : ℕ → List (HuffmanNode A) → List (Entry A)
  unfolding heappush
  heapify count [] = []
  heapify count (x ∷ nodes) = heappush (x, count) (heapify (count + 1) nodes)

  -- the loop of `build_tree`; `fuel` bounds its rounds, each of which takes one entry off the queue
  unfoldable pub build_loop : ℕ → List (Entry A) → ℕ → Result (HuffmanNode A)
  unfolding heappush combine
  build_loop zero queue count = err index_error
  build_loop (suc fuel) [] count = err index_error
  build_loop (suc fuel) (l ∷ []) count = ok (l.0)
  build_loop (suc fuel) (l ∷ r ∷ queue) count =
      build_loop fuel (heappush (combine (l.0) (r.0), count) queue) (count + 1)

  unfoldable pub build_tree : List (HuffmanNode A) → Result (HuffmanNode A)
  unfolding build_loop heapify
  build_tree nodes = build_loop (length nodes + 1) (heapify 0 nodes) (length nodes)

  -- The codes of one side of a tree, with the turn that leads there in front.
  abbrev pub prefixed : Bool → Dict Bits A → Dict Bits A
  prefixed b [] = []
  prefixed b ((code, a) ∷ d) = (b ∷ code, a) ∷ prefixed b d

  -- The leaves of a tree under their codes: the turns from the root, `false` to the left.
  unfoldable pub codes : HuffmanNode A → Dict Bits A
  codes (leaf w a) = ([], a) ∷ []
  codes (node w l r) = prefixed false (codes l) ++ prefixed true (codes r)
