-- ===== src/Entitlement/PathTree/Decode.antt =====
-- Reading numbers and Huffman codes from the stream of a path tree.
use subscription_manager.Base.{
  ℕ, zero, suc, ◌+◌, ◌-◌, ◌*◌, ◌<◌, ◌≡◌, refl, ap, ◌∙◌, Bool, false, Option, none, some, List, [],
  ◌∷◌, ◌++◌, ltb, length, length-append, arith, Option-cases, inl, inr,
}
use subscription_manager.Base.Dict.{lookup}
use subscription_manager.Base.Result.{ok, err, index_error}
use subscription_manager.Entitlement.Bitstream.{
  Bits, Bits-discrete, bits_eq, GhettoBitStream, _byte_to_bits, __next__, combine_bytes,
}
use subscription_manager.Entitlement.Bitstream.Laws.{remaining, all_bits, Yields, next-Yields}
use subscription_manager.Entitlement.Huffman.{HuffmanNode, leaf, codes}
use subscription_manager.Entitlement.Huffman.Codes.{prefix_free}
use subscription_manager.Entitlement.PathTree.{
  pop_bytes, _get_node_count, bits_left, get_leaf, _get_leaf_from_dict,
}

pop_bytes_lem :
    (bs rest : List ℕ) (bits : Bits)
    → pop_bytes (length bs) (record { bytes = bs ++ rest; bit_buffer = bits })
      ≡ ok (bs, record { bytes = rest; bit_buffer = bits })
unfolding pop_bytes
pop_bytes_lem [] rest bits = refl
pop_bytes_lem (b ∷ bs) rest bits = rw (pop_bytes_lem bs rest bits)

above : (n : ℕ) → 128 + n - 128 ≡ n
above n = omega arith

large : (n : ℕ) → ltb (128 + n) 128 ≡ false
large n = ground arith

-- The number of nodes is the first byte where that is below 128, and else the big-endian value of as
-- many bytes as the first byte exceeds 128 by; the stream goes on behind what was read. An empty stream
-- raises an `IndexError`.
pub get_node_count_lem :
    (first : ℕ) (bs rest : List ℕ) (bits : Bits)
    → (first < 128
        → _get_node_count (record { bytes = first ∷ rest; bit_buffer = bits })
          ≡ ok (first, record { bytes = rest; bit_buffer = bits }))
      × (_get_node_count (record { bytes = (128 + length bs) ∷ (bs ++ rest); bit_buffer = bits })
          ≡ ok (combine_bytes bs, record { bytes = rest; bit_buffer = bits }))
      × (_get_node_count (record { bytes = []; bit_buffer = bits }) ≡ err index_error)
unfolding _get_node_count
get_node_count_lem first bs rest bits = (
  λ h. ground arith,
  rw (large (length bs), above (length bs), pop_bytes_lem bs rest bits) refl,
  refl,
)

length-all_bits : (bytes : List ℕ) → length (all_bits bytes) ≡ 8 * length bytes
unfolding _byte_to_bits
length-all_bits [] = refl
length-all_bits (b ∷ bytes) = omega (arith, length-all_bits bytes)

pub bits_left-remaining : (s : GhettoBitStream) → bits_left s ≡ length (remaining s)
bits_left-remaining s =
    omega (arith, length-append s.bit_buffer (all_bits s.bytes), length-all_bits s.bytes)

append_step : (acc : Bits) (b : Bool) (q : Bits) → (acc ++ b ∷ []) ++ q ≡ acc ++ b ∷ q
append_step [] b q = refl
append_step (x ∷ acc) b q = ap (◌∷◌ x) (append_step acc b q)

Yields-first :
    (b : Bool) (bits : Bits) (o : Option (Bool × GhettoBitStream))
    → Yields (b ∷ bits) o
    → (t : GhettoBitStream) × (o ≡ some (b, t)) × (remaining t ≡ bits)
Yields-first b bits none h = absurd (ground arith)
Yields-first b bits (some (c, t)) h = (t, ground arith, ground arith)

next_first :
    (b : Bool) (bits : Bits) (s : GhettoBitStream)
    → remaining s ≡ b ∷ bits
    → (t : GhettoBitStream) × (__next__ s ≡ some (b, t)) × (remaining t ≡ bits)
next_first b bits s h = Yields-first b bits (__next__ s) (rw (← h) (next-Yields s))

module _ {A : Type 0} (t : HuffmanNode A) where
  get_leaf_step :
      (fuel : ℕ) (acc : Bits) (b : Bool) (s u : GhettoBitStream)
      → __next__ s ≡ some (b, u)
      → lookup (acc ++ b ∷ []) (codes t) ≡ none
      → get_leaf (suc fuel) (codes t) acc s ≡ get_leaf fuel (codes t) (acc ++ b ∷ []) u
  unfolding get_leaf
  get_leaf_step fuel acc b s u n e = rw (get_leaf, n, e) refl

  get_leaf_found :
      (fuel : ℕ) (acc : Bits) (b : Bool) (s u : GhettoBitStream) (a : A)
      → __next__ s ≡ some (b, u)
      → lookup (acc ++ b ∷ []) (codes t) ≡ some a
      → get_leaf (suc fuel) (codes t) acc s ≡ (some a, u)
  unfolding get_leaf
  get_leaf_found fuel acc b s u a n e = rw (get_leaf, n, e) refl

  -- A code that goes on has no code in front of it.
  no_code_before :
      (p : Bits) (b : Bool) (q : Bits) (a : A)
      → lookup (p ++ b ∷ q) (codes t) ≡ some a
      → lookup p (codes t) ≡ none
  no_code_before p b q a h = elim (Option-cases (lookup p (codes t))) [
    | inl none_there ↦ none_there
    | inr (c, there) ↦ ground (arith, prefix_free t p b q c there)
  ]

  get_leaf_lem :
      (fuel : ℕ) (acc : Bits) (b : Bool) (q rest : Bits) (a : A) (s : GhettoBitStream)
      → length q < fuel
      → lookup (acc ++ b ∷ q) (codes t) ≡ some a
      → remaining s ≡ b ∷ (q ++ rest)
      → (u : GhettoBitStream) × (get_leaf fuel (codes t) acc s ≡ (some a, u)) × (remaining u ≡ rest)
  get_leaf_lem zero acc b q rest a s h e r = absurd (omega arith)
  get_leaf_lem (suc fuel) acc b [] rest a s h e r =
      let (u, n, left) = next_first b rest s r in (u, get_leaf_found fuel acc b s u a n e, left)
  get_leaf_lem (suc fuel) acc b (c ∷ q) rest a s h e r =
      let (u, n, left) = next_first b (c ∷ (q ++ rest)) s r in
      let e' = ap (λ x. lookup x (codes t)) (append_step acc b (c ∷ q)) ∙ e in
      let (v, found, left') =
        get_leaf_lem fuel (acc ++ b ∷ []) c q rest a u (omega arith) e' left in
      (v, get_leaf_step fuel acc b s u n (no_code_before (acc ++ b ∷ []) c q a e') ∙ found, left')

  -- If the bits that are left begin with the code of a leaf, and the code is not empty, then that leaf
  -- is read, and exactly the bits of its code are taken.
  pub get_leaf_from_dict_lem :
      (b : Bool) (q rest : Bits) (a : A) (s : GhettoBitStream)
      → lookup (b ∷ q) (codes t) ≡ some a
      → remaining s ≡ b ∷ (q ++ rest)
      → (u : GhettoBitStream) × (_get_leaf_from_dict (codes t) s ≡ (some a, u))
        × (remaining u ≡ rest)
  unfolding _get_leaf_from_dict
  get_leaf_from_dict_lem b q rest a s e r =
      get_leaf_lem (bits_left s + 1) [] b q rest a s
        (omega (arith, bits_left-remaining s, ap length r, length-append q rest)) e r

-- A tree that is one leaf has only the empty code.
single_code :
    {A : Type 0} (w : ℕ) (a : A) (acc : Bits) (b : Bool)
    → lookup (acc ++ b ∷ []) (codes (leaf w a)) ≡ none
unfolding codes lookup Bits-discrete
single_code w a [] b = prefix_free (leaf w a) [] b [] a refl
single_code w a (c ∷ acc) b = prefix_free (leaf w a) [] c (acc ++ b ∷ []) a refl

get_leaf_single :
    {A : Type 0} (fuel : ℕ) (w : ℕ) (a : A) (acc : Bits) (s : GhettoBitStream)
    → (get_leaf fuel (codes (leaf w a)) acc s).0 ≡ none
unfolding get_leaf
get_leaf_single zero w a acc s = refl
get_leaf_single (suc fuel) w a acc s = elim (Option-cases (__next__ s)) [
  | inl e ↦ rw (get_leaf, e) refl
  | inr ((b, u), e) ↦
      rw (get_leaf, e, single_code w a acc b) (get_leaf_single fuel w a (acc ++ b ∷ []) u)
]

-- In the dictionary of a tree that is one leaf, no stream leads to a leaf.
pub single_leaf :
    {A : Type 0} (w : ℕ) (a : A) (s : GhettoBitStream)
    → (_get_leaf_from_dict (codes (leaf w a)) s).0 ≡ none
unfolding _get_leaf_from_dict
single_leaf w a s = get_leaf_single (bits_left s + 1) w a [] s
