-- ===== src/Entitlement/Huffman/Codes.antt =====
-- The codes of a tree are free of prefixes.
use subscription_manager.Base.{
  ◌≡◌, ◌≢◌, ℕ, refl, ◌∙◌, sym, Bool, true, false, none, some, [], ◌∷◌, ◌++◌, arith, if◌then◌else◌,
}
use subscription_manager.Base.Dict.{Dict, lookup, lookup-append}
use subscription_manager.Entitlement.Bitstream.{Bits, bits_eq}
use subscription_manager.Entitlement.Huffman.{HuffmanNode, leaf, node, prefixed, codes}

module _ {A : Type 0} where
  lookup-prefixed_same :
      (b : Bool) (code : Bits) (d : Dict Bits A) → lookup (b ∷ code) (prefixed b d) ≡ lookup code d
  unfolding lookup
  lookup-prefixed_same b code [] = refl
  lookup-prefixed_same b code ((c, a) ∷ d) = ground (arith, lookup-prefixed_same b code d)

  lookup-prefixed_other :
      (b c : Bool) (code : Bits) (d : Dict Bits A) → b ≢ c → lookup (c ∷ code) (prefixed b d) ≡ none
  unfolding lookup
  lookup-prefixed_other b c code [] h = refl
  lookup-prefixed_other b c code ((e, a) ∷ d) h = ground (arith, lookup-prefixed_other b c code d h)

  lookup-prefixed_nil : (b : Bool) (d : Dict Bits A) → lookup [] (prefixed b d) ≡ none
  unfolding lookup
  lookup-prefixed_nil b [] = refl
  lookup-prefixed_nil b ((e, a) ∷ d) = ground (arith, lookup-prefixed_nil b d)

  -- The first turn of a code chooses the side of the tree.
  lookup-codes-node :
      (w : ℕ) (l r : HuffmanNode A) (b : Bool) (code : Bits)
      → (lookup (b ∷ code) (codes (node w l r)) ≡ lookup code (codes (if b then r else l)))
        × (lookup [] (codes (node w l r)) ≡ none)
  unfolding codes
  lookup-codes-node w l r true code = (
    rw (
      lookup-append,
      lookup-prefixed_other false true code (codes l) (λ e. cc),
      lookup-prefixed_same true code (codes r),
    ),
    rw (lookup-append, lookup-prefixed_nil false (codes l), lookup-prefixed_nil true (codes r)),
  )
  lookup-codes-node w l r false code = (
    rw lookup-append (
        ground (
          arith,
          lookup-prefixed_other true false code (codes r) (λ e. cc),
          lookup-prefixed_same false code (codes l),
        )),
    rw (lookup-append, lookup-prefixed_nil false (codes l), lookup-prefixed_nil true (codes r)),
  )

  lookup-codes-leaf :
      (w : ℕ) (v : A) (b : Bool) (code : Bits) → lookup (b ∷ code) (codes (leaf w v)) ≡ none
  unfolding codes lookup
  lookup-codes-leaf w v b code = ground arith

  -- A code that is followed by more bits is no code.
  pub prefix_free :
      (t : HuffmanNode A) (p : Bits) (b : Bool) (q : Bits) (a : A)
      → lookup p (codes t) ≡ some a
      → lookup (p ++ b ∷ q) (codes t) ≡ none
  prefix_free (leaf w v) p b q a h = leaf_alone p
    where
      leaf_alone : (p : Bits) → lookup (p ++ b ∷ q) (codes (leaf w v)) ≡ none
      leaf_alone [] = lookup-codes-leaf w v b q
      leaf_alone (c ∷ p) = lookup-codes-leaf w v c (p ++ b ∷ q)
  prefix_free (node w l r) [] b q a h = ground (arith, lookup-codes-node w l r b q)
  prefix_free (node w l r) (true ∷ p) b q a h =
      (lookup-codes-node w l r true (p ++ b ∷ q)).0
      ∙ prefix_free r p b q a (sym (lookup-codes-node w l r true p).0 ∙ h)
  prefix_free (node w l r) (false ∷ p) b q a h =
      (lookup-codes-node w l r false (p ++ b ∷ q)).0
      ∙ prefix_free l p b q a (sym (lookup-codes-node w l r false p).0 ∙ h)
