-- ===== src/Entitlement/Huffman/Build.antt =====
-- `build_tree` makes one tree of all nodes.
use mathlib.Core.List.{Perm, append-nil, append_assoc, perm_append_comm}
use mathlib.Core.List.Perm
use subscription_manager.Base.{
  ◌≡◌, ◌≢◌, ◌<◌, ℕ, zero, suc, ◌+◌, refl, ◌∙◌, ap, List, [], ◌∷◌, ◌++◌, arith, if-both, length,
}
use subscription_manager.Base.Result.{ok, err, index_error}
use subscription_manager.Entitlement.Huffman.{
  HuffmanNode, leaf, node, Entry, before, heappush, heapify, combine, build_loop, build_tree,
}

module _ {A : Type 0} where
  -- the values of the leaves of a tree, from the left to the right
  abbrev pub leaves : HuffmanNode A → List A
  leaves (leaf w a) = a ∷ []
  leaves (node w l r) = leaves l ++ leaves r

  abbrev pub all_leaves : List (HuffmanNode A) → List A
  all_leaves [] = []
  all_leaves (x ∷ xs) = leaves x ++ all_leaves xs

  abbrev forest : List (Entry A) → List A
  forest [] = []
  forest (e ∷ queue) = leaves (e.0) ++ forest queue

  length-heappush :
      (e : Entry A) (queue : List (Entry A)) → length (heappush e queue) ≡ suc (length queue)
  unfolding heappush
  length-heappush e [] = refl
  length-heappush e (f ∷ queue) = ground (arith, length-heappush e queue)

  append_swap : (xs ys zs : List A) → Perm (xs ++ (ys ++ zs)) (ys ++ (xs ++ zs))
  append_swap xs ys zs =
      rw (← append_assoc xs ys zs, ← append_assoc ys xs zs)
        (Perm.append_right zs (perm_append_comm xs ys))

  heappush-perm :
      (e : Entry A) (queue : List (Entry A))
      → Perm (forest (heappush e queue)) (leaves (e.0) ++ forest queue)
  unfolding heappush
  heappush-perm e [] = Perm.refl _
  heappush-perm e (f ∷ queue) =
      if-both (λ q. Perm (forest q) (leaves (e.0) ++ (leaves (f.0) ++ forest queue))) (before e f)
        (e ∷ f ∷ queue) (f ∷ heappush e queue) (Perm.refl _)
        (Perm.trans (Perm.append_left (leaves (f.0)) (heappush-perm e queue))
          (append_swap (leaves (f.0)) (leaves (e.0)) (forest queue)))

  length-heapify :
      (count : ℕ) (nodes : List (HuffmanNode A)) → length (heapify count nodes) ≡ length nodes
  unfolding heapify
  length-heapify count [] = refl
  length-heapify count (x ∷ nodes) =
      length-heappush (x, count) (heapify (count + 1) nodes)
      ∙ ap suc (length-heapify (count + 1) nodes)

  heapify-perm :
      (count : ℕ) (nodes : List (HuffmanNode A))
      → Perm (forest (heapify count nodes)) (all_leaves nodes)
  unfolding heapify
  heapify-perm count [] = Perm.refl _
  heapify-perm count (x ∷ nodes) =
      Perm.trans (heappush-perm (x, count) (heapify (count + 1) nodes))
        (Perm.append_left (leaves x) (heapify-perm (count + 1) nodes))

  leaves-combine : (l r : HuffmanNode A) → leaves (combine l r) ≡ leaves l ++ leaves r
  unfolding combine
  leaves-combine l r = refl

  nonempty : (e : Entry A) (queue : List (Entry A)) → heappush e queue ≢ []
  nonempty e queue h = absurd (omega (arith, length-heappush e queue, ap length h))

  regroup :
      (l r : HuffmanNode A) (queue : List (Entry A))
      → Perm (leaves (combine l r) ++ forest queue) (leaves l ++ (leaves r ++ forest queue))
  regroup l r queue = rw (leaves-combine, append_assoc) (Perm.refl _)

  heapify-ne-nil :
      (count : ℕ) (nodes : List (HuffmanNode A)) → nodes ≢ [] → heapify count nodes ≢ []
  unfolding heapify
  heapify-ne-nil count [] ne h = absurd (ne refl)
  heapify-ne-nil count (x ∷ nodes) ne h = nonempty (x, count) (heapify (count + 1) nodes) h

  -- With enough fuel the loop ends with one tree of all leaves.
  build_loop-perm :
      (fuel : ℕ) (queue : List (Entry A)) (count : ℕ)
      → length queue < fuel
      → queue ≢ []
      → (t : HuffmanNode A) × (build_loop fuel queue count ≡ ok t) × Perm (leaves t) (forest queue)
  unfolding build_loop
  build_loop-perm zero queue count h ne = absurd (omega arith)
  build_loop-perm (suc fuel) [] count h ne = absurd (ne refl)
  build_loop-perm (suc fuel) (l ∷ []) count h ne = (l.0, refl, rw append-nil (Perm.refl _))
  build_loop-perm (suc fuel) (l ∷ r ∷ queue) count h ne =
      let joined : Entry A = (combine (l.0) (r.0), count) in
      let (t, built, same) =
        build_loop-perm fuel (heappush joined queue) (count + 1)
          (omega (arith, length-heappush joined queue)) (nonempty joined queue) in
      (
        t,
        built,
        Perm.trans same (Perm.trans (heappush-perm joined queue) (regroup (l.0) (r.0) queue)),
      )

  -- `build_tree` of any nodes makes one tree that has exactly their leaves, each as often; of no node
  -- it raises an `IndexError`.
  pub build_tree-perm :
      (nodes : List (HuffmanNode A))
      → (nodes ≢ []
          → (t : HuffmanNode A) × (build_tree nodes ≡ ok t) × Perm (leaves t) (all_leaves nodes))
        × (build_tree {A = A} [] ≡ err index_error)
  unfolding build_tree
  build_tree-perm nodes = (
    λ ne.
        let (t, built, same) =
          build_loop-perm (length nodes + 1) (heapify 0 nodes) (length nodes)
            (omega (arith, length-heapify 0 nodes)) (heapify-ne-nil 0 nodes ne) in
        (t, built, Perm.trans same (heapify-perm 0 nodes)),
    refl,
  )
