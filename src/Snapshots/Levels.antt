-- ===== src/Snapshots/Levels.antt =====
-- One round of the Merkle tree of snapshot-cryptography.service.ts.
use amazingchance.Base.{
  ℕ, zero, suc, ◌+◌, ◌-◌, ◌/◌, ◌%◌, ◌<◌, ◌≡◌, refl, sym, ap, ◌∙◌, inl, inr, true, false, List, [],
  ◌∷◌, length, get_or, ltb, ◌==◌, if◌then◌else◌, Bool-cases, arith,
}
use amazingchance.Snapshots.Cryptography.{
  Bytes, MerkleProofNode, left, right, create_next_merkle_level, proof_node, join_node,
}

abbrev sibling : ℕ → ℕ
sibling index = if index % 2 == 1 then index - 1 else index + 1

sibling_shift : (i : ℕ) → sibling (suc (suc i)) ≡ suc (suc (sibling i))
sibling_shift i = ground arith

abbrev node_at : (level : List Bytes) (size index sib : ℕ) → MerkleProofNode
node_at level size index sib = record {
  hash = get_or level (if ltb sib size then sib else index) [];
  side = if index % 2 == 1 then left else right;
}

node_at_shift :
    (x y : Bytes) (rest : List Bytes) (i sib : ℕ)
    → node_at (x ∷ y ∷ rest) (suc (suc (length rest))) (suc (suc i)) (suc (suc sib))
      ≡ node_at rest (length rest) i sib
node_at_shift x y rest i sib =
    let same : (suc (suc i) % 2) ≡ i % 2 = omega arith in
    elim (Bool-cases (ltb sib (length rest))) [
      | inl inside ↦
          let e : ltb (suc (suc sib)) (suc (suc (length rest))) ≡ true = ground arith in
          rw (inside, e, same) refl
      | inr outside ↦
          let e : ltb (suc (suc sib)) (suc (suc (length rest))) ≡ false = ground arith in
          rw (outside, e, same) refl
    ]

-- Two nodes on, a proof node is that of the rest.
proof_node_shift :
    (x y : Bytes) (rest : List Bytes) (i : ℕ)
    → proof_node (x ∷ y ∷ rest) (suc (suc i)) ≡ proof_node rest i
unfolding proof_node
proof_node_shift x y rest i =
    ap (node_at (x ∷ y ∷ rest) (suc (suc (length rest))) (suc (suc i))) (sibling_shift i)
    ∙ node_at_shift x y rest i (sibling i)

module _ (sha256 : Bytes → Bytes) where
  pub length-next_level :
      (level : List Bytes) → length (create_next_merkle_level sha256 level) ≡ (length level + 1) / 2
  unfolding create_next_merkle_level
  length-next_level [] = omega arith
  length-next_level (l ∷ []) = omega arith
  length-next_level (l ∷ r ∷ rest) = omega (arith, length-next_level rest)

  pub next_level_at :
      (level : List Bytes) (i : ℕ)
      → i < length level
      → get_or (create_next_merkle_level sha256 level) (i / 2) []
        ≡ join_node sha256 (proof_node level i) (get_or level i [])
  unfolding create_next_merkle_level proof_node
  next_level_at [] i h = absurd (omega arith)
  next_level_at (l ∷ []) zero h = refl
  next_level_at (l ∷ []) (suc i) h = absurd (omega arith)
  next_level_at (l ∷ r ∷ rest) zero h =
      let e : ltb 1 (suc (suc (length rest))) ≡ true = ground arith in rw e refl
  next_level_at (l ∷ r ∷ rest) (suc zero) h =
      let e : ltb 0 (suc (suc (length rest))) ≡ true = ground arith in rw e refl
  next_level_at (l ∷ r ∷ rest) (suc (suc i)) h =
      let half : suc (suc i) / 2 ≡ suc (i / 2) = omega arith in
      rw half (
        next_level_at rest i (omega arith)
        ∙ ap (λ n. join_node sha256 n (get_or rest i [])) (sym (proof_node_shift l r rest i)))
