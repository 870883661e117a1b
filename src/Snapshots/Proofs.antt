-- ===== src/Snapshots/Proofs.antt =====
-- The loop of `createMerkleProof` of snapshot-cryptography.service.ts against the climb of
-- `verifyMerkleProof`.
use amazingchance.Base.{
  ℕ, zero, suc, ◌/◌, ◌≤◌, ◌<◌, ◌≡◌, refl, ap, inl, inr, true, some, List, [], ◌∷◌, map, length,
  get_or, ltb, All, Bool-cases, arith,
}
use amazingchance.Snapshots.Cryptography.{
  Bytes, bytes_eq, CanonicalSnapshotEntry, is_sha256_hex, create_parent_hash, create_leaf_hash,
  leaf_hash_of_serialized, create_next_merkle_level, merkle_loop, proof_node, proof_loop, climb,
}
use amazingchance.Snapshots.Levels.{length-next_level, next_level_at}

abbrev IsHex : Bytes → Type 0
IsHex b = is_sha256_hex b ≡ true

pub bytes_eq_refl : (b : Bytes) → bytes_eq b b ≡ true
unfolding bytes_eq
bytes_eq_refl [] = refl
bytes_eq_refl (x ∷ xs) = ground (arith, bytes_eq_refl xs)

pub All-get_or :
    (level : List Bytes) (i : ℕ) → All IsHex level → i < length level → IsHex (get_or level i [])
All-get_or [] i h lt = absurd (omega arith)
All-get_or (x ∷ xs) zero h lt = h.0
All-get_or (x ∷ xs) (suc i) h lt = All-get_or xs i h.1 (omega arith)

proof_node-IsHex :
    (level : List Bytes) (i : ℕ)
    → All IsHex level
    → i < length level
    → IsHex (proof_node level i).hash
unfolding proof_node
proof_node-IsHex level i h lt = All-get_or level _ h (ground arith)

module _ (sha256 : Bytes → Bytes) (hex : (b : Bytes) → is_sha256_hex (sha256 b) ≡ true) where
  pub next_level-IsHex : (level : List Bytes) → All IsHex (create_next_merkle_level sha256 level)
  unfolding create_next_merkle_level create_parent_hash
  next_level-IsHex [] = tt
  next_level-IsHex (l ∷ []) = (hex _, tt)
  next_level-IsHex (l ∷ r ∷ rest) = (hex _, next_level-IsHex rest)

  pub leaves-IsHex :
      (entries : List CanonicalSnapshotEntry) → All IsHex (map (create_leaf_hash sha256) entries)
  unfolding create_leaf_hash leaf_hash_of_serialized
  leaves-IsHex [] = tt
  leaves-IsHex (e ∷ es) = (hex _, leaves-IsHex es)

  pub proof_loop-level :
      (fuel : ℕ) (level : List Bytes) (i : ℕ)
      → (proof_loop sha256 fuel level i).1 ≡ merkle_loop sha256 fuel level
  unfolding proof_loop merkle_loop
  proof_loop-level zero level i = refl
  proof_loop-level (suc fuel) level i = elim (Bool-cases (ltb 1 (length level))) [
    | inl more ↦ rw more (proof_loop-level fuel (create_next_merkle_level sha256 level) (i / 2))
    | inr done ↦ rw done refl
  ]

  -- The nodes of a proof lead from a node of a level to the root over that level.
  pub climb-proof_loop :
      (fuel : ℕ) (level : List Bytes) (i : ℕ)
      → All IsHex level
      → i < length level
      → length level ≤ fuel
      → climb sha256 (get_or level i []) (proof_loop sha256 fuel level i).0
        ≡ some (get_or (merkle_loop sha256 fuel level) 0 [])
  unfolding proof_loop merkle_loop climb
  climb-proof_loop zero level i h lt enough = absurd (omega arith)
  climb-proof_loop (suc fuel) level i h lt enough = elim (Bool-cases (ltb 1 (length level))) [
    | inl more ↦
        let next = create_next_merkle_level sha256 level in
        let size = length-next_level sha256 level in
        let several : 1 < length level = ground arith in
        rw more (
          rw (proof_node-IsHex level i h lt) (
            rw (← next_level_at sha256 level i lt) (
              climb-proof_loop fuel next (i / 2) (next_level-IsHex level) (omega arith)
                (omega arith))))
    | inr done ↦
        let first : i ≡ 0 = ground arith in rw done (ap (λ n. some (get_or level n [])) first)
  ]
