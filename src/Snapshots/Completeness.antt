-- ===== src/Snapshots/Completeness.antt =====
-- `createMerkleProof` against `createCommitment` and `verifyMerkleProof`: snapshot-cryptography.service.ts.
use amazingchance.Base.{
  ℕ, zero, suc, ◌<◌, ◌≡◌, refl, sym, ap, ◌∙◌, inl, inr, true, not, some, List, [], ◌∷◌, map, length,
  length-map, get_or, get_elem?, some-injective, ltb, All, Bool-cases, arith, ok, ok-injective,
  >>=-eq-ok, throw_if, throw_if-eq-ok,
}
use amazingchance.Snapshots.Cryptography.{
  Bytes, CanonicalSnapshotEntry, MerkleProofNode, MerkleProofResult, is_sha256_hex,
  create_leaf_hash, leaf_hash_of_serialized, create_next_merkle_level, merkle_loop,
  create_merkle_root, proof_loop, create_merkle_proof, climb, verify_merkle_proof,
  create_commitment, serialize_entry,
}
use amazingchance.Snapshots.Levels.{length-next_level}
use amazingchance.Snapshots.Proofs.{
  bytes_eq_refl, All-get_or, next_level-IsHex, leaves-IsHex, proof_loop-level, climb-proof_loop,
}

-- A commitment's leaf hashes are those of the entries.
leaves_eq :
    (sha256 : Bytes → Bytes) (entries : List CanonicalSnapshotEntry)
    → map (leaf_hash_of_serialized sha256) (map serialize_entry entries)
      ≡ map (create_leaf_hash sha256) entries
unfolding create_leaf_hash
leaves_eq sha256 [] = refl
leaves_eq sha256 (e ∷ es) = ap (◌∷◌ (create_leaf_hash sha256 e)) (leaves_eq sha256 es)

module _ (sha256 : Bytes → Bytes) (hex : (b : Bytes) → is_sha256_hex (sha256 b) ≡ true) where
  root_of_level :
      (l : Bytes) (ls : List Bytes)
      → create_merkle_root sha256 (l ∷ ls)
        ≡ get_or (merkle_loop sha256 (length (l ∷ ls)) (l ∷ ls)) 0 []
  unfolding create_merkle_root
  root_of_level l ls = refl

  root_of :
      (level : List Bytes)
      → 0 < length level
      → create_merkle_root sha256 level ≡ get_or (merkle_loop sha256 (length level) level) 0 []
  root_of [] h = absurd (omega arith)
  root_of (l ∷ ls) h = root_of_level l ls

  merkle_loop-IsHex :
      (fuel : ℕ) (level : List Bytes)
      → All (λ b. is_sha256_hex b ≡ true) level
      → All (λ b. is_sha256_hex b ≡ true) (merkle_loop sha256 fuel level)
  unfolding merkle_loop
  merkle_loop-IsHex zero level h = h
  merkle_loop-IsHex (suc fuel) level h = elim (Bool-cases (ltb 1 (length level))) [
    | inl more ↦ rw more (
        merkle_loop-IsHex fuel (create_next_merkle_level sha256 level)
          (next_level-IsHex sha256 hex level))
    | inr done ↦ rw done h
  ]

  merkle_loop-nonempty :
      (fuel : ℕ) (level : List Bytes)
      → 0 < length level
      → 0 < length (merkle_loop sha256 fuel level)
  unfolding merkle_loop
  merkle_loop-nonempty zero level h = h
  merkle_loop-nonempty (suc fuel) level h = elim (Bool-cases (ltb 1 (length level))) [
    | inl more ↦ rw more (
        merkle_loop-nonempty fuel (create_next_merkle_level sha256 level)
          (omega (arith, length-next_level sha256 level)))
    | inr done ↦ rw done h
  ]

  pub create_merkle_root-IsHex :
      (level : List Bytes)
      → All (λ b. is_sha256_hex b ≡ true) level
      → is_sha256_hex (create_merkle_root sha256 level) ≡ true
  unfolding create_merkle_root
  create_merkle_root-IsHex [] h = hex _
  create_merkle_root-IsHex (l ∷ ls) h =
      let fuel = length (l ∷ ls) in
      All-get_or (merkle_loop sha256 fuel (l ∷ ls)) 0 (merkle_loop-IsHex fuel (l ∷ ls) h)
        (merkle_loop-nonempty fuel (l ∷ ls) (omega arith))

  pub create_merkle_proof_lem :
      (entries : List CanonicalSnapshotEntry) (i : ℕ) {p : MerkleProofResult}
      → create_merkle_proof sha256 entries i ≡ ok p
      → (i < length entries)
        × (p.leaf_index ≡ i)
        × (p.leaf_hash ≡ get_or (map (create_leaf_hash sha256) entries) i [])
        × (p.proof
            ≡ (proof_loop sha256
                (length (map (create_leaf_hash sha256) entries))
                (map (create_leaf_hash sha256) entries)
                i).0)
        × (p.merkle_root
            ≡ get_or
                (merkle_loop sha256
                  (length (map (create_leaf_hash sha256) entries))
                  (map (create_leaf_hash sha256) entries))
                0
                [])
  unfolding create_merkle_proof
  create_merkle_proof_lem entries i {p} h =
      let leaves = map (create_leaf_hash sha256) entries in
      let (_, a, e) = >>=-eq-ok (throw_if (not (ltb i (length entries))) _) _ h in
      let inside = throw_if-eq-ok (not (ltb i (length entries))) _ a in
      let same = sym (ok-injective e) in
      (
        ground arith,
        ap (λ q. q.leaf_index) same,
        ap (λ q. q.leaf_hash) same,
        ap (λ q. q.proof) same,
        ap (λ q. q.merkle_root) same
            ∙ ap (λ l. get_or l 0 []) (proof_loop-level sha256 hex (length leaves) leaves i),
      )

  pub commitment_root :
      (canonical_format draw_id : Bytes) (entries : List CanonicalSnapshotEntry)
      → (create_commitment sha256 canonical_format draw_id entries).merkle_root
        ≡ create_merkle_root sha256 (map (create_leaf_hash sha256) entries)
  unfolding create_commitment
  commitment_root canonical_format draw_id entries =
      ap (create_merkle_root sha256) (leaves_eq sha256 entries)

  accepted :
      (leaf root : Bytes) (proof : List MerkleProofNode)
      → is_sha256_hex leaf ≡ true
      → is_sha256_hex root ≡ true
      → climb sha256 leaf proof ≡ some root
      → verify_merkle_proof sha256 leaf proof root ≡ true
  unfolding verify_merkle_proof
  accepted leaf root proof a b c = rw (a, b, c) (bytes_eq_refl root)

  pub verify_merkle_proof-create_merkle_proof :
      (canonical_format draw_id : Bytes) (entries : List CanonicalSnapshotEntry) (i : ℕ)
      {p : MerkleProofResult}
      → create_merkle_proof sha256 entries i ≡ ok p
      → (p.merkle_root ≡ (create_commitment sha256 canonical_format draw_id entries).merkle_root)
        × (verify_merkle_proof sha256 p.leaf_hash p.proof
              (create_commitment sha256 canonical_format draw_id entries).merkle_root
            ≡ true)
  verify_merkle_proof-create_merkle_proof canonical_format draw_id entries i {p} h =
      let leaves = map (create_leaf_hash sha256) entries in
      let fuel = length leaves in
      let (inside, _, leaf_eq, proof_eq, root_eq) = create_merkle_proof_lem entries i h in
      let lt : i < length leaves =
        omega (arith, inside, length-map (create_leaf_hash sha256) entries) in
      let hexes = leaves-IsHex sha256 hex entries in
      let root = get_or (merkle_loop sha256 fuel leaves) 0 [] in
      let committed : (create_commitment sha256 canonical_format draw_id entries).merkle_root
          ≡ root =
        commitment_root canonical_format draw_id entries ∙ root_of leaves (omega arith) in
      let root_hex =
        All-get_or (merkle_loop sha256 fuel leaves) 0 (merkle_loop-IsHex fuel leaves hexes)
          (merkle_loop-nonempty fuel leaves (omega arith)) in
      (
        root_eq ∙ sym committed,
        rw (committed, leaf_eq, proof_eq)
            (accepted (get_or leaves i []) root (proof_loop sha256 fuel leaves i).0
              (All-get_or leaves i hexes lt) root_hex
              (climb-proof_loop sha256 hex fuel leaves i hexes lt (omega arith))),
      )

  leaf_at :
      (entries : List CanonicalSnapshotEntry) (i : ℕ) (e : CanonicalSnapshotEntry)
      → get_elem? entries i ≡ some e
      → (i < length entries)
        × (get_or (map (create_leaf_hash sha256) entries) i [] ≡ create_leaf_hash sha256 e)
  leaf_at [] i e h = cc
  leaf_at (x ∷ xs) zero e h = (omega arith, ap (create_leaf_hash sha256) (some-injective _ _ h))
  leaf_at (x ∷ xs) (suc i) e h = let r = leaf_at xs i e h in (omega (arith, r.0), r.1)

  inside_proof :
      (entries : List CanonicalSnapshotEntry) (i : ℕ)
      → i < length entries
      → (p : MerkleProofResult) × (create_merkle_proof sha256 entries i ≡ ok p)
  unfolding create_merkle_proof
  inside_proof entries i h =
      let inside : ltb i (length entries) ≡ true = ground arith in
      let leaves = map (create_leaf_hash sha256) entries in
      let walked = proof_loop sha256 (length leaves) leaves i in
      let p : MerkleProofResult = record {
        leaf_hash = get_or leaves i [];
        leaf_index = i;
        merkle_root = get_or walked.1 0 [];
        proof = walked.0;
      } in
      (p, rw inside refl)

  -- With a hash function of 64 hexadecimal digits: `createMerkleProof` returns a proof for each
  -- index of the snapshot, with the leaf hash of the entry there and the root of the snapshot's
  -- commitment, and `verifyMerkleProof` accepts that proof against that root.
  pub create_merkle_proof-accepted :
      (canonical_format draw_id : Bytes) (entries : List CanonicalSnapshotEntry) (i : ℕ)
      (e : CanonicalSnapshotEntry)
      → get_elem? entries i ≡ some e
      → (p : MerkleProofResult) × (create_merkle_proof sha256 entries i ≡ ok p)
        × (p.leaf_hash ≡ create_leaf_hash sha256 e)
        × (p.merkle_root ≡ (create_commitment sha256 canonical_format draw_id entries).merkle_root)
        × (verify_merkle_proof sha256 p.leaf_hash p.proof p.merkle_root ≡ true)
  create_merkle_proof-accepted canonical_format draw_id entries i e h =
      let (inside, leaf) = leaf_at entries i e h in
      let (p, made) = inside_proof entries i inside in
      let (_, _, leaf_eq, _, _) = create_merkle_proof_lem entries i made in
      let (root, v) =
        verify_merkle_proof-create_merkle_proof canonical_format draw_id entries i made in
      (p, made, leaf_eq ∙ leaf, root, rw root v)
