-- ===== src/Snapshots/Binding.antt =====
-- Proofs that `verifyMerkleProof` of snapshot-cryptography.service.ts accepts, and snapshot hashes,
-- against the entries that were committed to.
use amazingchance.Base.{
  ℕ, suc, ◌<◌, ◌≡◌, ◌⊎◌, refl, sym, ap, subst, ◌∙◌, inl, inr, true, some, List, [], ◌∷◌, ◌++◌, map,
  length, get_or, get_elem?, zero, codes, Bool-cases, Option-cases, arith, ok,
}
use amazingchance.Snapshots.Cryptography.{
  Bytes, CanonicalSnapshotEntry, MerkleProofNode, MerkleProofResult, is_sha256_hex, newline,
  create_leaf_hash, to_decimal, join, create_merkle_proof, climb, verify_merkle_proof,
  create_commitment,
}
use amazingchance.Snapshots.Encoding.{split_length, lines, join-lines, counted_lines-injective}
use amazingchance.Snapshots.Completeness.{
  verify_merkle_proof-create_merkle_proof, create_merkle_proof_lem,
}
use amazingchance.Snapshots.Climbs.{
  Collision, CollideIn, verified_texts, leaf_text, bytes_eq-eq, same_or_Collision, leaf_inputs,
  climb-binding,
}

verified :
    (sha256 : Bytes → Bytes) (leaf root : Bytes) (proof : List MerkleProofNode)
    → verify_merkle_proof sha256 leaf proof root ≡ true
    → (is_sha256_hex leaf ≡ true) × (climb sha256 leaf proof ≡ some root)
unfolding verify_merkle_proof
verified sha256 leaf root proof h = elim (Bool-cases (is_sha256_hex leaf)) [
  | inr bad ↦ cc (rw bad at h)
  | inl good ↦ elim (Bool-cases (is_sha256_hex root)) [
    | inr bad ↦ cc (rw (good, bad) at h)
    | inl fine ↦ elim (Option-cases (climb sha256 leaf proof)) [
      | inl stuck ↦ cc (rw (good, fine, stuck) at h)
      | inr (top, reached) ↦
          (good, reached ∙ ap some (bytes_eq-eq top root (rw (good, fine, reached) at h)))
    ]
  ]
]

entry_at :
    (sha256 : Bytes → Bytes) (entries : List CanonicalSnapshotEntry) (i : ℕ)
    → i < length entries
    → (e : CanonicalSnapshotEntry) × (get_elem? entries i ≡ some e)
      × (get_or (map (create_leaf_hash sha256) entries) i [] ≡ create_leaf_hash sha256 e)
entry_at sha256 [] i h = absurd (omega arith)
entry_at sha256 (x ∷ xs) zero h = (x, refl, refl)
entry_at sha256 (x ∷ xs) (suc i) h = entry_at sha256 xs i (omega arith)

-- With a hash function of 64 hexadecimal digits: whoever gets an entry accepted against the root of
-- a snapshot's commitment, by a proof whose sides are those of the committed entry at an index,
-- has that very entry, or one of the texts that are hashed to verify it collides with one of those
-- that are hashed to verify the committed entry by its own proof.
pub verify_merkle_proof-binding :
    (sha256 : Bytes → Bytes) (canonical_format draw_id : Bytes)
    (entries : List CanonicalSnapshotEntry) (i : ℕ) (claimed : CanonicalSnapshotEntry)
    (proof : List MerkleProofNode) {p : MerkleProofResult}
    → ((b : Bytes) → is_sha256_hex (sha256 b) ≡ true)
    → create_merkle_proof sha256 entries i ≡ ok p
    → map (λ (n : MerkleProofNode). n.side) proof ≡ map (λ (n : MerkleProofNode). n.side) p.proof
    → verify_merkle_proof sha256
        (create_leaf_hash sha256 claimed)
        proof
        (create_commitment sha256 canonical_format draw_id entries).merkle_root
      ≡ true
    → (get_elem? entries i ≡ some claimed)
      ⊎ ((e : CanonicalSnapshotEntry) × (get_elem? entries i ≡ some e)
          × CollideIn sha256
              (verified_texts sha256 claimed proof)
              (verified_texts sha256 e p.proof))
verify_merkle_proof-binding sha256 canonical_format draw_id entries i claimed proof {p} hex h sides
      v =
    let root = (create_commitment sha256 canonical_format draw_id entries).merkle_root in
    let (inside, _, leaf_eq, _, _) = create_merkle_proof_lem sha256 hex entries i h in
    let (e, there, leaf_at) = entry_at sha256 entries i inside in
    let leaf_is : p.leaf_hash ≡ create_leaf_hash sha256 e = leaf_eq ∙ leaf_at in
    let honest =
      (verify_merkle_proof-create_merkle_proof sha256 hex canonical_format draw_id entries i h).1 in
    let (a, climbed) = verified sha256 (create_leaf_hash sha256 claimed) root proof v in
    let (b, reached) = verified sha256 p.leaf_hash root p.proof honest in
    elim (climb-binding sha256 hex proof p.proof (create_leaf_hash sha256 claimed)
      (create_leaf_hash sha256 e) root sides a (subst (λ l. is_sha256_hex l ≡ true) leaf_is b)
      climbed (subst (λ l. climb sha256 l p.proof ≡ some root) leaf_is reached)) [
        | inr (s, t, among, among', found) ↦ inr (e, there, (s, t, inr among, inr among', found))
        | inl same ↦ elim (leaf_inputs sha256 claimed e same) [
          | inl equal ↦ inl (there ∙ ap some (sym equal))
          | inr found ↦ inr (e, there, (leaf_text claimed, leaf_text e, inl refl, inl refl, found))
        ]
      ]

canonical_snapshot_lem :
    (sha256 : Bytes → Bytes) (canonical_format draw_id : Bytes)
    (entries : List CanonicalSnapshotEntry)
    → (create_commitment sha256 canonical_format draw_id entries).canonical_snapshot
      ≡ canonical_format
        ++ (newline ∷ (draw_id ++ (newline ∷ (to_decimal (length entries) ++ lines entries))))
unfolding create_commitment join
canonical_snapshot_lem sha256 canonical_format draw_id entries =
    ap (λ s. canonical_format ++ (newline ∷ (draw_id ++ (newline ∷ s))))
      (join-lines (to_decimal (length entries)) entries)

same_snapshot :
    (sha256 : Bytes → Bytes) (canonical_format draw_id : Bytes)
    (xs ys : List CanonicalSnapshotEntry)
    → (create_commitment sha256 canonical_format draw_id xs).canonical_snapshot
      ≡ (create_commitment sha256 canonical_format draw_id ys).canonical_snapshot
    → xs ≡ ys
same_snapshot sha256 f d xs ys e =
    let whole =
      sym (canonical_snapshot_lem sha256 f d xs) ∙ e ∙ canonical_snapshot_lem sha256 f d ys in
    let count_x = to_decimal (length xs) ++ lines xs in
    let count_y = to_decimal (length ys) ++ lines ys in
    let past_format =
      (split_length f f (newline ∷ (d ++ (newline ∷ count_x)))
        (newline ∷ (d ++ (newline ∷ count_y))) refl whole).1 in
    let past_draw =
      (split_length (newline ∷ d) (newline ∷ d) (newline ∷ count_x) (newline ∷ count_y) refl
        past_format).1 in
    let counted = (split_length (newline ∷ []) (newline ∷ []) count_x count_y refl past_draw).1 in
    counted_lines-injective (length xs) (length ys) xs ys counted

-- Two snapshots of one draw in one format whose commitments have one snapshot hash have the same
-- entries, in the same order, or two different texts with one digest are found.
pub snapshot_hash-binding :
    (sha256 : Bytes → Bytes) (canonical_format draw_id : Bytes)
    (xs ys : List CanonicalSnapshotEntry)
    → (create_commitment sha256 canonical_format draw_id xs).snapshot_hash
      ≡ (create_commitment sha256 canonical_format draw_id ys).snapshot_hash
    → (xs ≡ ys) ⊎ Collision sha256
unfolding create_commitment
snapshot_hash-binding sha256 f d xs ys e =
    elim (same_or_Collision sha256
      (codes "SNAPSHOT" ++ newline ∷ (create_commitment sha256 f d xs).canonical_snapshot)
      (codes "SNAPSHOT" ++ newline ∷ (create_commitment sha256 f d ys).canonical_snapshot) e) [
        | inl same ↦ inl (
            same_snapshot sha256 f d xs ys
              (split_length (codes "SNAPSHOT" ++ newline ∷ []) (codes "SNAPSHOT" ++ newline ∷ [])
                (create_commitment sha256 f d xs).canonical_snapshot
                (create_commitment sha256 f d ys).canonical_snapshot refl same).1)
        | inr found ↦ inr found
      ]
