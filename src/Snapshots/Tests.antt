-- ===== src/Snapshots/Tests.antt =====
-- The commitment to two tickets under a digest that is easy to compute, and the theorems at it.
use amazingchance.Snapshots.Climbs.{CollideIn, verified_texts}
use amazingchance.Base.{
  ℕ, ◌+◌, ◌%◌, ◌≡◌, refl, ◌⊎◌, true, some, List, [], ◌∷◌, get_elem?, arith, codes, ok, err,
  range_error,
}
use amazingchance.Snapshots.Cryptography.{
  Bytes, CanonicalSnapshotEntry, MerkleProofResult, left, is_sha256_hex, create_leaf_hash,
  create_parent_hash, leaf_hash_of_serialized, create_merkle_proof, create_merkle_root,
  create_next_merkle_level, merkle_loop, proof_loop, proof_node, verify_merkle_proof, climb,
  create_commitment, serialize_entry, encode_field, to_decimal, digits_of, join, bytes_eq,
}
use amazingchance.Snapshots.Completeness.{create_merkle_proof-accepted}
use amazingchance.Snapshots.Binding.{verify_merkle_proof-binding}

abbrev sum_of : Bytes → ℕ
sum_of [] = 0
sum_of (b ∷ bs) = b + sum_of bs

abbrev zeros : Bytes
zeros = codes "000000000000000000000000000000000000000000000000000000000000000"

-- 64 digits, the first of them the last one of the sum of the bytes.
abbrev pub digest : Bytes → Bytes
digest b = (b'0' + sum_of b % 10) ∷ zeros

pub digest_hex : (b : Bytes) → is_sha256_hex (digest b) ≡ true
unfolding is_sha256_hex
digest_hex b = ground arith

abbrev pub first_ticket : CanonicalSnapshotEntry
first_ticket = record {
  position = 1;
  ticket_public_id = codes "T-1";
  owner_public_ref = codes "o|1";
}

abbrev pub second_ticket : CanonicalSnapshotEntry
second_ticket = record {
  position = 2;
  ticket_public_id = codes "T-2";
  owner_public_ref = codes "o2";
}

abbrev pub tickets : List CanonicalSnapshotEntry
tickets = first_ticket ∷ second_ticket ∷ []

-- The length of a field tells a bar in it from the bar behind it.
first_text : serialize_entry first_ticket ≡ codes "1|3:T-1|3:o|1"
unfolding serialize_entry encode_field to_decimal digits_of join
first_text = refl

number_text : to_decimal 1024 ≡ codes "1024"
unfolding to_decimal digits_of
number_text = refl

abbrev second_proof : MerkleProofResult
second_proof = record {
  leaf_hash = create_leaf_hash digest second_ticket;
  leaf_index = 1;
  merkle_root =
      create_parent_hash digest (create_leaf_hash digest first_ticket)
        (create_leaf_hash digest second_ticket);
  proof = record { hash = create_leaf_hash digest first_ticket; side = left } ∷ [];
}

second_proof_made : create_merkle_proof digest tickets 1 ≡ ok second_proof
unfolding create_merkle_proof proof_loop proof_node create_next_merkle_level
second_proof_made = refl

no_third_proof :
    create_merkle_proof digest tickets 2
    ≡ err (range_error "Merkle proof leaf index is out of range")
unfolding create_merkle_proof
no_third_proof = refl

create_merkle_proof-accepted_example :
    (p : MerkleProofResult) × (create_merkle_proof digest tickets 1 ≡ ok p)
    × (p.leaf_hash ≡ create_leaf_hash digest second_ticket)
    × (p.merkle_root ≡ (create_commitment digest (codes "v1") (codes "d") tickets).merkle_root)
    × (verify_merkle_proof digest p.leaf_hash p.proof p.merkle_root ≡ true)
create_merkle_proof-accepted_example =
    create_merkle_proof-accepted digest digest_hex (codes "v1") (codes "d") tickets 1 second_ticket
      refl

second_accepted :
    verify_merkle_proof digest
      (create_leaf_hash digest second_ticket)
      second_proof.proof
      (create_commitment digest (codes "v1") (codes "d") tickets).merkle_root
    ≡ true
unfolding verify_merkle_proof climb create_commitment create_merkle_root merkle_loop
    create_next_merkle_level create_leaf_hash leaf_hash_of_serialized create_parent_hash
    is_sha256_hex bytes_eq serialize_entry encode_field to_decimal digits_of join
second_accepted = refl

verify_merkle_proof-binding_example :
    (get_elem? tickets 1 ≡ some second_ticket)
    ⊎ ((e : CanonicalSnapshotEntry) × (get_elem? tickets 1 ≡ some e)
        × CollideIn digest
            (verified_texts digest second_ticket second_proof.proof)
            (verified_texts digest e second_proof.proof))
verify_merkle_proof-binding_example =
    verify_merkle_proof-binding digest (codes "v1") (codes "d") tickets 1 second_ticket
      second_proof.proof digest_hex second_proof_made refl second_accepted
