-- ===== src/Snapshots/Cryptography.antt =====
-- SnapshotCryptographyService of snapshot-cryptography.service.ts. A text is the list of its UTF-8
-- bytes, which is what is hashed and measured. `sha256`, the hexadecimal digest of node:crypto, is
-- a parameter.
use amazingchance.Base.{
  ℕ, zero, suc, ◌+◌, ◌-◌, ◌/◌, ◌%◌, Bool, true, false, not, ◌&&◌, ◌||◌, Option, none, some, List,
  [], ◌∷◌, ◌++◌, map, length, get_or, ltb, leb, ◌==◌, codes, all_codes, if◌then◌else◌, Outcome, ok,
  range_error, ◌>>◌, throw_if,
}

abbrev pub Bytes : Type 0
Bytes = List ℕ

-- `===` on texts.
unfoldable pub bytes_eq : Bytes → Bytes → Bool
bytes_eq [] [] = true
bytes_eq (x ∷ xs) (y ∷ ys) = x == y && bytes_eq xs ys
bytes_eq _ _ = false

pub record CanonicalSnapshotEntry : Type 0 where
  pub position : ℕ
  pub ticket_public_id : Bytes
  pub owner_public_ref : Bytes

pub data MerkleProofSide : Type 0 where
  left right : MerkleProofSide

pub record MerkleProofNode : Type 0 where
  pub hash : Bytes
  pub side : MerkleProofSide

pub record SnapshotCommitment : Type 0 where
  pub canonical_snapshot : Bytes
  pub snapshot_hash : Bytes
  pub merkle_root : Bytes
  pub leaf_hashes : List Bytes

pub record MerkleProofResult : Type 0 where
  pub leaf_hash : Bytes
  pub leaf_index : ℕ
  pub merkle_root : Bytes
  pub proof : List MerkleProofNode

-- The decimal digits of a number, with fuel above it.
unfoldable pub digits_of : ℕ → ℕ → Bytes
digits_of zero n = []
digits_of (suc fuel) n =
    let more = digits_of fuel (n / 10) ++ (b'0' + n % 10) ∷ [] in
    if ltb n 10 then (b'0' + n) ∷ [] else more

-- `n.toString(10)`
unfoldable pub to_decimal : ℕ → Bytes
unfolding digits_of
to_decimal n = digits_of (suc n) n

-- `join`
unfoldable pub join : ℕ → List Bytes → Bytes
join separator [] = []
join separator (x ∷ []) = x
join separator (x ∷ y ∷ ys) = x ++ separator ∷ join separator (y ∷ ys)

unfoldable pub encode_field : Bytes → Bytes
encode_field value = to_decimal (length value) ++ b':' ∷ value

abbrev pub bar : ℕ
bar = 124

abbrev pub newline : ℕ
newline = 10

unfoldable pub serialize_entry : CanonicalSnapshotEntry → Bytes
unfolding join
serialize_entry e =
    join bar (
      to_decimal e.position
      ∷ encode_field e.ticket_public_id
      ∷ encode_field e.owner_public_ref
      ∷ [])

abbrev is_hex : ℕ → Bool
is_hex c = (leb b'0' c && leb c b'9') || (leb b'a' c && leb c b'f')

-- `/^[0-9a-f]{64}$/.test(value)`
unfoldable pub is_sha256_hex : Bytes → Bool
is_sha256_hex value = length value == 64 && all_codes is_hex value

-- The proof node of one round.
unfoldable pub proof_node : List Bytes → ℕ → MerkleProofNode
proof_node level index =
    let sibling = if index % 2 == 1 then index - 1 else index + 1 in
    record {
      hash = get_or level (if ltb sibling (length level) then sibling else index) [];
      side = if index % 2 == 1 then left else right;
    }

module _ (sha256 : Bytes → Bytes) where
  unfoldable pub create_parent_hash : Bytes → Bytes → Bytes
  create_parent_hash l r = sha256 (codes "NODE" ++ newline ∷ l ++ newline ∷ r)

  unfoldable pub leaf_hash_of_serialized : Bytes → Bytes
  leaf_hash_of_serialized s = sha256 (codes "LEAF" ++ newline ∷ s)

  unfoldable pub create_leaf_hash : CanonicalSnapshotEntry → Bytes
  create_leaf_hash e = leaf_hash_of_serialized (serialize_entry e)

  unfoldable pub create_next_merkle_level : List Bytes → List Bytes
  create_next_merkle_level [] = []
  create_next_merkle_level (l ∷ []) = create_parent_hash l l ∷ []
  create_next_merkle_level (l ∷ r ∷ rest) = create_parent_hash l r ∷ create_next_merkle_level rest

  -- `while (level.length > 1) level = createNextMerkleLevel(level)`
  unfoldable pub merkle_loop : ℕ → List Bytes → List Bytes
  merkle_loop zero level = level
  merkle_loop (suc fuel) level =
      let next = merkle_loop fuel (create_next_merkle_level level) in
      if ltb 1 (length level) then next else level

  -- Each round shortens the level, so its length is fuel enough.
  unfoldable pub create_merkle_root : List Bytes → Bytes
  create_merkle_root [] = sha256 (codes "MERKLE_EMPTY")
  create_merkle_root (l ∷ ls) = get_or (merkle_loop (length (l ∷ ls)) (l ∷ ls)) 0 []

  -- The loop of `createMerkleProof`: the nodes that it pushes and the level that it ends with.
  unfoldable pub proof_loop : ℕ → List Bytes → ℕ → List MerkleProofNode × List Bytes
  proof_loop zero level index = ([], level)
  proof_loop (suc fuel) level index =
      let (proof, last) = proof_loop fuel (create_next_merkle_level level) (index / 2) in
      if ltb 1 (length level) then (proof_node level index ∷ proof, last) else ([], level)

  unfoldable pub create_merkle_proof : List CanonicalSnapshotEntry → ℕ → Outcome MerkleProofResult
  unfolding create_leaf_hash
  create_merkle_proof entries leaf_index =
      let leaf_hashes = map create_leaf_hash entries in
      let (proof, last) = proof_loop (length leaf_hashes) leaf_hashes leaf_index in
      throw_if (not (ltb leaf_index (length entries)))
        (range_error "Merkle proof leaf index is out of range")
      >> ok (record {
        leaf_hash = get_or leaf_hashes leaf_index [];
        leaf_index = leaf_index;
        merkle_root = get_or last 0 [];
        proof = proof;
      })

  abbrev pub join_node : MerkleProofNode → Bytes → Bytes
  join_node node hash = elim node.side [
    | left ↦ create_parent_hash node.hash hash
    | right ↦ create_parent_hash hash node.hash
  ]

  -- The loop of `verifyMerkleProof`; `none` where it returns false.
  unfoldable pub climb : Bytes → List MerkleProofNode → Option Bytes
  climb hash [] = some hash
  climb hash (node ∷ nodes) =
      let rest = climb (join_node node hash) nodes in if is_sha256_hex node.hash then rest else none

  unfoldable pub verify_merkle_proof : Bytes → List MerkleProofNode → Bytes → Bool
  unfolding climb
  verify_merkle_proof leaf_hash proof expected_merkle_root =
      if not (is_sha256_hex leaf_hash) || not (is_sha256_hex expected_merkle_root)
      then false
      else elim (climb leaf_hash proof) [
        | none ↦ false
        | some hash ↦ bytes_eq hash expected_merkle_root
      ]

  unfoldable pub create_commitment :
      Bytes → Bytes → List CanonicalSnapshotEntry → SnapshotCommitment
  unfolding create_merkle_root leaf_hash_of_serialized
  create_commitment canonical_format draw_id entries =
      let canonical_entries = map serialize_entry entries in
      let canonical_snapshot =
        join newline
          (canonical_format ∷ draw_id ∷ to_decimal (length entries) ∷ canonical_entries) in
      let leaf_hashes = map leaf_hash_of_serialized canonical_entries in
      record {
        canonical_snapshot = canonical_snapshot;
        snapshot_hash = sha256 (codes "SNAPSHOT" ++ newline ∷ canonical_snapshot);
        merkle_root = create_merkle_root leaf_hashes;
        leaf_hashes = leaf_hashes;
      }
