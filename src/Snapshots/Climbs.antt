-- ===== src/Snapshots/Climbs.antt =====
-- Two climbs of `verifyMerkleProof` of snapshot-cryptography.service.ts to one root.
use amazingchance.Base.{
  ◌≡◌, ◌≢◌, ◌⊎◌, refl, sym, ap, ◌∙◌, inl, inr, true, some, some-injective, List, [], ◌∷◌, ◌++◌, map,
  length, codes, ◌==◌, Bool-cases, arith,
}
use amazingchance.Snapshots.Cryptography.{
  Bytes, bytes_eq, CanonicalSnapshotEntry, MerkleProofSide, left, right, MerkleProofNode,
  is_sha256_hex, newline, create_parent_hash, create_leaf_hash, leaf_hash_of_serialized,
  serialize_entry, join_node, climb,
}
use amazingchance.Snapshots.Encoding.{split_length, serialize_entry-injective}

abbrev pub Collision : (Bytes → Bytes) → Type 0
Collision sha256 = (x : Bytes) × (y : Bytes) × (x ≢ y) × (sha256 x ≡ sha256 y)

pub bytes_eq_cases : (x y : Bytes) → (x ≡ y) ⊎ (x ≢ y)
bytes_eq_cases [] [] = inl refl
bytes_eq_cases [] (y ∷ ys) = inr (λ e. cc)
bytes_eq_cases (x ∷ xs) [] = inr (λ e. cc)
bytes_eq_cases (x ∷ xs) (y ∷ ys) = elim (Bool-cases (x == y)) [
  | inl same ↦
      let head : x ≡ y = ground arith in
      elim (bytes_eq_cases xs ys) [ inl e ↦ inl (cc) | inr n ↦ inr (λ e. n (cc)) ]
  | inr other ↦ inr (λ e. let head : x ≡ y = cc in ground arith)
]

pub bytes_eq-eq : (x y : Bytes) → bytes_eq x y ≡ true → x ≡ y
unfolding bytes_eq
bytes_eq-eq [] [] h = refl
bytes_eq-eq [] (y ∷ ys) h = cc
bytes_eq-eq (x ∷ xs) [] h = cc
bytes_eq-eq (x ∷ xs) (y ∷ ys) h =
    let head : x ≡ y = ground arith in let tail = bytes_eq-eq xs ys (ground arith) in cc

pub IsHex-length : (b : Bytes) → is_sha256_hex b ≡ true → length b ≡ 64
unfolding is_sha256_hex
IsHex-length b h = ground arith

-- The text that is hashed for a parent, and for a leaf.
abbrev parent_text : Bytes → Bytes → Bytes
parent_text l r = codes "NODE" ++ newline ∷ l ++ newline ∷ r

abbrev pub leaf_text : CanonicalSnapshotEntry → Bytes
leaf_text e = codes "LEAF" ++ newline ∷ serialize_entry e

abbrev join_text : MerkleProofSide → Bytes → Bytes → Bytes
join_text side hash a = elim side [ left ↦ parent_text hash a | right ↦ parent_text a hash ]

abbrev IsAmong : Bytes → List Bytes → Type 0
IsAmong x [] = ⊥
IsAmong x (y ∷ ys) = (x ≡ y) ⊎ IsAmong x ys

module _ (sha256 : Bytes → Bytes) where
  -- Two different texts with one digest.
  abbrev pub Collides : Bytes → Bytes → Type 0
  Collides x y = (x ≢ y) × (sha256 x ≡ sha256 y)

  -- The texts that a climb hashes, and those that the verification of an entry hashes.
  abbrev pub climb_texts : Bytes → List MerkleProofNode → List Bytes
  climb_texts hash [] = []
  climb_texts hash (n ∷ nodes) =
      join_text n.side n.hash hash ∷ climb_texts (join_node sha256 n hash) nodes

  abbrev pub verified_texts : CanonicalSnapshotEntry → List MerkleProofNode → List Bytes
  verified_texts e proof = leaf_text e ∷ climb_texts (create_leaf_hash sha256 e) proof

  -- A text of one list that collides with one of the other.
  abbrev pub CollideIn : List Bytes → List Bytes → Type 0
  CollideIn xs ys = (x : Bytes) × (y : Bytes) × (IsAmong x xs) × (IsAmong y ys) × Collides x y

  -- Two texts with one digest are the same or collide.
  pub same_or_Collides : (x y : Bytes) → sha256 x ≡ sha256 y → (x ≡ y) ⊎ Collides x y
  same_or_Collides x y e = elim (bytes_eq_cases x y) [
    | inl same ↦ inl same
    | inr other ↦ inr (other, e)
  ]

  pub same_or_Collision : (x y : Bytes) → sha256 x ≡ sha256 y → (x ≡ y) ⊎ Collision sha256
  same_or_Collision x y e = elim (same_or_Collides x y e) [
    | inl same ↦ inl same
    | inr (other, same_digest) ↦ inr (x, y, other, same_digest)
  ]

  pub parent_inputs :
      (l r l' r' : Bytes)
      → length l ≡ length l'
      → create_parent_hash sha256 l r ≡ create_parent_hash sha256 l' r'
      → ((l ≡ l') × (r ≡ r')) ⊎ Collides (parent_text l r) (parent_text l' r')
  unfolding create_parent_hash
  parent_inputs l r l' r' n e =
      elim (same_or_Collides (codes "NODE" ++ newline ∷ l ++ newline ∷ r)
        (codes "NODE" ++ newline ∷ l' ++ newline ∷ r') e) [
          | inl same ↦
              let inner =
                split_length (codes "NODE" ++ newline ∷ []) (codes "NODE" ++ newline ∷ [])
                  (l ++ newline ∷ r) (l' ++ newline ∷ r') refl same in
              let parts = split_length l l' (newline ∷ r) (newline ∷ r') n inner.1 in
              inl (parts.0, (split_length (newline ∷ []) (newline ∷ []) r r' refl parts.1).1)
          | inr found ↦ inr found
        ]

  pub leaf_inputs :
      (a b : CanonicalSnapshotEntry)
      → create_leaf_hash sha256 a ≡ create_leaf_hash sha256 b
      → (a ≡ b) ⊎ Collides (leaf_text a) (leaf_text b)
  unfolding create_leaf_hash leaf_hash_of_serialized
  leaf_inputs a b e =
      elim (same_or_Collides (codes "LEAF" ++ newline ∷ serialize_entry a)
        (codes "LEAF" ++ newline ∷ serialize_entry b) e) [
          | inl same ↦ inl (
              serialize_entry-injective a b
                (split_length (codes "LEAF" ++ newline ∷ []) (codes "LEAF" ++ newline ∷ [])
                  (serialize_entry a) (serialize_entry b) refl same).1)
          | inr found ↦ inr found
        ]

  abbrev pub join_at : MerkleProofSide → Bytes → Bytes → Bytes
  join_at side hash a = elim side [
    | left ↦ create_parent_hash sha256 hash a
    | right ↦ create_parent_hash sha256 a hash
  ]

  pub joined :
      (s : MerkleProofSide) (h k a b : Bytes)
      → is_sha256_hex h ≡ true
      → is_sha256_hex k ≡ true
      → is_sha256_hex a ≡ true
      → is_sha256_hex b ≡ true
      → join_at s h a ≡ join_at s k b
      → (a ≡ b) ⊎ Collides (join_text s h a) (join_text s k b)
  joined left h k a b x y u v e =
      elim (parent_inputs h a k b (IsHex-length h x ∙ sym (IsHex-length k y)) e) [
        | inl same ↦ inl same.1
        | inr found ↦ inr found
      ]
  joined right h k a b x y u v e =
      elim (parent_inputs a h b k (IsHex-length a u ∙ sym (IsHex-length b v)) e) [
        | inl same ↦ inl same.0
        | inr found ↦ inr found
      ]

  pub climb_cons :
      (hash root : Bytes) (node : MerkleProofNode) (nodes : List MerkleProofNode)
      → climb sha256 hash (node ∷ nodes) ≡ some root
      → (is_sha256_hex node.hash ≡ true)
        × (climb sha256 (join_node sha256 node hash) nodes ≡ some root)
  unfolding climb
  climb_cons hash root node nodes h = elim (Bool-cases (is_sha256_hex node.hash)) [
    | inl hex ↦ (hex, rw hex at h)
    | inr bad ↦ cc (rw bad at h)
  ]

module _ (sha256 : Bytes → Bytes) (hex : (b : Bytes) → is_sha256_hex (sha256 b) ≡ true) where
  pub join_at-IsHex :
      (s : MerkleProofSide) (h a : Bytes) → is_sha256_hex (join_at sha256 s h a) ≡ true
  unfolding create_parent_hash
  join_at-IsHex left h a = hex _
  join_at-IsHex right h a = hex _

  -- Two climbs over the same sides to one root start at one hash, or two texts that they hash collide.
  pub climb-binding :
      (p q : List MerkleProofNode) (a b root : Bytes)
      → map (λ (n : MerkleProofNode). n.side) p ≡ map (λ (n : MerkleProofNode). n.side) q
      → is_sha256_hex a ≡ true
      → is_sha256_hex b ≡ true
      → climb sha256 a p ≡ some root
      → climb sha256 b q ≡ some root
      → (a ≡ b) ⊎ CollideIn sha256 (climb_texts sha256 a p) (climb_texts sha256 b q)
  climb-binding [] [] a b root s u v h k = unfold climb in inl (some-injective _ _ (h ∙ sym k))
  climb-binding [] (n ∷ q) a b root s u v h k = cc
  climb-binding (m ∷ p) [] a b root s u v h k = cc
  climb-binding (m ∷ p) (n ∷ q) a b root s u v h k =
      let (x, h1) = climb_cons sha256 a root m p h in
      let (y, k1) = climb_cons sha256 b root n q k in
      elim (climb-binding p q (join_node sha256 m a) (join_node sha256 n b) root (cc)
        (join_at-IsHex m.side m.hash a) (join_at-IsHex n.side n.hash b) h1 k1) [
          | inl same ↦
              elim (joined sha256 m.side m.hash n.hash a b x y u v
                (same ∙ ap (λ t. join_at sha256 t n.hash b) (cc))) [
                  | inl start ↦ inl start
                  | inr found ↦ inr (
                    join_text m.side m.hash a,
                    join_text m.side n.hash b,
                    inl refl,
                    inl (ap (λ t. join_text t n.hash b) (cc)),
                    found,
                  )
                ]
          | inr (s, t, among, among', found) ↦ inr (s, t, inr among, inr among', found)
        ]
