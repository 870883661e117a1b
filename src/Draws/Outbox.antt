-- ===== src/Draws/Outbox.antt =====
-- The outbox and the participants of `publish` of lottery-draws.service.ts.
use amazingchance.Base.{
  ◌≡◌, subst, inl, inr, String, true, false, ◌||◌, List, [], ◌∷◌, any, str_eq, str_eq_refl, eq_iff,
  if◌then◌else◌, All, Bool-cases, arith,
}
use amazingchance.Draws.Publication.{
  DrawTicket, IdempotencyKey, draw_winner, draw_published, NotificationOutbox, same_key, has_key,
  set_participant, participants, create_many,
}

pub same_key_refl : (k : IdempotencyKey) → same_key k k ≡ true
same_key_refl (draw_winner a b) = ground (arith, str_eq_refl a, str_eq_refl b)
same_key_refl (draw_published a b) = ground (arith, str_eq_refl a, str_eq_refl b)

-- A notification with the key waits in the outbox.
abbrev pub Waits : List NotificationOutbox → IdempotencyKey → Type 0
Waits outbox key = any (has_key key) outbox ≡ true

pub create_many-old :
    (ns outbox : List NotificationOutbox) (k : IdempotencyKey)
    → Waits outbox k
    → Waits (create_many ns outbox) k
unfolding create_many
create_many-old [] outbox k h = h
create_many-old (n ∷ ns) outbox k h = elim (Bool-cases (any (has_key n.idempotency_key) outbox)) [
  | inl there ↦ rw there (create_many-old ns outbox k h)
  | inr new ↦ rw new (create_many-old ns (n ∷ outbox) k (ground (arith, h)))
]

pub create_many-new :
    (ns outbox : List NotificationOutbox)
    → All (λ n. Waits (create_many ns outbox) n.idempotency_key) ns
unfolding create_many
create_many-new [] outbox = tt
create_many-new (n ∷ ns) outbox =
    let next = if any (has_key n.idempotency_key) outbox then outbox else n ∷ outbox in
    let waits : Waits next n.idempotency_key =
      elim (Bool-cases (any (has_key n.idempotency_key) outbox)) [
        | inl there ↦ rw there there
        | inr new ↦ rw new (ground (arith, same_key_refl n.idempotency_key))
      ] in
    (create_many-old ns next n.idempotency_key waits, create_many-new ns next)

-- The keys of the outbox differ.
abbrev pub HasKeysOnce : List NotificationOutbox → Type 0
HasKeysOnce [] = Unit
HasKeysOnce (n ∷ ns) = (any (has_key n.idempotency_key) ns ≡ false) × HasKeysOnce ns

pub create_many-HasKeysOnce :
    (ns outbox : List NotificationOutbox) → HasKeysOnce outbox → HasKeysOnce (create_many ns outbox)
unfolding create_many
create_many-HasKeysOnce [] outbox h = h
create_many-HasKeysOnce (n ∷ ns) outbox h =
    elim (Bool-cases (any (has_key n.idempotency_key) outbox)) [
      | inl there ↦ rw there (create_many-HasKeysOnce ns outbox h)
      | inr new ↦ rw new (create_many-HasKeysOnce ns (n ∷ outbox) (new, h))
    ]

-- A user among the participants.
abbrev pub IsIn : String → List (String × String) → Type 0
IsIn id ps = any (λ p. str_eq p.0 id) ps ≡ true

pub set_participant-IsIn :
    (id email : String) (ps : List (String × String)) → IsIn id (set_participant id email ps)
unfolding set_participant
set_participant-IsIn id email [] = ground (arith, str_eq_refl id)
set_participant-IsIn id email (p ∷ ps) = elim (Bool-cases (str_eq p.0 id)) [
  | inl this ↦ rw this (ground (arith, str_eq_refl id))
  | inr other ↦ rw (other, other) (set_participant-IsIn id email ps)
]

pub set_participant-other :
    (id email other_id : String) (ps : List (String × String))
    → IsIn other_id ps
    → IsIn other_id (set_participant id email ps)
unfolding set_participant
set_participant-other id email other_id [] h = cc
set_participant-other id email other_id (p ∷ ps) h = elim (Bool-cases (str_eq p.0 id)) [
  | inl this ↦
      let same = (eq_iff p.0 id).0 this in
      rw this (subst (λ i. (str_eq i other_id || any (λ q. str_eq q.0 other_id) ps) ≡ true) same h)
  | inr other ↦ rw other (ground (arith, set_participant-other id email other_id ps))
]

pub participants-old :
    (ts : List DrawTicket) (by_id : List (String × String)) (id : String)
    → IsIn id by_id
    → IsIn id (participants ts by_id)
unfolding participants
participants-old [] by_id id h = h
participants-old (t ∷ ts) by_id id h =
    participants-old ts (set_participant t.user_id t.user_email by_id) id
      (set_participant-other t.user_id t.user_email id by_id h)

pub participants-IsIn :
    (ts : List DrawTicket) (by_id : List (String × String))
    → All (λ t. IsIn t.user_id (participants ts by_id)) ts
unfolding participants
participants-IsIn [] by_id = tt
participants-IsIn (t ∷ ts) by_id = (
  participants-old ts (set_participant t.user_id t.user_email by_id) t.user_id
      (set_participant-IsIn t.user_id t.user_email by_id),
  participants-IsIn ts (set_participant t.user_id t.user_email by_id),
)
