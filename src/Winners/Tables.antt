-- ===== src/Winners/Tables.antt =====
-- The rows that winner-selection.service.ts reads and writes.
use amazingchance.Base.{ℕ, ℤ, String, Bool, Option, List, ◌==◌, str_eq}
use amazingchance.Draws.Types.{LotteryDraw}
use amazingchance.Ledger.Types.{LedgerTables}
use amazingchance.Prizes.Distribution.{PrizeDistributionRule}
use amazingchance.Snapshots.Cryptography.{Bytes}
use amazingchance.Snapshots.Finalizer.{LockedSnapshotRow}
use amazingchance.Winners.Selection.{Value}

pub data RandomnessStatus : Type 0 where
  created requested received verified rejected failed : RandomnessStatus

abbrev status_code : RandomnessStatus → ℕ
status_code created = 0
status_code requested = 1
status_code received = 2
status_code verified = 3
status_code rejected = 4
status_code failed = 5

abbrev pub same_randomness_status : RandomnessStatus → RandomnessStatus → Bool
same_randomness_status a b = status_code a == status_code b

pub data PrizeStatus : Type 0 where
  created claim_pending approved payout_pending paid withheld cancelled : PrizeStatus

-- A row of `randomness_evidence`. Its positions are JSON: an array, or another value (`some none`).
pub record RandomnessEvidence : Type 0 where
  pub id : String
  pub draw_id : String
  pub attempt_number : ℕ
  pub status : RandomnessStatus
  pub requested_min : ℤ
  pub requested_max : ℤ
  pub requested_count : ℕ
  pub response_hash : Option Bytes
  pub provider_signature : Option Bytes
  pub signature_verified : Option Bool
  pub random_positions : Option (Option (List Value))
  pub verified_at : Option ℕ

-- A row of `ticket_snapshot_entries`, with what a winner shows of it.
pub record SnapshotEntry : Type 0 where
  pub id : String
  pub snapshot_id : String
  pub ticket_id : String
  pub position : ℤ
  pub ticket_public_id : String
  pub owner_public_ref : String

-- A row of `tickets`.
pub record TicketOwner : Type 0 where
  pub id : String
  pub user_id : String

-- A row of `draw_winners`.
pub record DrawWinner : Type 0 where
  pub id : String
  pub draw_id : String
  pub ticket_id : String
  pub snapshot_entry_id : String
  pub rank : ℕ
  pub random_position : ℤ

-- A row of `prizes`.
pub record Prize : Type 0 where
  pub id : String
  pub draw_id : String
  pub winner_id : String
  pub user_id : String
  pub rank : ℕ
  pub amount_minor : ℤ
  pub currency : String
  pub distribution_rule_version : Option ℕ
  pub share_bps : Option ℕ
  pub status : PrizeStatus

pub record WinnerTables : Type 0 where
  pub draws : List LotteryDraw
  pub snapshots : List LockedSnapshotRow
  pub entries : List SnapshotEntry
  pub randomness : List RandomnessEvidence
  pub tickets : List TicketOwner
  pub rules : List PrizeDistributionRule
  pub winners : List DrawWinner
  pub prizes : List Prize
  pub ledger : LedgerTables

abbrev pub winner_of_draw : String → DrawWinner → Bool
winner_of_draw draw_id w = str_eq w.draw_id draw_id

abbrev pub prize_of_draw : String → Prize → Bool
prize_of_draw draw_id p = str_eq p.draw_id draw_id
