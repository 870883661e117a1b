-- ===== src/Payments/Tables.antt =====
-- The rows that payment-orchestrator.service.ts reads and writes. A purchase carries the email of its
-- user and the public id of its draw, which the code joins.
use amazingchance.Base.{ℕ, ℤ, String, Bool, true, false, Option, List, ◌==◌, str_eq}
use amazingchance.Draws.Types.{LotteryDraw}
use amazingchance.Finance.Allocation.{AllocationRule}
use amazingchance.Ledger.Types.{LedgerTables}
use amazingchance.Tickets.Allocation.{TicketTables}

pub data PurchaseStatus : Type 0 where
  created payment_pending payment_confirmed ticket_allocation_pending completed : PurchaseStatus
  payment_failed expired cancelled manual_review refund_pending refunded : PurchaseStatus

abbrev status_code : PurchaseStatus → ℕ
status_code created = 0
status_code payment_pending = 1
status_code payment_confirmed = 2
status_code ticket_allocation_pending = 3
status_code completed = 4
status_code payment_failed = 5
status_code expired = 6
status_code cancelled = 7
status_code manual_review = 8
status_code refund_pending = 9
status_code refunded = 10

abbrev pub same_purchase_status : PurchaseStatus → PurchaseStatus → Bool
same_purchase_status a b = status_code a == status_code b

pub data PaymentStatus : Type 0 where
  created pending succeeded failed cancelled manual_review : PaymentStatus
  refund_pending partially_refunded refunded : PaymentStatus

abbrev pub has_succeeded : PaymentStatus → Bool
has_succeeded succeeded = true
has_succeeded _ = false

pub record Purchase : Type 0 where
  pub id : String
  pub public_id : String
  pub user_id : String
  pub user_email : String
  pub draw_id : String
  pub draw_public_id : String
  pub status : PurchaseStatus
  pub requested_ticket_count : ℕ
  pub total_amount_minor : ℤ
  pub currency : String
  pub payment_confirmed_at : Option ℕ
  pub completed_at : Option ℕ

pub record Payment : Type 0 where
  pub id : String
  pub purchase_id : String
  pub status : PaymentStatus
  pub amount_minor : ℤ
  pub currency : String
  pub confirmed_at : Option ℕ
  pub created_at : ℕ

pub record Ticket : Type 0 where
  pub public_id : String
  pub user_id : String
  pub purchase_id : String
  pub draw_id : String
  pub number_in_draw : ℕ

-- A row of `purchase_state_events`, without its metadata.
pub record PurchaseStateEvent : Type 0 where
  pub purchase_id : String
  pub from_status : PurchaseStatus
  pub to_status : PurchaseStatus
  pub cause : String
  pub correlation_id : String
  pub sealed_at : Option ℕ

-- The notification of a completed purchase.
pub record PurchaseNotification : Type 0 where
  pub idempotency_key : String
  pub recipient_email : String
  pub purchase_public_id : String
  pub draw_public_id : String
  pub ticket_numbers : List ℕ

pub record PaymentTables : Type 0 where
  pub payments : List Payment
  pub purchases : List Purchase
  pub draws : List LotteryDraw
  pub rules : List AllocationRule
  pub ledger : LedgerTables
  pub ranges : TicketTables
  pub tickets : List Ticket
  pub events : List PurchaseStateEvent
  pub outbox : List PurchaseNotification

abbrev pub is_payment : String → Payment → Bool
is_payment id p = str_eq p.id id

abbrev pub is_purchase : String → Purchase → Bool
is_purchase id p = str_eq p.id id

abbrev pub of_purchase : String → Ticket → Bool
of_purchase purchase_id t = str_eq t.purchase_id purchase_id

pub record ConfirmPaymentResult : Type 0 where
  pub purchase_id : String
  pub payment_id : String
  pub ledger_transaction_id : String
  pub allocation_ledger_transaction_id : String
  pub allocation_rule_version : ℤ
  pub ticket_count : ℕ
  pub already_processed : Bool
