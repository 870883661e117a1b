-- ===== src/Draws/Types.antt =====
-- A row of `lottery_draws`. A date is a number of milliseconds.
use amazingchance.Base.{
  ℕ, List, String, ◌≡◌, refl, sym, ap, ◌∙◌, ◌↔◌, Bool, true, Option, ◌==◌, ==_iff, str_eq,
  if◌then◌else◌,
}

pub data DrawType : Type 0 where
  weekly annual : DrawType

pub data DrawStatus : Type 0 where
  scheduled sales_open sales_closed snapshot_building snapshot_finalized : DrawStatus
  randomness_pending randomness_verified winner_selection_pending completed published : DrawStatus
  manual_review failed cancelled : DrawStatus

abbrev type_code : DrawType → ℕ
type_code weekly = 0
type_code annual = 1

abbrev pub same_draw_type : DrawType → DrawType → Bool
same_draw_type a b = type_code a == type_code b

abbrev status_code : DrawStatus → ℕ
status_code scheduled = 0
status_code sales_open = 1
status_code sales_closed = 2
status_code snapshot_building = 3
status_code snapshot_finalized = 4
status_code randomness_pending = 5
status_code randomness_verified = 6
status_code winner_selection_pending = 7
status_code completed = 8
status_code published = 9
status_code manual_review = 10
status_code failed = 11
status_code cancelled = 12

abbrev pub same_status : DrawStatus → DrawStatus → Bool
same_status a b = status_code a == status_code b

status_of : ℕ → DrawStatus
status_of n =
    if n == 0
    then scheduled
    else if n == 1
    then sales_open
    else if n == 2
    then sales_closed
    else if n == 3
    then snapshot_building
    else if n == 4
    then snapshot_finalized
    else if n == 5
    then randomness_pending
    else if n == 6
    then randomness_verified
    else if n == 7
    then winner_selection_pending
    else if n == 8
    then completed
    else if n == 9
    then published
    else if n == 10
    then manual_review
    else if n == 11
    then failed
    else cancelled

status_of-status_code : (s : DrawStatus) → status_of (status_code s) ≡ s
unfolding status_of
status_of-status_code scheduled = refl
status_of-status_code _ = refl

pub same_status_iff : (a b : DrawStatus) → (same_status a b ≡ true) ↔ (a ≡ b)
same_status_iff a b = (
  λ h.
      sym (status_of-status_code a)
      ∙ ap status_of ((==_iff (status_code a) (status_code b)).0 h)
      ∙ status_of-status_code b,
  λ e. (==_iff (status_code a) (status_code b)).1 (ap status_code e),
)

pub record LotteryDraw : Type 0 where
  pub id : String
  pub public_id : List ℕ
  pub type : DrawType
  pub status : DrawStatus
  pub sequence_number : ℕ
  pub participation_year : Option ℕ
  pub sales_open_at : Option ℕ
  pub sales_close_at : Option ℕ
  pub scheduled_draw_at : ℕ
  pub completed_at : Option ℕ
  pub published_at : Option ℕ
  pub updated_at : ℕ
  pub created_at : ℕ
  pub currency : String
  pub ticket_price_minor : ℕ
  pub winner_count : ℕ

abbrev pub has_id : String → LotteryDraw → Bool
has_id id d = str_eq d.id id
