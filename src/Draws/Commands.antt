-- ===== src/Draws/Commands.antt =====
-- Requests to lottery-draws.service.ts and rounds of weekly-draw-sales.service.ts, one after another.
use amazingchance.Base.{
  ℕ, ◌≡◌, ◌⊎◌, refl, inl, inr, String, some, List, [], ◌∷◌, find, Outcome, ok, err, sym, ◌∙◌,
}
use amazingchance.Draws.Types.{
  DrawStatus, published, cancelled, sales_open, sales_closed, scheduled, LotteryDraw, has_id,
}
use amazingchance.Draws.Service.{CreateLotteryDrawDto, UpdateLotteryDrawDto, create}
use amazingchance.Draws.Transitions.{update, open_sales, close_sales, cancel}
use amazingchance.Draws.Publication.{DrawWinner, DrawTicket, NotificationOutbox, publish}
use amazingchance.Draws.WeeklySales.{reconcile}
use amazingchance.Draws.Lifecycle.{
  Reaches, stays, moves, Step, Follows-same, Follows-trans, Keeps, AreUnique,
  transition_status-Keeps, opens_from, closes_from, cancels_from,
}
use amazingchance.Draws.Runs.{create-Keeps, update-Keeps, publish-Keeps, reconcile-Keeps}

-- A request or a round, with the clock and the id of a new row.
pub data Command : Type 0 where
  creating : String → ℕ → CreateLotteryDrawDto → Command
  updating : ℕ → String → UpdateLotteryDrawDto → Command
  opening closing cancelling : ℕ → String → Command
  publishing : ℕ → String → List DrawWinner → List DrawTicket → List NotificationOutbox → Command
  reconciling : String → ℕ → Command

-- The table that a command leaves; one that throws leaves it as it is.
abbrev kept : {A : Type 0} → List LotteryDraw → Outcome (List LotteryDraw × A) → List LotteryDraw
kept rows (ok p) = p.0
kept rows (err e) = rows

abbrev published_rows :
    List LotteryDraw
    → Outcome ((List LotteryDraw × List NotificationOutbox) × LotteryDraw)
    → List LotteryDraw
published_rows rows (ok p) = p.0.0
published_rows rows (err e) = rows

unfoldable pub run : Command → List LotteryDraw → List LotteryDraw
unfolding create update open_sales close_sales cancel publish reconcile
run (creating id now dto) rows = kept rows (create id now rows dto)
run (updating now id dto) rows = kept rows (update now rows id dto)
run (opening now id) rows = kept rows (open_sales now rows id)
run (closing now id) rows = kept rows (close_sales now rows id)
run (cancelling now id) rows = kept rows (cancel now rows id)
run (publishing now id winners tickets outbox) rows =
    published_rows rows (publish now winners tickets (rows, outbox) id)
run (reconciling id now) rows = kept rows (reconcile id now rows)

unfoldable pub runs : List Command → List LotteryDraw → List LotteryDraw
unfolding run
runs [] rows = rows
runs (c ∷ cs) rows = runs cs (run c rows)

kept-Keeps :
    {A : Type 0} (rows : List LotteryDraw) (m : Outcome (List LotteryDraw × A))
    → AreUnique rows
    → ((u : List LotteryDraw) (a : A) → m ≡ ok (u, a) → Keeps rows u)
    → Keeps rows (kept rows m)
kept-Keeps rows (ok p) v h = h p.0 p.1 refl
kept-Keeps rows (err e) v h = (v, Follows-same rows)

published_rows-Keeps :
    (rows : List LotteryDraw)
    (m : Outcome ((List LotteryDraw × List NotificationOutbox) × LotteryDraw))
    → AreUnique rows
    → ((u : List LotteryDraw) (o : List NotificationOutbox) (d : LotteryDraw)
        → m ≡ ok ((u, o), d)
        → Keeps rows u)
    → Keeps rows (published_rows rows m)
published_rows-Keeps rows (ok p) v h = h p.0.0 p.0.1 p.1 refl
published_rows-Keeps rows (err e) v h = (v, Follows-same rows)

run-Keeps : (c : Command) (rows : List LotteryDraw) → AreUnique rows → Keeps rows (run c rows)
unfolding run open_sales close_sales cancel
run-Keeps (creating id now dto) rows v =
    kept-Keeps rows (create id now rows dto) v (λ u d. create-Keeps id now rows dto v)
run-Keeps (updating now id dto) rows v =
    kept-Keeps rows (update now rows id dto) v (λ u d. update-Keeps now rows id dto v)
run-Keeps (opening now id) rows v =
    kept-Keeps rows (open_sales now rows id) v
      (λ u d. transition_status-Keeps now rows id (scheduled ∷ []) sales_open opens_from v)
run-Keeps (closing now id) rows v =
    kept-Keeps rows (close_sales now rows id) v
      (λ u d. transition_status-Keeps now rows id (sales_open ∷ []) sales_closed closes_from v)
run-Keeps (cancelling now id) rows v = kept-Keeps rows (cancel now rows id) v (λ u d.
    transition_status-Keeps now rows id (scheduled ∷ sales_open ∷ []) cancelled cancels_from v)
run-Keeps (publishing now id winners tickets outbox) rows v =
    published_rows-Keeps rows (publish now winners tickets (rows, outbox) id) v
      (λ u o d. publish-Keeps now winners tickets rows outbox id v)
run-Keeps (reconciling id now) rows v =
    kept-Keeps rows (reconcile id now rows) v (λ u d. reconcile-Keeps id now rows v)

-- Any sequence of requests and rounds keeps the keys of the table unique, loses no draw, and changes
-- a draw's status by steps of the state machine alone.
pub runs-Keeps :
    (cs : List Command) (rows : List LotteryDraw) → AreUnique rows → Keeps rows (runs cs rows)
unfolding runs
runs-Keeps [] rows v = (v, Follows-same rows)
runs-Keeps (c ∷ cs) rows v =
    let first = run-Keeps c rows v in
    let rest = runs-Keeps cs (run c rows) first.0 in
    (rest.0, Follows-trans rows (run c rows) (runs cs (run c rows)) first.1 rest.1)

from_cancelled : {s t : DrawStatus} → Reaches s t → s ≡ cancelled → t ≡ cancelled
from_cancelled stays e = e
from_cancelled (moves Step.opened r) e = cc
from_cancelled (moves Step.closed r) e = cc
from_cancelled (moves Step.expired r) e = cc
from_cancelled (moves Step.called_off r) e = cc
from_cancelled (moves Step.stopped r) e = cc
from_cancelled (moves Step.announced r) e = cc

from_published : {s t : DrawStatus} → Reaches s t → s ≡ published → t ≡ published
from_published stays e = e
from_published (moves Step.opened r) e = cc
from_published (moves Step.closed r) e = cc
from_published (moves Step.expired r) e = cc
from_published (moves Step.called_off r) e = cc
from_published (moves Step.stopped r) e = cc
from_published (moves Step.announced r) e = cc

-- A draw that is cancelled or published stays so, whatever requests and rounds follow.
pub runs-final :
    (cs : List Command) (rows : List LotteryDraw) (id : String) (d : LotteryDraw)
    → AreUnique rows
    → find (has_id id) rows ≡ some d
    → (d.status ≡ cancelled) ⊎ (d.status ≡ published)
    → (e : LotteryDraw) × (find (has_id id) (runs cs rows) ≡ some e) × (e.status ≡ d.status)
runs-final cs rows id d v found (inl c) =
    let (e, there, r) = (runs-Keeps cs rows v).1 id d found in
    (e, there, from_cancelled r c ∙ sym c)
runs-final cs rows id d v found (inr p) =
    let (e, there, r) = (runs-Keeps cs rows v).1 id d found in
    (e, there, from_published r p ∙ sym p)
