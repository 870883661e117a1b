-- ===== src/Workers/Tests.antt =====
-- A world of one draw whose sales are closed, and the theorems at it.
use amazingchance.Base.{◌≡◌, refl, List, [], ◌∷◌, ok, err, conflict, Outcome, String}
use amazingchance.Draws.Types.{LotteryDraw, sales_closed, snapshot_building, manual_review}
use amazingchance.Draws.Tests.{draw}
use amazingchance.Workers.Lifecycle.{
  snapshot_built, Services, AutomatedDrawLifecycleResult, is_due, first_by, after_stage,
  after_publish, fail_closed_domain_conflict, run_stage, process_due, process_next, did,
}
use amazingchance.Workers.Progress.{Progresses, process_next-Progresses}
use amazingchance.Workers.Review.{IsClosed, after_stage-IsClosed}

abbrev World : Type 0
World = List LotteryDraw

abbrev closed_draw : LotteryDraw
closed_draw = record draw { status = sales_closed }

abbrev refuses : String → World → World × Outcome (Unit {0})
refuses id w = (w, err (conflict "refused"))

-- Snapshots are built, and nothing else is done.
abbrev services : Services World
services = record {
  draws = λ w. w;
  with_draws = λ ds w. ds;
  build = λ id w. (record closed_draw { status = snapshot_building } ∷ [], ok tt);
  finalize_snapshot = refuses;
  request_and_verify = refuses;
  finalize_winners = refuses;
  publish = refuses;
}

builds :
    process_next services 9 (closed_draw ∷ [])
    ≡ (record closed_draw { status = snapshot_building } ∷ [], did services snapshot_built "d1")
unfolding process_next process_due first_by is_due run_stage after_stage
builds = refl

reviews : process_next services 9 (record closed_draw { status = snapshot_building } ∷ []) ≡ (
  record closed_draw { status = manual_review; updated_at = 9 } ∷ [],
  did services amazingchance.Workers.Lifecycle.draw_stage_to_manual_review "d1",
)
unfolding process_next process_due first_by is_due run_stage after_stage fail_closed_domain_conflict
reviews = refl

process_next-Progresses_example : Progresses services 9 (closed_draw ∷ [])
unfolding is_due
process_next-Progresses_example =
    process_next-Progresses services 9 (closed_draw ∷ []) (refl, tt) refl

after_stage-IsClosed_example :
    IsClosed services 9 "d1" sales_closed closed_draw
      (after_stage services 9 "d1" sales_closed snapshot_built
        (closed_draw ∷ [], err (conflict "refused"))).0
      (after_stage services 9 "d1" sales_closed snapshot_built
        (closed_draw ∷ [], err (conflict "refused"))).1
after_stage-IsClosed_example =
    after_stage-IsClosed services (λ ds w. refl) 9 "d1" sales_closed closed_draw (closed_draw ∷ [])
      refl refl snapshot_built "refused"
