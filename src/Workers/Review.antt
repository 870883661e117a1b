-- ===== src/Workers/Review.antt =====
-- `failClosedDomainConflict` of automated-draw-lifecycle.service.ts.
use amazingchance.Base.{
  ℕ, String, ◌≡◌, refl, ap, ◌∙◌, Bool, true, false, some, List, [], ◌∷◌, find, find-passes,
  find-update_where, any, count-found, count-found_not, count_where, ◌==◌, Outcome, err, conflict,
  if◌then◌else◌,
}
use amazingchance.Draws.Types.{LotteryDraw, DrawStatus, manual_review, same_status, has_id}
use amazingchance.Draws.Transitions.{at_status, with_status}
use amazingchance.Workers.Lifecycle.{
  AutomatedDrawLifecycleAction, AutomatedDrawLifecycleResult, draw_stage_to_manual_review,
  draw_state_changed, Services, did, to_review, fail_closed_domain_conflict, after_stage,
}

module _ {W : Type 0} (services : Services W) where
  -- What became of a draw whose stage threw a conflict: it is in manual review, if it still had the
  -- status of the stage, and as it was otherwise.
  pub record IsClosed (now : ℕ) (id : String) (stage : DrawStatus) (d : LotteryDraw) (u : W)
      (m : Outcome AutomatedDrawLifecycleResult) : Type 0 where
    pub reviewed :
        same_status d.status stage ≡ true
        → (m ≡ did services draw_stage_to_manual_review id)
          × (find (has_id id) (services.draws u) ≡ some (with_status now manual_review d))
    pub left :
        same_status d.status stage ≡ false
        → (m ≡ did services draw_state_changed id) × (find (has_id id) (services.draws u) ≡ some d)

module _ {W : Type 0} (services : Services W)
    (written : (ds : List LotteryDraw) (w : W)
      → services.draws (services.with_draws ds w) ≡ ds) where
  module _ (now : ℕ) (id : String) (stage : DrawStatus) (d : LotteryDraw) (w : W)
      (at_draw : find (has_id id) (services.draws w) ≡ some d)
      (one_draw : count_where (has_id id) (services.draws w) ≡ 1) where
    abbrev closes : LotteryDraw → Bool
    closes = at_status id (stage ∷ [])

    abbrev closed : W
    closed = to_review services now closes w

    after :
        find (has_id id) (services.draws closed)
        ≡ some (if closes d then with_status now manual_review d else d)
    after =
        ap (find (has_id id)) (written _ w)
        ∙ find-update_where (has_id id) closes (with_status now manual_review) (services.draws w)
            (λ x. refl) at_draw

    -- If the other draws have other ids, and the draws that are written are read again, a conflict
    -- never leaves the draw to be tried again: it goes to manual review, unless its status has changed.
    pub after_stage-IsClosed :
        (success : AutomatedDrawLifecycleAction) (message : String)
        → let p = after_stage services now id stage success (w, err (conflict message)) in
          IsClosed services now id stage d p.0 p.1
    unfolding after_stage fail_closed_domain_conflict
    after_stage-IsClosed success message = record {
      reviewed = λ same.
          let one : count_where closes (services.draws w) ≡ 1 =
            count-found (has_id id) (λ x. any (same_status x.status) (stage ∷ []))
              (services.draws w) one_draw at_draw (rw same refl) in
          let counted : (count_where closes (services.draws w) == 1) ≡ true = rw one refl in
          rw counted
            (refl, after ∙ rw (find-passes (has_id id) (services.draws w) at_draw, same) refl);
      left = λ differs.
          let there : find (has_id id) (services.draws closed) ≡ some d =
            after ∙ rw (find-passes (has_id id) (services.draws w) at_draw, differs) refl in
          let none_left : count_where closes (services.draws w) ≡ 0 =
            count-found_not (has_id id) (λ x. any (same_status x.status) (stage ∷ []))
              (services.draws w) one_draw at_draw (rw differs refl) in
          let counted : (count_where closes (services.draws w) == 1) ≡ false = rw none_left refl in
          rw counted (rw (there, differs) (refl, there));
    }
