-- ===== src/Workers/Progress.antt =====
-- What `processNext` of automated-draw-lifecycle.service.ts does for the draws that are due.
use amazingchance.Base.{
  ℕ, ◌≤◌, String, ◌≡◌, refl, sym, ap, subst, Bool, true, false, not, ◌||◌, Option, none, some, [],
  ◌∷◌, filter, find, any, count_where, All, Misses, ◌==◌, arith, Outcome, ok, err, Exception,
  conflict, ok-injective, if_found, if◌then◌else◌, bad_request, not_found, range_error, plain_error,
}
use amazingchance.Draws.Types.{
  LotteryDraw, DrawStatus, scheduled, sales_open, sales_closed, snapshot_building,
  snapshot_finalized, randomness_pending, randomness_verified, winner_selection_pending, completed,
  published, manual_review, failed, cancelled, same_status, has_id,
}
use amazingchance.Draws.Transitions.{at_status}
use amazingchance.Draws.Runs.{Mem}
use amazingchance.Workers.Lifecycle.{
  AutomatedDrawLifecycleAction, draw_stage_to_manual_review, draw_state_changed, draw_published,
  draw_already_published, AutomatedDrawLifecycleResult, Services, is_stale, is_due, Processed, did,
  to_review, fail_closed_domain_conflict, after_stage, after_publish, run_stage, process_due,
  process_next,
}
use amazingchance.Workers.Queue.{first_by_lem, first_by-none, first_by-some}

-- A status that the worker has a stage for.
abbrev is_stage : DrawStatus → Bool
is_stage s =
    any (same_status s) (
      sales_closed ∷ snapshot_building ∷ randomness_verified ∷ winner_selection_pending ∷ completed
      ∷ [])
    || same_status s snapshot_finalized

due-is_stage : (now : ℕ) (d : LotteryDraw) → is_due now d ≡ true → is_stage d.status ≡ true
unfolding is_due
due-is_stage now d h = ground arith

module _ {W : Type 0} (services : Services W) where
  -- A result that is returned tells of work.
  abbrev IsProcessed : Processed services → Type 0
  IsProcessed p = (r : AutomatedDrawLifecycleResult) → p.1 ≡ ok r → r.processed ≡ true

  did-IsProcessed :
      (w : W) (a : AutomatedDrawLifecycleAction) (id : String) → IsProcessed (w, did services a id)
  did-IsProcessed w a id r h = ap (λ x. x.processed) (sym (ok-injective h))

  err-IsProcessed : (w : W) (e : Exception) → IsProcessed (w, err e)
  err-IsProcessed w e r h = cc h

  if-IsProcessed :
      (b : Bool) (p q : Processed services)
      → IsProcessed p
      → IsProcessed q
      → IsProcessed (if b then p else q)
  if-IsProcessed true p q h k = h
  if-IsProcessed false p q h k = k

  found-IsProcessed :
      (o : Option LotteryDraw) (hit : LotteryDraw → Processed services) (miss : Processed services)
      → ((d : LotteryDraw) → IsProcessed (hit d))
      → IsProcessed miss
      → IsProcessed (if_found o hit miss)
  found-IsProcessed none hit miss h k = k
  found-IsProcessed (some d) hit miss h k = h d

  fail_closed-IsProcessed :
      (now : ℕ) (id : String) (s : DrawStatus) (e : Exception) (w : W)
      → IsProcessed (fail_closed_domain_conflict services now id s e w)
  unfolding fail_closed_domain_conflict
  fail_closed-IsProcessed now id s e w =
      let w' = to_review services now (at_status id (s ∷ [])) w in
      if-IsProcessed (count_where (at_status id (s ∷ [])) (services.draws w) == 1) _ _
        (did-IsProcessed w' draw_stage_to_manual_review id)
        (found-IsProcessed (find (has_id id) (services.draws w')) _ _
          (λ d.
            if-IsProcessed (same_status d.status s) _ _ (err-IsProcessed w' e)
              (did-IsProcessed w' draw_state_changed id))
          (err-IsProcessed w' e))

  after_stage-IsProcessed :
      (now : ℕ) (id : String) (s : DrawStatus) (a : AutomatedDrawLifecycleAction) (w : W)
      (m : Outcome (Unit {0}))
      → IsProcessed (after_stage services now id s a (w, m))
  unfolding after_stage
  after_stage-IsProcessed now id s a w (ok done) r h = did-IsProcessed w a id r h
  after_stage-IsProcessed now id s a w (err (conflict m)) r h =
      fail_closed-IsProcessed now id s (conflict m) w r h
  after_stage-IsProcessed now id s a w (err (bad_request m)) r h = cc h
  after_stage-IsProcessed now id s a w (err (not_found m)) r h = cc h
  after_stage-IsProcessed now id s a w (err (range_error m)) r h = cc h
  after_stage-IsProcessed now id s a w (err (plain_error m)) r h = cc h

  after_publish-IsProcessed :
      (now : ℕ) (id : String) (w : W) (m : Outcome (Unit {0}))
      → IsProcessed (after_publish services now id (w, m))
  unfolding after_publish
  after_publish-IsProcessed now id w (ok done) = did-IsProcessed w draw_published id
  after_publish-IsProcessed now id w (err e) =
      found-IsProcessed (find (has_id id) (services.draws w)) _ _
        (λ d.
          if-IsProcessed (same_status d.status published) _ _
            (did-IsProcessed w draw_already_published id)
            (if-IsProcessed _ _ _ (fail_closed-IsProcessed now id completed e w) (
              if-IsProcessed (not (same_status d.status completed)) _ _
                (did-IsProcessed w draw_state_changed id) (err-IsProcessed w e))))
        (err-IsProcessed w e)

  run_stage-IsProcessed :
      (now : ℕ) (id : String) (s : DrawStatus) (w : W)
      → is_stage s ≡ true
      → IsProcessed (run_stage services now id s w)
  unfolding run_stage
  run_stage-IsProcessed now id sales_closed w h =
      let m = services.build id w in after_stage-IsProcessed now id sales_closed _ m.0 m.1
  run_stage-IsProcessed now id snapshot_building w h =
      let m = services.finalize_snapshot id w in
      after_stage-IsProcessed now id snapshot_building _ m.0 m.1
  run_stage-IsProcessed now id snapshot_finalized w h =
      let m = services.request_and_verify id w in
      after_stage-IsProcessed now id snapshot_finalized _ m.0 m.1
  run_stage-IsProcessed now id randomness_verified w h =
      let m = services.finalize_winners id w in
      after_stage-IsProcessed now id randomness_verified _ m.0 m.1
  run_stage-IsProcessed now id winner_selection_pending w h =
      let m = services.finalize_winners id w in
      after_stage-IsProcessed now id winner_selection_pending _ m.0 m.1
  run_stage-IsProcessed now id completed w h =
      let m = services.publish id w in after_publish-IsProcessed now id m.0 m.1
  run_stage-IsProcessed now id scheduled w h = cc h
  run_stage-IsProcessed now id sales_open w h = cc h
  run_stage-IsProcessed now id randomness_pending w h = cc h
  run_stage-IsProcessed now id published w h = cc h
  run_stage-IsProcessed now id manual_review w h = cc h
  run_stage-IsProcessed now id failed w h = cc h
  run_stage-IsProcessed now id cancelled w h = cc h

  -- The draw that is moved on, and what is done with it.
  pub record Progresses (now : ℕ) (w : W) : Type 0 where
    pub draw : LotteryDraw
    pub there : Mem draw (services.draws w)
    pub due : is_due now draw ≡ true
    pub earliest :
        All
          (λ x. draw.scheduled_draw_at ≤ x.scheduled_draw_at)
          (filter (is_due now) (services.draws w))
    pub runs : process_next services now w ≡ run_stage services now draw.id draw.status w
    pub works :
        (r : AutomatedDrawLifecycleResult)
        → (process_next services now w).1 ≡ ok r
        → r.processed ≡ true

  -- While no draw has waited too long for randomness and some draw is due, the worker runs the stage of
  -- a due draw, one of those that are held first, and a result that it returns is never idle.
  pub process_next-Progresses :
      (now : ℕ) (w : W)
      → Misses (is_stale now) (services.draws w)
      → any (is_due now) (services.draws w) ≡ true
      → Progresses now w
  unfolding process_next process_due
  process_next-Progresses now w none_stale some_due =
      let (d, first) =
        first_by-some (λ x. x.scheduled_draw_at) (is_due now) (services.draws w) some_due in
      let (due, earliest, there) =
        first_by_lem (λ x. x.scheduled_draw_at) (is_due now) (services.draws w) first in
      let stale = first_by-none (λ x. x.updated_at) (is_stale now) (services.draws w) none_stale in
      let runs : process_next services now w ≡ run_stage services now d.id d.status w =
        rw stale (rw first refl) in
      record {
        draw = d;
        there = there;
        due = due;
        earliest = earliest;
        runs = runs;
        works =
            subst IsProcessed (sym runs)
              (run_stage-IsProcessed now d.id d.status w (due-is_stage now d due));
      }
