-- ===== src/Workers/Lifecycle.antt =====
-- AutomatedDrawLifecycleService of automated-draw-lifecycle.service.ts. The services that it is given
-- are a record of operations on a world `W`, whose draws it reads and updates itself. What other
-- requests commit during a call is part of what an operation does to the world.
use amazingchance.Base.{
  ℕ, ◌+◌, ◌*◌, String, Bool, true, false, not, ◌&&◌, ◌||◌, Option, none, some, List, [], ◌∷◌,
  filter, find, head?, update_where, count_where, order_by, leb, ltb, ◌==◌, if◌then◌else◌, Outcome,
  ok, err, Exception, conflict, if_found,
}
use amazingchance.Draws.Types.{
  LotteryDraw, DrawStatus, scheduled, sales_open, sales_closed, snapshot_building,
  snapshot_finalized, randomness_pending, randomness_verified, winner_selection_pending, completed,
  published, manual_review, failed, cancelled, same_status, has_id,
}
use amazingchance.Draws.Transitions.{at_status, with_status, has_status}

pub data AutomatedDrawLifecycleAction : Type 0 where
  idle snapshot_built snapshot_was_finalized randomness_was_verified : AutomatedDrawLifecycleAction
  winners_and_prizes_finalized draw_published draw_already_published : AutomatedDrawLifecycleAction
  stale_randomness_to_manual_review draw_stage_to_manual_review : AutomatedDrawLifecycleAction
  draw_state_changed : AutomatedDrawLifecycleAction

pub record AutomatedDrawLifecycleResult : Type 0 where
  pub processed : Bool
  pub action : AutomatedDrawLifecycleAction
  pub draw_id : Option String

pub record Services (W : Type 0) : Type 1 where
  pub draws : W → List LotteryDraw
  pub with_draws : List LotteryDraw → W → W
  pub build : String → W → W × Outcome (Unit {0})
  pub finalize_snapshot : String → W → W × Outcome (Unit {0})
  pub request_and_verify : String → W → W × Outcome (Unit {0})
  pub finalize_winners : String → W → W × Outcome (Unit {0})
  pub publish : String → W → W × Outcome (Unit {0})

abbrev pub randomness_pending_stale_ms : ℕ
randomness_pending_stale_ms = 2 * 60000

-- A draw that has waited for randomness too long.
abbrev pub is_stale : ℕ → LotteryDraw → Bool
is_stale now d =
    same_status d.status randomness_pending && leb (d.updated_at + randomness_pending_stale_ms) now

abbrev pub is_stale_row : ℕ → String → LotteryDraw → Bool
is_stale_row now id d = has_id id d && is_stale now d

-- A draw that the worker can move on.
unfoldable pub is_due : ℕ → LotteryDraw → Bool
is_due now d =
    has_status
      (sales_closed ∷ snapshot_building ∷ randomness_verified ∷ winner_selection_pending ∷ completed
        ∷ [])
      d
    || (same_status d.status snapshot_finalized && leb d.scheduled_draw_at now)

-- `orderBy: [{ key: 'asc' }, { createdAt: 'asc' }]`
abbrev pub later_by : (LotteryDraw → ℕ) → LotteryDraw → LotteryDraw → Bool
later_by key x y = ltb (key y) (key x) || (key x == key y && ltb y.created_at x.created_at)

-- `findFirst`
unfoldable pub first_by :
    (LotteryDraw → ℕ) → (LotteryDraw → Bool) → List LotteryDraw → Option LotteryDraw
first_by key keeps draws = head? (order_by (later_by key) (filter keeps draws))

module _ {W : Type 0} (services : Services W) where
  abbrev pub Processed : Type 0
  Processed = W × Outcome AutomatedDrawLifecycleResult

  abbrev pub did : AutomatedDrawLifecycleAction → String → Outcome AutomatedDrawLifecycleResult
  did action id = ok (record { processed = true; action = action; draw_id = some id })

  -- `lotteryDraw.updateMany` of a draw to manual review, and its count.
  abbrev pub to_review : ℕ → (LotteryDraw → Bool) → W → W
  to_review now moves w =
      services.with_draws (update_where moves (with_status now manual_review) (services.draws w)) w

  unfoldable pub fail_closed_domain_conflict : ℕ → String → DrawStatus → Exception → W → Processed
  fail_closed_domain_conflict now id expected e w =
      let moves = at_status id (expected ∷ []) in
      let w' = to_review now moves w in
      if count_where moves (services.draws w) == 1
      then (w', did draw_stage_to_manual_review id)
      else if_found (find (has_id id) (services.draws w'))
          (λ current.
            if same_status current.status expected
            then (w', err e)
            else (w', did draw_state_changed id))
          (w', err e)

  -- From what the operation of a stage did.
  unfoldable pub after_stage :
      ℕ → String → DrawStatus → AutomatedDrawLifecycleAction → W × Outcome (Unit {0}) → Processed
  unfolding fail_closed_domain_conflict
  after_stage now id expected success (w, ok done) = (w, did success id)
  after_stage now id expected success (w, err (conflict m)) =
      fail_closed_domain_conflict now id expected (conflict m) w
  after_stage now id expected success (w, err e) = (w, err e)

  abbrev is_conflict : Exception → Bool
  is_conflict (conflict m) = true
  is_conflict _ = false

  -- From what `lotteryDraws.publish` did.
  unfoldable pub after_publish : ℕ → String → W × Outcome (Unit {0}) → Processed
  unfolding fail_closed_domain_conflict
  after_publish now id (w, ok done) = (w, did draw_published id)
  after_publish now id (w, err e) =
      let closed = fail_closed_domain_conflict now id completed e w in
      if_found (find (has_id id) (services.draws w))
        (λ current.
          if same_status current.status published
          then (w, did draw_already_published id)
          else if is_conflict e && same_status current.status completed
          then closed
          else if not (same_status current.status completed)
          then (w, did draw_state_changed id)
          else (w, err e))
        (w, err e)

  abbrev nothing_done : W → Processed
  nothing_done w = (w, ok (record { processed = false; action = idle; draw_id = none }))

  -- The `switch` on the status of the draw that was found.
  unfoldable pub run_stage : ℕ → String → DrawStatus → W → Processed
  unfolding after_stage after_publish
  run_stage now id sales_closed w =
      after_stage now id sales_closed snapshot_built (services.build id w)
  run_stage now id snapshot_building w =
      after_stage now id snapshot_building snapshot_was_finalized (services.finalize_snapshot id w)
  run_stage now id snapshot_finalized w =
      after_stage now id snapshot_finalized randomness_was_verified
        (services.request_and_verify id w)
  run_stage now id randomness_verified w =
      after_stage now id randomness_verified winners_and_prizes_finalized
        (services.finalize_winners id w)
  run_stage now id winner_selection_pending w =
      after_stage now id winner_selection_pending winners_and_prizes_finalized
        (services.finalize_winners id w)
  run_stage now id completed w = after_publish now id (services.publish id w)
  run_stage now id scheduled w = nothing_done w
  run_stage now id sales_open w = nothing_done w
  run_stage now id randomness_pending w = nothing_done w
  run_stage now id published w = nothing_done w
  run_stage now id manual_review w = nothing_done w
  run_stage now id failed w = nothing_done w
  run_stage now id cancelled w = nothing_done w

  -- Behind `processStaleRandomnessPending` that found nothing or moved nothing.
  unfoldable pub process_due : ℕ → W → Processed
  unfolding first_by is_due run_stage
  process_due now w =
      if_found (first_by (λ d. d.scheduled_draw_at) (is_due now) (services.draws w))
        (λ draw. run_stage now draw.id draw.status w) (nothing_done w)

  unfoldable pub process_next : ℕ → W → Processed
  unfolding first_by process_due
  process_next now w =
      if_found (first_by (λ d. d.updated_at) (is_stale now) (services.draws w))
        (λ stale.
          let w' = to_review now (is_stale_row now stale.id) w in
          if count_where (is_stale_row now stale.id) (services.draws w) == 1
          then (w', did stale_randomness_to_manual_review stale.id)
          else process_due now w')
        (process_due now w)
