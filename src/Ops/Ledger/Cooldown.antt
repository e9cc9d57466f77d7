-- ===== src/Ops/Ledger/Cooldown.antt =====
-- How long an attempt keeps the next one away.
use crime_prevention_and_per.Prelude.{
  leb, nat_eq, if◌then◌else◌, nat_eq_iff, Bool-cases, All, String_eq, ◌==◌, ℕ, ◌+◌, ◌≤◌, ◌<◌,
  String, ◌≡◌, refl, ap, ◌∙◌, ◌⊎◌, inl, inr, Bool, true, false, ◌&&◌, Option, none, some, List, [],
  ◌∷◌, ◌++◌, map, arith, eq_iff,
}
use crime_prevention_and_per.Ops.Plan.{Task, backfill, census, gold, hourly, history, Step}
use crime_prevention_and_per.Ops.Ledger.{
  Status, running, failed, succeeded, OpsRun, Ledger, task_name, is_newer, concerns, last_attempt,
  Block, in_flight, failed_lately, without_effect, verdict, block_of, cooldown_block, ledger_open,
  close_row, ledger_close, Ending, killed, raised, exited, run_step,
}

-- Ids are not reused, and no attempt at the step has started after `now`.
pub record IsBefore (step : Step) (now : ℕ) (l : Ledger) : Type 0 where
  pub fresh : All (λ r. r.ops_run_id < l.next_id) l.rows
  pub past : All (λ r. (concerns step r ≡ false) ⊎ (r.started_at ≤ now)) l.rows

abbrev pub status_after : Ending → Status
status_after killed = running
status_after raised = failed
status_after (exited code) = if nat_eq code 0 then succeeded else failed

abbrev attempt : String → ℕ → Step → Status → ℕ → OpsRun
attempt version now step status id = record {
  ops_run_id = id;
  task = task_name step.task;
  city = step.city;
  status = status;
  started_at = now;
  pipeline_version = version;
}

close_others :
    (id : ℕ) (status : Status) (rows rest : List OpsRun)
    → All (λ r. r.ops_run_id < id) rows
    → map (close_row id status) (rows ++ rest) ≡ rows ++ map (close_row id status) rest
close_others id status [] rest h = refl
close_others id status (r ∷ rows) rest h =
    let p : nat_eq r.ops_run_id id ≡ false = ground (arith, h.0) in
    rw p (ap (λ t. r ∷ t) (close_others id status rows rest h.1))

close_own :
    (version : String) (now : ℕ) (step : Step) (status : Status) (id : ℕ)
    → close_row id status (attempt version now step running id) ≡ attempt version now step status id
close_own version now step status id = rw ((nat_eq_iff id id).1 refl) refl

closed :
    (version : String) (now : ℕ) (step : Step) (status : Status) (l : Ledger)
    → All (λ r. r.ops_run_id < l.next_id) l.rows
    → (ledger_close l.next_id status (ledger_open version now step l)).rows
      ≡ l.rows ++ attempt version now step status l.next_id ∷ []
unfolding ledger_open ledger_close
closed version now step status l h =
    close_others l.next_id status l.rows (attempt version now step running l.next_id ∷ []) h
    ∙ ap (λ r. l.rows ++ r ∷ []) (close_own version now step status l.next_id)

run_step-rows :
    (version : String) (now : ℕ) (step : Step) (ending : Ending) (l : Ledger)
    → All (λ r. r.ops_run_id < l.next_id) l.rows
    → (run_step version now step ending l).1.rows
      ≡ l.rows ++ attempt version now step (status_after ending) l.next_id ∷ []
unfolding run_step
run_step-rows version now step killed l h = unfold ledger_open in refl
run_step-rows version now step raised l h = closed version now step failed l h
run_step-rows version now step (exited code) l h = elim (Bool-cases (nat_eq code 0)) [
  | inl ok ↦ rw ok (closed version now step succeeded l h)
  | inr bad ↦ rw bad (closed version now step failed l h)
]

-- The last attempt, if there is one, has started.
abbrev Started : ℕ → Option OpsRun → Type 0
Started now none = Unit
Started now (some r) = r.started_at ≤ now

Started-newer :
    (now : ℕ) (x : OpsRun) (o : Option OpsRun)
    → x.started_at ≡ now
    → Started now o
    → is_newer x o ≡ true
Started-newer now x none e h = refl
Started-newer now x (some r) e h = ground (arith, h, e)

concerns_own :
    (version : String) (now : ℕ) (step : Step) (status : Status) (id : ℕ)
    → concerns step (attempt version now step status id) ≡ true
concerns_own version now step status id =
    ground (arith, eq_iff (task_name step.task) (task_name step.task), eq_iff step.city step.city)

last_attempt-append :
    (step : Step) (now : ℕ) (x : OpsRun) (rows : List OpsRun) (best : Option OpsRun)
    → concerns step x ≡ true
    → x.started_at ≡ now
    → All (λ r. (concerns step r ≡ false) ⊎ (r.started_at ≤ now)) rows
    → Started now best
    → last_attempt step best (rows ++ x ∷ []) ≡ some x
unfolding last_attempt
last_attempt-append step now x [] best c e h b = rw (c, Started-newer now x best e b) refl
last_attempt-append step now x (r ∷ rows) best c e (old, h) b =
    last_attempt-append step now x rows
      (if concerns step r && is_newer r best then some r else best) c e h
      (chosen (concerns step r) (is_newer r best) old)
  where
    chosen :
        (t u : Bool)
        → (t ≡ false) ⊎ (r.started_at ≤ now)
        → Started now (if t && u then some r else best)
    chosen true true (inl p) = absurd (cc)
    chosen true true (inr p) = p
    chosen true false p = b
    chosen false u p = b

-- What keeps a step from being tried again soon, by the end of the last attempt, the task and
-- whether the attempt was made under the version of the pipeline that asks.
abbrev pub obstacle : Ending → Task → Bool → Option Block
obstacle killed task same_version = some in_flight
obstacle raised task same_version = some failed_lately
obstacle (exited code) task same_version =
    if nat_eq code 0 then unchanged task same_version else some failed_lately
  where
    unchanged : Task → Bool → Option Block
    unchanged history same = none
    unchanged task false = none
    unchanged task true = some without_effect

succeeded_obstacle :
    (task : Task) (same : Bool)
    → (if task_name task == "history" then none else if same then some without_effect else none)
      ≡ obstacle (exited 0) task same
succeeded_obstacle backfill true = refl
succeeded_obstacle backfill false = refl
succeeded_obstacle census true = refl
succeeded_obstacle census false = refl
succeeded_obstacle gold true = refl
succeeded_obstacle gold false = refl
succeeded_obstacle hourly true = refl
succeeded_obstacle hourly false = refl
succeeded_obstacle history same = refl

verdict-obstacle :
    (version by : String) (step : Step) (ending : Ending)
    → verdict version step (status_after ending) by ≡ obstacle ending step.task (by == version)
unfolding verdict
verdict-obstacle version by step killed = refl
verdict-obstacle version by step raised = refl
verdict-obstacle version by step (exited code) = elim (Bool-cases (nat_eq code 0)) [
  | inl ok ↦ rw ok (succeeded_obstacle step.task (by == version))
  | inr bad ↦ rw bad refl
]

-- After an attempt that starts at `now`, whatever its end, once the cooldown has passed since the
-- start the step is free again, also if the attempt was killed and its row still says running.
-- Until then a killed attempt counts as in flight, and one that raised or exited with another code
-- than 0 as failed lately. After an exit with 0 the step is held back as without effect, but for
-- the history load, and for an attempt under another version of the pipeline, which hold nothing
-- back.
pub run_step-cooldown :
    (version by : String) (now later cooldown : ℕ) (step : Step) (ending : Ending) (l : Ledger)
    → IsBefore step now l
    → cooldown_block version cooldown later (run_step by now step ending l).1 step
      ≡ (if leb (now + cooldown) later then none else obstacle ending step.task (by == version))
unfolding cooldown_block
run_step-cooldown version by now later cooldown step ending l h =
    let x = attempt by now step (status_after ending) l.next_id in
    let rows = run_step-rows by now step ending l h.fresh in
    let last =
      ap (last_attempt step none) rows
      ∙ last_attempt-append step now x l.rows none
          (concerns_own by now step (status_after ending) l.next_id) refl h.past tt in
    ap (block_of version cooldown later step) last
    ∙ ap (λ o. if leb (now + cooldown) later then none else o)
        (verdict-obstacle version by step ending)
