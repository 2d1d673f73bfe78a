-- ===== src/HealthCheck/Timers.antt =====
-- The timers: `startTimer`, `componentDidMount` and `componentDidUpdate`. A timer that runs is its
-- delay in seconds; `checks` counts the requests for the health of the server.
use tornjak.Prelude.{
  ℕ, zero, suc, ◌+◌, ◌≡◌, ◌≤◌, ap, ◌∙◌, refl, List, [], ◌∷◌, ◌++◌, arith, length, length-append,
}

pub record World : Type 0 where
  pub rate : ℕ
  pub running : List ℕ
  pub checks : ℕ

-- `setTimeout` with the rate of the store.
unfoldable pub start_timer : World → World
start_timer w = record w { running = w.running ++ (w.rate ∷ []) }

-- The health is asked for at once, and again since the timer in the state is new.
unfoldable pub component_did_mount : ℕ → World
unfolding start_timer
component_did_mount rate =
    let w = start_timer (record { rate = rate; running = []; checks = 0 }) in
    record w { checks = w.checks + 2 }

-- A choice of a rate puts a new object into the store, which differs from the one before even at the same
-- rate: a new timer starts, its identity in the state is new, and the health is asked for.
unfoldable pub rate_changed : ℕ → World → World
unfolding start_timer
rate_changed rate w =
    let t = start_timer (record w { rate = rate }) in record t { checks = suc t.checks }

-- The timer between `before` and `after` ends: it starts a timer with the rate that holds now, and the
-- health is asked for.
unfoldable pub fired : List ℕ → List ℕ → World → World
unfolding start_timer
fired before after w =
    let t = start_timer (record w { running = before ++ after }) in
    record t { checks = suc t.checks }

-- The events from mounting on, with the number of choices of a rate.
pub data Run (rate : ℕ) : ℕ → World → Type 0 where
  mount : Run rate 0 (component_did_mount rate)
  choose : {n : ℕ} {w : World} (r : ℕ) → Run rate n w → Run rate (suc n) (rate_changed r w)
  fire :
      {n : ℕ} {w : World} (before after : List ℕ) (delay : ℕ)
      → Run rate n w
      → w.running ≡ before ++ (delay ∷ after)
      → Run rate n (fired before after w)

-- After n choices of a rate n + 1 timers run, whatever timers ended in between: each that ends starts
-- its successor, and none is ever stopped.
pub Run-length : {rate n : ℕ} {w : World} → Run rate n w → length w.running ≡ suc n
unfolding component_did_mount rate_changed fired
Run-length mount = refl
Run-length (choose {w = w} r run) =
    let ih = Run-length run in length-append w.running (r ∷ []) ∙ omega (arith, ih)
Run-length (fire {w = w} before after delay run e) =
    let ih = Run-length run in
    let size : length w.running ≡ length before + suc (length after) =
      ap length e ∙ length-append before (delay ∷ after) in
    let now_ : length ((before ++ after) ++ (w.rate ∷ [])) ≡ length before + length after + 1 =
      omega (arith, length-append (before ++ after) (w.rate ∷ []), length-append before after) in
    now_ ∙ omega (arith, ih, size)

-- What the timers alone make of a state, with the number of timers that ended on the way.
pub data Fires (w : World) : ℕ → World → Type 0 where
  none_ends : Fires w 0 w
  one_ends :
      {n : ℕ} {u : World} (before after : List ℕ) (delay : ℕ)
      → Fires w n u
      → u.running ≡ before ++ (delay ∷ after)
      → Fires w (suc n) (fired before after u)

-- The timers lead from reached states to reached states, with as many timers.
Fires-Run : {rate n : ℕ} {w : World} {m : ℕ} {v : World} → Fires w m v → Run rate n w → Run rate n v
Fires-Run none_ends run = run
Fires-Run (one_ends before after delay f e) run = fire before after delay (Fires-Run f run) e

-- Some timer runs, so one can end.
fires :
    {m : ℕ} {w u : World} (l : List ℕ)
    → u.running ≡ l
    → 1 ≤ length l
    → Fires w m u
    → (v : World) × Fires w (suc m) v × (v.checks ≡ suc u.checks)
unfolding fired
fires [] e h f = absurd (omega (arith, h))
fires {u = u} (d ∷ ds) e h f = (fired [] ds u, one_ends [] ds d f e, refl)

-- The health check never stops: from every state that can be reached, the timers that run in it, and those
-- that they start, lead on without any choice of a rate: k times a timer ends, for every k, and the
-- health was then asked for k times more than in that state.
pub Run-checks :
    {rate n : ℕ} {w : World} (k : ℕ)
    → Run rate n w
    → (v : World) × Fires w k v × (v.checks ≡ k + w.checks)
Run-checks {w = w} zero run = (w, none_ends, omega arith)
Run-checks {w = w} (suc k) run =
    let (u, fires_u, more) = Run-checks k run in
    let (v, fires_v, one) =
      fires u.running refl (omega (arith, Run-length (Fires-Run fires_u run))) fires_u in
    (v, fires_v, omega (arith, more, one))
