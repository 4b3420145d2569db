-- ===== src/Runner/Matrix/Lifecycle.antt =====
-- runner/run.py: the life of the server processes through the loops of `main`.
use game_bench.Common.{
  ◌≡◌, refl, subst, ◌⊎◌, inl, inr, Bool, true, false, Option, none, some, List, [], ◌∷◌, ◌++◌, map,
  length, if◌then◌else◌,
}
use game_bench.Py.Text.{Text}
use game_bench.Py.Result.{Result, ok, raise}
use game_bench.Runner.Specs.{Launch}
use game_bench.Runner.Servers.{Server, lookup, build_of}
use game_bench.Runner.Report.{Run, Cell, Window, Load, tl_row}
use game_bench.Runner.Sampler.{Sampler}
use game_bench.Runner.Matrix.{
  Config, Machine, Action, skip_unknown, start_server, not_ready, load, stop_server, write_row,
  client_busy, sender_late, write_window, cooldown, Ended, and_then, warnings, report,
  when_measured, when_ready, after_start, trial_of, trials_of, runs_of, build, when_built,
  server_of, over_servers, main,
}

abbrev pub raised {ℓ} : {A : Type ℓ} → Result A → Bool
raised (raise e) = true
raised (ok a) = false

-- No server runs, or the one of a run, started and then known to be ready.
pub data Phase : Type 0 where
  idle : Phase
  started : Run → Phase
  loaded : Run → Phase

-- What a run may do: start only where nothing runs, load what was started, stop it, and then write
-- its row.
pub data Steps {ℓ} {V : Type ℓ} : Phase → List (Action V) → Phase → Type ℓ where
  done : {p : Phase} → Steps p [] p
  skips :
      {name : Text} {acts : List (Action V)} {q : Phase}
      → Steps idle acts q
      → Steps idle (skip_unknown name ∷ acts) q
  starts :
      {r : Run} {plan : List Launch} {acts : List (Action V)} {q : Phase}
      → Steps (started r) acts q
      → Steps idle (start_server r plan ∷ acts) q
  waits :
      {r : Run} {acts : List (Action V)} {q : Phase}
      → Steps (started r) acts q
      → Steps (started r) (not_ready r ∷ acts) q
  loads :
      {r : Run} {acts : List (Action V)} {q : Phase}
      → Steps (loaded r) acts q
      → Steps (started r) (load r ∷ acts) q
  gives_up :
      {r : Run} {acts : List (Action V)} {q : Phase}
      → Steps idle acts q
      → Steps (started r) (stop_server r ∷ acts) q
  stops :
      {r : Run} {acts : List (Action V)} {q : Phase}
      → Steps idle acts q
      → Steps (loaded r) (stop_server r ∷ acts) q
  writes :
      {row : List (Text × Cell V)} {acts : List (Action V)} {q : Phase}
      → Steps idle acts q
      → Steps idle (write_row row ∷ acts) q
  warns_busy :
      {r : Run} {acts : List (Action V)} {q : Phase}
      → Steps idle acts q
      → Steps idle (client_busy r ∷ acts) q
  warns_late :
      {r : Run} {acts : List (Action V)} {q : Phase}
      → Steps idle acts q
      → Steps idle (sender_late r ∷ acts) q
  writes_window :
      {row : List (Text × Cell V)} {acts : List (Action V)} {q : Phase}
      → Steps idle acts q
      → Steps idle (write_window row ∷ acts) q
  cools : {acts : List (Action V)} {q : Phase} → Steps idle acts q → Steps idle (cooldown ∷ acts) q

module _ {ℓ} {V : Type ℓ} where
  Steps-append :
      {p q r : Phase} {acts bs : List (Action V)}
      → Steps p acts q
      → Steps q bs r
      → Steps p (acts ++ bs) r
  Steps-append done k = k
  Steps-append (skips h) k = skips (Steps-append h k)
  Steps-append (starts h) k = starts (Steps-append h k)
  Steps-append (waits h) k = waits (Steps-append h k)
  Steps-append (loads h) k = loads (Steps-append h k)
  Steps-append (gives_up h) k = gives_up (Steps-append h k)
  Steps-append (stops h) k = stops (Steps-append h k)
  Steps-append (writes h) k = writes (Steps-append h k)
  Steps-append (warns_busy h) k = warns_busy (Steps-append h k)
  Steps-append (warns_late h) k = warns_late (Steps-append h k)
  Steps-append (writes_window h) k = writes_window (Steps-append h k)
  Steps-append (cools h) k = cools (Steps-append h k)

module _ {ℓ κ} {V : Type ℓ} {W : Type κ} (m : Machine V W) (cfg : Config) where
  warnings-Steps : (r : Run) (cpu rate : V) → Steps idle (warnings m cfg r cpu rate) idle
  unfolding warnings
  warnings-Steps r cpu rate =
      Steps-append
        (when_warned (m.num.lt (m.num.share (length cfg.client_cores)) cpu) (warns_busy done))
        (when_warned (m.num.lt rate m.num.target) (warns_late done))
    where
      when_warned :
          {acts : List (Action V)} (b : Bool)
          → Steps idle acts idle
          → Steps idle (if b then acts else []) idle
      when_warned true h = h
      when_warned false h = done

  windows-Steps :
      (r : Run) (ws : List (Window V)) (acts : List (Action V))
      → Steps idle acts idle
      → Steps idle (map (λ w. write_window (tl_row m.num r w)) ws ++ acts) idle
  windows-Steps r [] acts h = h
  windows-Steps r (w ∷ ws) acts h = writes_window (windows-Steps r ws acts h)

-- Steps that leave nothing running unless an exception ended them.
abbrev pub Leads {ℓ κ} : {V : Type ℓ} {W : Type κ} → Phase → Ended V W → Type ℓ
Leads p x = (q : Phase) × Steps p x.0 q × ((q ≡ idle) ⊎ (raised x.1.0 ≡ true))

module _ {ℓ κ} {V : Type ℓ} {W : Type κ} where
  Leads-then :
      (x : Ended V W) (next : W → Ended V W)
      → Leads idle x
      → ((w : W) → Leads idle (next w))
      → Leads idle (and_then x next)
  unfolding and_then
  Leads-then (acts, (raise e, w)) next h k = h
  Leads-then (acts, (ok u, w)) next h k = elim h.2 [
    | inl e ↦
        ((k w).0, Steps-append (subst (λ (q : Phase). Steps idle acts q) e h.1) (k w).1, (k w).2)
    | inr never ↦ cc
  ]

module _ {ℓ κ} {V : Type ℓ} {W : Type κ} (m : Machine V W) (cfg : Config) where
  report-Leads :
      (r : Run) (out : Option (Result (Load V)) × Sampler) (w : W)
      → Leads idle (report m cfg r out w)
  unfolding report
  report-Leads r (none, s) w = (idle, cools done, inl refl)
  report-Leads r (some (raise e), s) w = (idle, done, inl refl)
  report-Leads r (some (ok res), s) w = (
    idle,
    writes (
        Steps-append (warnings-Steps m cfg r _ _)
          (windows-Steps m cfg r res.timeline (cooldown ∷ []) (cools done))),
    inl refl,
  )

  when_measured-Leads :
      (r : Run) (x : Result (Option (Result (Load V)) × Sampler) × W)
      → Leads (started r) (when_measured m cfg r x)
  unfolding when_measured
  when_measured-Leads r (raise e, w) = (loaded r, loads done, inr refl)
  when_measured-Leads r (ok out, w) =
      let later = report-Leads r out w in (later.0, loads (stops later.1), later.2)

  when_ready-Leads : (r : Run) (x : Bool × W) → Leads (started r) (when_ready m cfg r x)
  unfolding when_ready
  when_ready-Leads r (false, w) = (idle, waits (gives_up (cools done)), inl refl)
  when_ready-Leads r (true, w) = when_measured-Leads r (m.measure r w)

  after_start-Leads :
      (r : Run) (x : Result (Unit {0}) × W) → Leads (started r) (after_start m cfg r x)
  unfolding after_start
  after_start-Leads r (raise e, w) = (started r, done, inr refl)
  after_start-Leads r (ok u, w) = when_ready-Leads r (m.wait_ready r w)

  trial_of-Leads : (s : Server) (r : Run) (w : W) → Leads idle (trial_of m cfg s r w)
  unfolding trial_of
  trial_of-Leads s r w =
      let later = after_start-Leads r (m.start r _ w) in (later.0, starts later.1, later.2)

  trials_of-Leads : (s : Server) (rs : List Run) (w : W) → Leads idle (trials_of m cfg s rs w)
  unfolding trials_of
  trials_of-Leads s [] w = (idle, done, inl refl)
  trials_of-Leads s (r ∷ rs) w =
      Leads-then (trial_of m cfg s r w) (trials_of m cfg s rs) (trial_of-Leads s r w)
        (trials_of-Leads s rs)

  when_built-Leads :
      (name : Text) (s : Server) (x : Result Bool × W) → Leads idle (when_built m cfg name s x)
  unfolding when_built
  when_built-Leads name s (raise e, w) = (idle, done, inl refl)
  when_built-Leads name s (ok false, w) = (idle, done, inl refl)
  when_built-Leads name s (ok true, w) = trials_of-Leads s (runs_of m cfg name cfg.conns_list) w

  server_of-Leads :
      (name : Text) (o : Option Server) (w : W) → Leads idle (server_of m cfg name o w)
  unfolding server_of
  server_of-Leads name none w = (idle, skips done, inl refl)
  server_of-Leads name (some s) w = when_built-Leads name s (build m cfg (build_of s) w)

  over_servers-Leads : (names : List Text) (w : W) → Leads idle (over_servers m cfg names w)
  unfolding over_servers
  over_servers-Leads [] w = (idle, done, inl refl)
  over_servers-Leads (name ∷ names) w =
      Leads-then (server_of m cfg name (lookup name) w) (over_servers m cfg names)
        (server_of-Leads name (lookup name) w) (over_servers-Leads names)

  -- Whatever the machine does, exceptions included, a server is started only while none runs, the load
  -- is put only on the server that was started for it, and every server is stopped before a row is
  -- written, before the next cooldown and before the next start; at the end none runs, unless an
  -- exception ended the loops, and then at most the server of the last start is left.
  pub main-Steps :
      (w : W)
      → (q : Phase) × Steps idle (main m cfg w).0 q
        × ((q ≡ idle) ⊎ (raised (main m cfg w).1.0 ≡ true))
  unfolding main
  main-Steps w = over_servers-Leads cfg.servers w
