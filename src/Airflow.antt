-- ===== src/Airflow.antt =====
-- Runs of a task graph as Airflow makes them, for the graphs of airflow/dags/fleetstream_daily.py and
-- airflow/dags/fleetstream_maintenance.py. Airflow starts a task when all tasks upstream of it have succeeded, and
-- starts it again when it has failed; between two attempts what the tasks find may change.
use mathlib.Core.Path.{subst}
use fleet_stream_real_time_f.Prelude.{List, [], ◌∷◌, inl, inr, sym, ap, All, Elem}

All-Elem : {A : Type 0} (P : A → Type 0) (ts : List A) (t : A) → All P ts → Elem t ts → P t
All-Elem P [] t all h = absurd h
All-Elem P (x ∷ ts) t all (inl e) = subst P (sym e) all.0
All-Elem P (x ∷ ts) t all (inr h) = All-Elem P ts t all.1 h

-- What a task needs upstream, and what it must find to succeed.
module _ {Task W : Type 0} (upstream : Task → List Task) (Succeeds : Task → W → Type 0) where
  -- the successes so far, the latest first, each with what the task found
  abbrev pub Log : Type 0
  Log = List (Task × W)

  abbrev pub Done : Log → Task → Type 0
  Done log t = (w : W) × Elem (t, w) log

  -- An attempt that fails leaves the log as it is.
  pub data Step : Log → Log → Type 0 where
    succeeded :
        (log : Log) (t : Task) (w : W)
        → All (Done log) (upstream t)
        → Succeeds t w
        → Step log ((t, w) ∷ log)
    failed : (log : Log) (t : Task) → All (Done log) (upstream t) → Step log log

  pub data Reaches : Log → Type 0 where
    started : Reaches []
    continued : (log next : Log) → Reaches log → Step log next → Reaches next

  abbrev pub IsRun : Log → Type 0
  IsRun [] = Unit
  IsRun ((t, w) ∷ log) = All (Done log) (upstream t) × Succeeds t w × IsRun log

  pub IsRun-of : (log : Log) → Reaches log → IsRun log
  IsRun-of _ started = tt
  IsRun-of _ (continued log _ run (succeeded _ t w ready ok)) = (ready, ok, IsRun-of log run)
  IsRun-of _ (continued log _ run (failed _ t ready)) = IsRun-of log run

  later : (log : Log) (e : Task × W) (t : Task) → Done log t → Done (e ∷ log) t
  later log e t (w, h) = (w, inr h)

  -- what is done, its upstream tasks are done
  pub upstream-Done :
      (log : Log) (t u : Task) → IsRun log → Elem u (upstream t) → Done log t → Done log u
  upstream-Done [] t u run up (w, h) = absurd h
  upstream-Done ((x, v) ∷ log) t u run up (w, inl e) =
      later log (x, v) u
        (All-Elem (Done log) (upstream t) u
          (subst (λ y. All (Done log) (upstream y)) (sym (ap (λ p. p.0) e)) run.0) up)
  upstream-Done ((x, v) ∷ log) t u run up (w, inr h) =
      later log (x, v) u (upstream-Done log t u run.2 up (w, h))

  pub success : (log : Log) (t : Task) (w : W) → IsRun log → Elem (t, w) log → Succeeds t w
  success [] t w run h = absurd h
  success ((x, v) ∷ log) t w run (inl e) = subst (λ p. Succeeds p.0 p.1) (sym e) run.1
  success ((x, v) ∷ log) t w run (inr h) = success log t w run.2 h
