-- ===== src/Rpc/Listen/Steps.antt =====
-- The requests and the worker of pkg/rpc/server/listen.go side by side, as steps that interleave.
use trivy.Base.{ℕ, suc, ◌≡◌, refl, ap, ◌∙◌, ◌⊎◌, inl, inr, Bool, true, false, arith}

-- Where hotUpdate stands: before dbUpdateWg.Add or after Done, after Add, after requestWg.Wait, and
-- after the database is closed.
pub data Worker : Type 0 where
  idle suspended drained closed : Worker

-- The worker, the counts of dbUpdateWg and requestWg (of the requests that are served), the requests
-- before dbUpdateWg.Wait and between it and requestWg.Add, and whether the database is open.
pub record Server : Type 0 where
  pub worker : Worker
  pub db_update : ℕ
  pub waiting : ℕ
  pub passed : ℕ
  pub serving : ℕ
  pub db_open : Bool

abbrev pub start : Server
start = record {
  worker = idle;
  db_update = 0;
  waiting = 0;
  passed = 0;
  serving = 0;
  db_open = true;
}

pub data Step (s : Server) : Server → Type 0 where
  arrive : Step s (record s { waiting = suc s.waiting })
  -- dbUpdateWg.Wait
  pass :
      {n : ℕ}
      → s.db_update ≡ 0
      → s.waiting ≡ suc n
      → Step s (record s { waiting = n; passed = suc s.passed })
  -- requestWg.Add
  add : {n : ℕ} → s.passed ≡ suc n → Step s (record s { passed = n; serving = suc s.serving })
  -- requestWg.Done
  leave : {n : ℕ} → s.serving ≡ suc n → Step s (record s { serving = n })
  -- dbUpdateWg.Add
  suspend : s.worker ≡ idle → Step s (record s { worker = suspended; db_update = suc s.db_update })
  -- requestWg.Wait
  drain : s.worker ≡ suspended → s.serving ≡ 0 → Step s (record s { worker = drained })
  close : s.worker ≡ drained → Step s (record s { worker = closed; db_open = false })
  -- db.Init and dbUpdateWg.Done
  reopen :
      {n : ℕ}
      → s.worker ≡ closed
      → s.db_update ≡ suc n
      → Step s (record s { worker = idle; db_update = n; db_open = true })
  -- an error, and dbUpdateWg.Done
  fail :
      {n : ℕ}
      → (s.worker ≡ drained) ⊎ (s.worker ≡ closed)
      → s.db_update ≡ suc n
      → Step s (record s { worker = idle; db_update = n })

pub data Reaches (s : Server) : Server → Type 0 where
  here : Reaches s s
  further : {t u : Server} → Reaches s t → Step t u → Reaches s u

-- The count of dbUpdateWg is one while the worker is at work.
abbrev held : Worker → ℕ
held idle = 0
held suspended = 1
held drained = 1
held closed = 1

IsHeld : Server → Type 0
IsHeld s = s.db_update ≡ held s.worker

step-IsHeld : (s t : Server) → IsHeld s → Step s t → IsHeld t
unfolding IsHeld
step-IsHeld s _ h arrive = h
step-IsHeld s _ h (pass e w) = h
step-IsHeld s _ h (add e) = h
step-IsHeld s _ h (leave e) = h
step-IsHeld s _ h (suspend e) = let e' : held s.worker ≡ 0 = ap held e in omega arith
step-IsHeld s _ h (drain e z) = h ∙ ap held e
step-IsHeld s _ h (close e) = h ∙ ap held e
step-IsHeld s _ h (reopen e u) = let e' : held s.worker ≡ 1 = ap held e in omega arith
step-IsHeld s _ h (fail (inl e) u) = let e' : held s.worker ≡ 1 = ap held e in omega arith
step-IsHeld s _ h (fail (inr e) u) = let e' : held s.worker ≡ 1 = ap held e in omega arith

Reaches-IsHeld : {s : Server} → Reaches start s → IsHeld s
unfolding IsHeld
Reaches-IsHeld here = refl
Reaches-IsHeld (further {t} {u} r st) = step-IsHeld t u (Reaches-IsHeld r) st

-- The worker is past requestWg.Wait.
abbrev pub IsReplacing : Worker → Type 0
IsReplacing w = (w ≡ drained) ⊎ (w ≡ closed)

-- A run in which the worker does not finish.
pub data Run (s : Server) : Server → Type 0 where
  stay : Run s s
  on : {t u : Server} → Run s t → Step t u → IsReplacing u.worker → Run s u

abbrev pub IsQuiet : Server → Type 0
IsQuiet s = IsReplacing s.worker × (s.passed ≡ 0) × (s.serving ≡ 0)

is_busy : (w : Worker) → IsReplacing w → held w ≡ 1
is_busy w (inl e) = ap held e
is_busy w (inr e) = ap held e

IsQuiet-step : (s t : Server) → IsHeld s → IsQuiet s → Step s t → IsReplacing t.worker → IsQuiet t
unfolding IsHeld
IsQuiet-step s _ h (b, p, z) arrive r = (b, p, z)
IsQuiet-step s _ h (b, p, z) (pass e w) r = absurd (let one = is_busy s.worker b in omega arith)
IsQuiet-step s _ h (b, p, z) (add e) r = absurd (omega arith)
IsQuiet-step s _ h (b, p, z) (leave e) r = absurd (omega arith)
IsQuiet-step s _ h (b, p, z) (suspend e) r =
    absurd (let one = is_busy s.worker b in let none_held = ap held e in omega arith)
IsQuiet-step s _ h (b, p, z) (drain e n) r = (r, p, z)
IsQuiet-step s _ h (b, p, z) (close e) r = (r, p, z)
IsQuiet-step s _ h (b, p, z) (reopen e u) r = (r, p, z)
IsQuiet-step s _ h (b, p, z) (fail e u) r = (r, p, z)

Run-IsHeld : {s t : Server} → IsHeld s → Run s t → IsHeld t
Run-IsHeld h stay = h
Run-IsHeld h (on {t} {u} r st b) = step-IsHeld t u (Run-IsHeld h r) st

-- While the worker replaces the database: if no request was served, or stood between its wait and its
-- count, at some moment, none is until the worker finishes.
pub Run-IsQuiet : {s t : Server} → Reaches start s → IsQuiet s → Run s t → IsQuiet t
Run-IsQuiet r q stay = q
Run-IsQuiet r q (on {t} {u} run st b) =
    IsQuiet-step t u (Run-IsHeld (Reaches-IsHeld r) run) (Run-IsQuiet r q run) st b
