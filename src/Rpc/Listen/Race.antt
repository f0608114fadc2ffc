-- ===== src/Rpc/Listen/Race.antt =====
-- A request can be served while the database is closed, and the worker is never kept from its turn.
use trivy.Base.{ℕ, zero, suc, ◌+◌, ◌≡◌, refl, false, arith}
use trivy.Rpc.Listen.Steps.{
  Server, suspended, drained, closed, start, arrive, pass, add, leave, suspend, drain, close,
  Reaches, here, further,
}

-- n requests that wait, n that have passed the wait, and the worker with p requests that have passed
-- and n that are served.
abbrev waited : ℕ → Server
waited n = record start { waiting = n }

abbrev passing : ℕ → ℕ → Server
passing m n = record start { waiting = m; passed = n }

abbrev pub shut : ℕ → ℕ → Server
shut p n = record start { worker = closed; db_update = 1; passed = p; serving = n; db_open = false }

zero_plus : (n : ℕ) → 0 + n ≡ n
zero_plus n = omega arith

Reaches-waited : (n : ℕ) → Reaches start (waited n)
Reaches-waited zero = here
Reaches-waited (suc n) = further (Reaches-waited n) arrive

Reaches-passing : (m n : ℕ) → Reaches start (passing m n) → Reaches start (passing 0 (m + n))
Reaches-passing zero n r = rw (zero_plus n) r
Reaches-passing (suc m) n r =
    let e : m + suc n ≡ suc m + n = omega arith in
    rw (← e) (Reaches-passing m (suc n) (further r (pass refl refl)))

Reaches-shut : (n : ℕ) → Reaches start (passing 0 n) → Reaches start (shut n 0)
Reaches-shut n r = further (further (further r (suspend refl)) (drain refl refl)) (close refl)

Reaches-served : (p n : ℕ) → Reaches start (shut p n) → Reaches start (shut 0 (p + n))
Reaches-served zero n r = rw (zero_plus n) r
Reaches-served (suc p) n r =
    let e : p + suc n ≡ suc p + n = omega arith in
    rw (← e) (Reaches-served p (suc n) (further r (add refl)))

-- Requests that have waited for the end of an update, but are not counted yet, do not hold up the next
-- one: any number of requests can be served while the worker has closed the database.
pub closed_while_serving :
    (n : ℕ)
    → (s : Server) × Reaches start s × (s.worker ≡ closed) × (s.db_open ≡ false) × (s.serving ≡ n)
closed_while_serving n =
    let e : n + 0 ≡ n = omega arith in
    let served : Reaches start (shut 0 (n + 0)) =
      Reaches-served n 0 (Reaches-shut n (rw e at (Reaches-passing n 0 (Reaches-waited n)))) in
    (shut 0 (n + 0), served, refl, refl, e)

module _ (origin : Server) where
  -- A state in which the worker is past the wait, reached with no request more.
  abbrev pub Drained : Server → Type 0
  Drained s = (t : Server) × Reaches origin t × (t.worker ≡ drained) × (t.waiting ≡ s.waiting)

  drains_serving :
      (n : ℕ) (s : Server) → Reaches origin s → s.worker ≡ suspended → s.serving ≡ n → Drained s
  drains_serving zero s r w z = (record s { worker = drained }, further r (drain w z), refl, refl)
  drains_serving (suc n) s r w z =
      drains_serving n (record s { serving = n }) (further r (leave z)) w refl

  drains_passed :
      (p : ℕ) (s : Server) → Reaches origin s → s.worker ≡ suspended → s.passed ≡ p → Drained s
  drains_passed zero s r w z = drains_serving s.serving s r w refl
  drains_passed (suc p) s r w z =
      drains_passed p (record s { passed = p; serving = suc s.serving }) (further r (add z)) w refl

-- A worker that waits for the requests can have its turn, whatever requests there are, with no request
-- more than has arrived.
pub suspended_drains : (s : Server) → s.worker ≡ suspended → Drained s s
suspended_drains s w = drains_passed s s.passed s here w refl
