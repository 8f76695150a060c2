-- ===== src/Server/Frame.antt =====
-- PetsServer::ServerLoop: one frame of the game loop.
use pets_server_linux.Common.{
  ℕ, ◌+◌, ◌-◌, ◌*◌, ◌/◌, ◌≤◌, ◌<◌, ◌≡◌, ◌⊎◌, inl, inr, sym, ap, Bool-cases, List, Outcome, done,
  ◌>>=◌, >>=-eq-done, done-injective, subst, leb, ltb, leb→le, leb_false→lt, if◌then◌else◌, arith,
}
use pets_server_linux.Dispatcher.{Dispatcher, Dispatched, Tick, dispatch_msg}
use pets_server_linux.Dispatcher.Order.{Handled, start, dispatch_msg-Handled}
use pets_server_linux.Object.Handlers.{Log}
use pets_server_linux.Object.Manager.{ObjectManager, run}

-- 1000 / SERVER_FPS, in milliseconds.
abbrev frame_time : ℕ
frame_time = 50

-- What the game thread works on.
pub record Game : Type 0 where
  pub dispatcher : Dispatcher Log
  pub log : Log
  pub manager : ObjectManager

-- The readings of m_servertimer in microseconds, before the work and after it, and the clock that
-- DispatchMsg reads meanwhile. Milliseconds are exact here, and a double in the code.
pub record Clock : Type 0 where
  pub before : ℕ
  pub begin : ℕ
  pub ticks : List Tick
  pub after : ℕ

-- The game after DispatchMsg and Run.
abbrev pub after_work : Game → Dispatched Log → Game
after_work g q = record { dispatcher = q.dispatcher; log = q.world; manager = run g.manager }

-- The work of a frame, if it is not late.
unfoldable pub work : Clock → Game → Outcome Game
work t g =
    if leb t.before (frame_time * 1000)
    then (do q ← dispatch_msg t.ticks t.begin g.dispatcher g.log; done (after_work g q))
    else done g

-- The milliseconds that the frame sleeps.
unfoldable sleep_time : Clock → ℕ
sleep_time t = if ltb frame_time (t.after / 1000) then 0 else frame_time - t.after / 1000

-- The body of ServerLoop.
unfoldable pub server_frame : Clock → Game → Outcome (Game × ℕ)
unfolding work sleep_time
server_frame t g = do g' ← work t g; done (g', sleep_time t)

-- What a frame that ends has done.
pub data Framed (t : Clock) (g g' : Game) : Type 0 where
  worked :
      (q : Dispatched Log)
      → t.before ≤ 50000
      → Handled t.ticks t.begin (start g.dispatcher g.log) q
      → g' ≡ after_work g q
      → Framed t g g'
  late : 50000 < t.before → g' ≡ g → Framed t g g'

work-Framed : (t : Clock) (g g' : Game) → work t g ≡ done g' → Framed t g g'
unfolding work
work-Framed t g g' e = elim (Bool-cases (leb t.before 50000)) [
  | inl in_time ↦
      let (q, k, k') =
        >>=-eq-done (dispatch_msg t.ticks t.begin g.dispatcher g.log) (λ q. done (after_work g q))
          (rw in_time at e) in
      worked q (leb→le t.before 50000 in_time)
        (dispatch_msg-Handled t.ticks t.begin g.dispatcher g.log q k) (sym (done-injective k'))
  | inr over ↦ late (leb_false→lt t.before 50000 over) (sym (done-injective (rw over at e)))
]

-- A frame that ends: if it began within 50 milliseconds of the last one's end, DispatchMsg has
-- handled packets and the manager has been swept, else nothing was done; and its work and its sleep
-- fill 50 milliseconds together, or there is no sleep because the work took longer.
pub server_frame-Framed :
    (t : Clock) (g g' : Game) (sleep : ℕ)
    → server_frame t g ≡ done (g', sleep)
    → Framed t g g' × ((t.after / 1000 + sleep ≡ 50) ⊎ ((50 < t.after / 1000) × (sleep ≡ 0)))
unfolding server_frame work sleep_time
server_frame-Framed t g g' sleep e =
    let (g1, k, k') = >>=-eq-done (work t g) (λ r. done (r, sleep_time t)) e in
    let same : g1 ≡ g' = ap (λ (r : Game × ℕ). r.0) (done-injective k') in
    let slept : sleep_time t ≡ sleep = ap (λ (r : Game × ℕ). r.1) (done-injective k') in
    (
      subst (Framed t g) same (work-Framed t g g1 k),
      elim (Bool-cases (ltb 50 (t.after / 1000))) [
        | inl over ↦ inr (ground (arith, slept), ground (arith, slept))
        | inr fits ↦ inl (ground (arith, slept))
      ],
    )
