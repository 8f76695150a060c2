-- ===== src/Server/Loop.antt =====
-- PetsServer::ServerLoop (PetsServer.cpp): the frames of the game loop, one after the other.
use pets_server_linux.Common.{
  ℕ, zero, suc, ◌+◌, ◌*◌, ◌/◌, ◌≤◌, ◌<◌, ◌≡◌, ◌⊎◌, inl, inr, refl, sym, ap, ◌∙◌, List, [], ◌∷◌,
  ◌++◌, append_assoc, append-nil, length, take, Outcome, done, ◌>>=◌, >>=-eq-done, done-injective,
  subst, arith,
}
use pets_server_linux.Dispatcher.{SPacket, Dispatched}
use pets_server_linux.Dispatcher.Order.{
  arrived, handle_all, go_on, handle_all-append, start, Handled,
}
use pets_server_linux.Object.Handlers.{Log}
use pets_server_linux.Object.Manager.{ObjectManager, run}
use pets_server_linux.Server.Frame.{
  Game, Clock, after_work, server_frame, Framed, worked, late, server_frame-Framed,
}

-- The first frames of the loop, one for each clock, and the milliseconds that they take together. The
-- flag that would end the loop is never set.
unfoldable pub server_frames : List Clock → Game → Outcome (Game × ℕ)
unfolding server_frame
server_frames [] g = done (g, 0)
server_frames (t ∷ ts) g = do
  (g1, sleep) ← server_frame t g
  (g2, later) ← server_frames ts g1
  done (g2, t.after / 1000 + sleep + later)

-- How often the manager is swept, and the packets that have arrived when the frames end: each frame
-- in time takes up those of some of its rounds, and a late frame none.
data Seen : List Clock → List SPacket → ℕ → Type 0 where
  nothing : Seen [] [] 0
  in_time :
      {t : Clock} {ts : List Clock} {packs : List SPacket} {swept : ℕ} (rounds : ℕ)
      → t.before ≤ 50000
      → Seen ts packs swept
      → Seen (t ∷ ts) (arrived (take rounds t.ticks) ++ packs) (suc swept)
  too_late :
      {t : Clock} {ts : List Clock} {packs : List SPacket} {swept : ℕ}
      → 50000 < t.before
      → Seen ts packs swept
      → Seen (t ∷ ts) packs swept

pub sweeps : ℕ → ObjectManager → ObjectManager
sweeps zero o = o
sweeps (suc n) o = sweeps n (run o)

-- What the frames have done together: the packets of `front` handled one after the other, and the
-- rest of what was queued and of what arrived left in the queue, in order.
pub record Played (ts : List Clock) (g g' : Game) (time : ℕ) : Type 0 where
  pub front : List SPacket
  pub packs : List SPacket
  pub swept : ℕ
  seen : Seen ts packs swept
  pub queued : g.dispatcher.msg_queue ++ packs ≡ front ++ g'.dispatcher.msg_queue
  pub handled :
      handle_all front g.dispatcher.call_back_map g.log ≡ done (g'.dispatcher.call_back_map, g'.log)
  pub manager : g'.manager ≡ sweeps swept g.manager
  pub pace : 50 * length ts ≤ time

-- A late frame in front.
Played-late :
    {t : Clock} {ts : List Clock} {g g' : Game} {time spent : ℕ}
    → 50000 < t.before
    → 50 ≤ spent
    → Played ts g g' time
    → Played (t ∷ ts) g g' (spent + time)
Played-late over h p = record {
  front = p.front;
  packs = p.packs;
  swept = p.swept;
  seen = too_late over p.seen;
  queued = p.queued;
  handled = p.handled;
  manager = p.manager;
  pace = omega (arith, p.pace);
}

-- A frame that has worked in front.
Played-worked :
    {t : Clock} {ts : List Clock} {g g' : Game} {time spent : ℕ} (q : Dispatched Log)
    → t.before ≤ 50000
    → Handled t.ticks t.begin (start g.dispatcher g.log) q
    → 50 ≤ spent
    → Played ts (after_work g q) g' time
    → Played (t ∷ ts) g g' (spent + time)
unfolding sweeps
Played-worked {t} {ts} {g} {g'} q before h spent p = record {
  front = h.front ++ p.front;
  packs = arrived (take (suc h.last) t.ticks) ++ p.packs;
  swept = suc p.swept;
  seen = in_time (suc h.last) before p.seen;
  queued =
      sym (append_assoc g.dispatcher.msg_queue (arrived (take (suc h.last) t.ticks)) p.packs)
      ∙ ap (λ l. l ++ p.packs) h.queued
      ∙ append_assoc h.front q.dispatcher.msg_queue p.packs
      ∙ ap (λ l. h.front ++ l) p.queued
      ∙ sym (append_assoc h.front p.front g'.dispatcher.msg_queue);
  handled =
      handle_all-append h.front p.front g.dispatcher.call_back_map g.log
      ∙ ap (λ m. m >>= go_on p.front) h.handled
      ∙ p.handled;
  manager = p.manager;
  pace = omega (arith, p.pace);
}

Played-Framed :
    {t : Clock} {ts : List Clock} {g g1 g' : Game} {time spent : ℕ}
    → Framed t g g1
    → 50 ≤ spent
    → Played ts g1 g' time
    → Played (t ∷ ts) g g' (spent + time)
Played-Framed {ts} {g'} {time} (worked q before h e) spent p =
    Played-worked q before h spent (subst (λ g1. Played ts g1 g' time) e p)
Played-Framed {ts} {g'} {time} (late over e) spent p =
    Played-late over spent (subst (λ g1. Played ts g1 g' time) e p)

-- Any number of frames that end, whatever arrives meanwhile: the packets are handled one after the
-- other in the order of their arrival, over all the frames, none twice and none left out; those not
-- handled yet are in the queue. The manager is swept once in every frame that was in time, and a
-- frame takes 50 milliseconds or more.
pub server_frames-Played :
    (ts : List Clock) (g g' : Game) (time : ℕ)
    → server_frames ts g ≡ done (g', time)
    → Played ts g g' time
unfolding server_frames sweeps handle_all
server_frames-Played [] g g' time e =
    let same = done-injective e in
    subst (λ (r : Game × ℕ). Played [] g r.0 r.1) same
      (record {
        front = [];
        packs = [];
        swept = 0;
        seen = nothing;
        queued = append-nil g.dispatcher.msg_queue;
        handled = refl;
        manager = refl;
        pace = omega arith;
      })
server_frames-Played (t ∷ ts) g g' time e =
    let ((g1, sleep), one, rest) = >>=-eq-done (server_frame t g) _ e in
    let ((g2, later), more, all) = >>=-eq-done (server_frames ts g1) _ rest in
    let (framed, spent) = server_frame-Framed t g g1 sleep one in
    subst (λ (r : Game × ℕ). Played (t ∷ ts) g r.0 r.1) (done-injective all)
      (Played-Framed framed (at_least spent) (server_frames-Played ts g1 g2 later more))
  where
    at_least :
        {used sleep : ℕ} → (used + sleep ≡ 50) ⊎ ((50 < used) × (sleep ≡ 0)) → 50 ≤ used + sleep
    at_least (inl h) = omega arith
    at_least (inr h) = omega (arith, h.0)
