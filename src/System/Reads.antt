-- ===== src/System/Reads.antt =====
-- Codec::onMessage (codec.cpp) as steps of the threads.
use mathlib.Core.Path.{fun_ext}
use pets_server_linux.Common.{
  ℕ, zero, suc, ◌+◌, ◌≡◌, ◌⊎◌, inl, inr, refl, sym, ap, ◌∙◌, subst, Bool, true, false, Bool-cases,
  Option, none, some, arith, leb, ◌==◌, if◌then◌else◌, Outcome, done, >>=-eq-done, done-injective,
}
use pets_server_linux.Muduo.{Net}
use pets_server_linux.Codec.{
  of_dnid, Session, make_pack, head_msg_len, frame_len, receive, handle_frame, on_message_loop,
  on_message,
}
use pets_server_linux.Object.Handlers.{Log}
use pets_server_linux.Common.Maps.{at}
use pets_server_linux.System.{World, reads, shuts, Reach, here, next, session_of}

at_same {ℓ} : {A : Type ℓ} (d : ℕ) (f : ℕ → A) → at d (f d) f ≡ f
at_same d f = fun_ext (λ j. go j (Bool-cases (d == j)))
  where
    ==_eq : (a b : ℕ) → (a == b) ≡ true → a ≡ b
    ==_eq a b h = ground arith

    go : (j : ℕ) → ((d == j) ≡ true) ⊎ ((d == j) ≡ false) → at d (f d) f j ≡ f j
    go j (inl same) = rw same (ap f (==_eq d j same))
    go j (inr other) = rw other refl

at_twice {ℓ} : {A : Type ℓ} (d : ℕ) (v w : A) (f : ℕ → A) → at d v (at d w f) ≡ at d v f
at_twice {A} d v w f = fun_ext (λ j. go (f j) (d == j))
  where
    go : (x : A) (b : Bool) → (if b then v else (if b then w else x)) ≡ (if b then v else x)
    go x true = refl
    go x false = refl

pub at_there {ℓ} : {A : Type ℓ} (d : ℕ) (v : A) (f : ℕ → A) → at d v f d ≡ v
at_there d v f = rw self refl
  where
    self : (d == d) ≡ true
    self = ground arith

module _ (net : Net) where
  open net use {peek, readable_bytes}

  -- The state with another session of a connection.
  abbrev pub with_session : World net → ℕ → Session net Log → World net
  with_session w d s = record w {
    buffers = at d s.buf w.buffers;
    shut = at d s.shut w.shut;
    dispatcher = s.dispatcher;
  }

  with_session_same : (w : World net) (d : ℕ) → with_session w d (session_of net w d) ≡ w
  with_session_same w d =
      ap (λ b. record w { buffers = b; shut = at d (w.shut d) w.shut }) (at_same d w.buffers)
      ∙ ap (λ s. record w { shut = s }) (at_same d w.shut)

  with_session_twice :
      (w : World net) (d : ℕ) (s t : Session net Log)
      → with_session (with_session w d s) d t ≡ with_session w d t
  with_session_twice w d s t =
      ap
        (λ b. record w {
          buffers = b;
          shut = at d t.shut (at d s.shut w.shut);
          dispatcher = t.dispatcher;
        })
        (at_twice d t.buf s.buf w.buffers)
      ∙ ap (λ x. record w { buffers = at d t.buf w.buffers; shut = x; dispatcher = t.dispatcher })
          (at_twice d t.shut s.shut w.shut)

  session_of-with_session :
      (w : World net) (d : ℕ) (s : Session net Log) → session_of net (with_session w d s) d ≡ s
  session_of-with_session w d s =
      ap (λ b. record s { buf = b; shut = at d s.shut w.shut d }) (at_there d s.buf w.buffers)
      ∙ ap (λ x. record s { shut = x }) (at_there d s.shut w.shut)

  pub Reach-trans : {a b c : World net} → Reach net a b → Reach net b c → Reach net a c
  Reach-trans r here = r
  Reach-trans r (next q st) = next (Reach-trans r q) st

  receive-shut :
      (d n : ℕ) (s t : Session net Log) → receive net (of_dnid d) s n ≡ done t → s.shut ≡ t.shut
  unfolding receive make_pack
  receive-shut d n s t e = ap (λ (u : Session net Log). u.shut) (done-injective e)

  -- A round that takes a message off is a step.
  reads-Reach :
      (w : World net) (d n : ℕ) (s : Session net Log)
      → frame_len net (peek (w.buffers d)) ≡ some n
      → leb (n + head_msg_len) (readable_bytes (w.buffers d)) ≡ true
      → receive net (of_dnid d) (session_of net w d) n ≡ done s
      → Reach net w (with_session w d s)
  reads-Reach w d n s e l r =
      subst
        (λ x.
          Reach net w
            (record w { buffers = at d s.buf w.buffers; shut = x; dispatcher = s.dispatcher }))
        (sym (at_same d w.shut) ∙ ap (λ b. at d b w.shut) (receive-shut d n _ s r))
        (next here (reads d n s e l r))

  -- A round that shuts the connection down is a step.
  shuts-Reach :
      (w : World net) (d : ℕ)
      → leb head_msg_len (readable_bytes (w.buffers d)) ≡ true
      → frame_len net (peek (w.buffers d)) ≡ none
      → Reach net w (with_session w d (record (session_of net w d) { shut = true }))
  shuts-Reach w d l e =
      subst (λ b. Reach net w (record w { buffers = b; shut = at d true w.shut }))
        (sym (at_same d w.buffers)) (next here (shuts d l e))

  stays-Reach :
      (w : World net) (d : ℕ) (t : Session net Log)
      → session_of net w d ≡ t
      → Reach net w (with_session w d t)
  stays-Reach w d t e =
      subst (λ s. Reach net w (with_session w d s)) e
        (subst (Reach net w) (sym (with_session_same w d)) here)

  module _ (w : World net) (d : ℕ) (t : Session net Log)
      (loop : Session net Log → Outcome (Session net Log))
      (later : (v : World net)
        → loop (session_of net v d) ≡ done t
        → Reach net v (with_session v d t)) where
    reads_on :
        (n : ℕ) (s : Session net Log)
        → frame_len net (peek (w.buffers d)) ≡ some n
        → leb (n + head_msg_len) (readable_bytes (w.buffers d)) ≡ true
        → receive net (of_dnid d) (session_of net w d) n ≡ done s
        → loop s ≡ done t
        → Reach net w (with_session w d t)
    reads_on n s e l r k = Reach-trans (reads-Reach w d n s e l r) (
        subst (Reach net (with_session w d s)) (with_session_twice w d s t)
          (later (with_session w d s) (ap loop (session_of-with_session w d s) ∙ k)))

    handle_frame-Reach :
        (len : Option ℕ)
        → leb head_msg_len (readable_bytes (w.buffers d)) ≡ true
        → frame_len net (peek (w.buffers d)) ≡ len
        → handle_frame net loop (of_dnid d) (session_of net w d) len ≡ done t
        → Reach net w (with_session w d t)
    unfolding handle_frame
    handle_frame-Reach none l e k =
        subst (λ s. Reach net w (with_session w d s)) (done-injective k) (shuts-Reach w d l e)
    handle_frame-Reach (some n) l e k =
        elim (Bool-cases (leb (n + head_msg_len) (readable_bytes (w.buffers d)))) [
          | inl whole ↦
              let (s, r, k') =
                >>=-eq-done (receive net (of_dnid d) (session_of net w d) n) loop (rw whole at k) in
              reads_on n s e whole r k'
          | inr cut ↦ stays-Reach w d t (done-injective (rw cut at k))
        ]

  on_message_loop-Reach :
      (fuel d : ℕ) (w : World net) (t : Session net Log)
      → on_message_loop net fuel (of_dnid d) (session_of net w d) ≡ done t
      → Reach net w (with_session w d t)
  unfolding on_message_loop
  on_message_loop-Reach zero d w t e = cc
  on_message_loop-Reach (suc fuel) d w t e =
      elim (Bool-cases (leb head_msg_len (readable_bytes (w.buffers d)))) [
        | inl long ↦
            handle_frame-Reach w d t (on_message_loop net fuel (of_dnid d))
              (λ v k. on_message_loop-Reach fuel d v t k) (frame_len net (peek (w.buffers d))) long
              refl (rw (long, on_message_loop) at e)
        | inr few ↦ stays-Reach w d t (done-injective (rw (few, on_message_loop) at e))
      ]

  -- A call of onMessage, in any state of the server, is a sequence of the threads' steps: rounds that
  -- take off messages and queue their packets, and at most a shutdown.
  pub on_message-Reach :
      (d : ℕ) (w : World net) (t : Session net Log)
      → on_message net (of_dnid d) (session_of net w d) ≡ done t
      → Reach net w (with_session w d t)
  unfolding on_message
  on_message-Reach d w t e = on_message_loop-Reach (suc (readable_bytes (w.buffers d))) d w t e
