-- ===== src/Codec/Chunks.antt =====
-- TCP delivers a stream in chunks of any size: it does not matter how the bytes are cut.
use pets_server_linux.Common.{
  ℕ, ◌≡◌, refl, sym, ap, ◌∙◌, Bool, true, false, ◌||◌, List, [], ◌∷◌, ◌++◌, map, concat,
  append_assoc, append-nil, arith, Outcome, done, ◌>>=◌,
}
use mathlib.Core.List.{map-append}
use pets_server_linux.Muduo.{Net}
use pets_server_linux.Codec.{of_dnid, Session, on_message}
use pets_server_linux.Codec.Frames.{Frames, Frames-unique, Frames-append, Frames-bad}
use pets_server_linux.Codec.Receive.{packet, Received, on_message-Reads}

or_absorb : (a b c : Bool) → (b ≡ true → c ≡ true) → ((a || b) || c) ≡ (a || c)
or_absorb true b c h = refl
or_absorb false true c h = sym (h refl)
or_absorb false false c h = refl

module _ (net : Net) {S : Type 0} where
  open net use {peek, append, peek-append}

  -- The same bytes left, the same packets queued, and shut down or not alike.
  pub record SameSession (u v : Session net S) : Type 0 where
    pub left : peek u.buf ≡ peek v.buf
    pub queued : u.dispatcher.msg_queue ≡ v.dispatcher.msg_queue
    pub shut : u.shut ≡ v.shut

  -- A call whose result is known, as a reading of its buffer.
  pub record Read (d : ℕ) (s t : Session net S) : Type 0 where
    pub messages : List (List ℕ)
    pub rest : List ℕ
    pub verdict : Bool
    pub frames : Frames net (peek s.buf) messages rest verdict
    pub received : Received net d s t messages rest verdict

  pub on_message-Read :
      (d : ℕ) (s t : Session net S) → on_message net (of_dnid d) s ≡ done t → Read d s t
  on_message-Read d s t e =
      let r = on_message-Reads net d s in
      let same : r.session ≡ t = ground (arith, r.returns) in
      record {
        messages = r.messages;
        rest = r.rest;
        verdict = r.verdict;
        frames = r.frames;
        received = rw same at r.received;
      }

  abbrev fed : Session net S → List ℕ → Session net S
  fed s ys = record s { buf = append s.buf ys }

  chunks-SameSession :
      (d : ℕ) (s t u v : Session net S) (ys : List ℕ)
      → on_message net (of_dnid d) s ≡ done t
      → on_message net (of_dnid d) (fed t ys) ≡ done u
      → on_message net (of_dnid d) (fed s ys) ≡ done v
      → SameSession u v
  chunks-SameSession d s t u v ys first second whole =
      let a = on_message-Read d s t first in
      let b = on_message-Read d (fed t ys) u second in
      let c = on_message-Read d (fed s ys) v whole in
      let g : Frames net (a.rest ++ ys) b.messages b.rest b.verdict =
        rw (peek-append t.buf ys, a.received.left) at b.frames in
      let w : Frames net (peek s.buf ++ ys) c.messages c.rest c.verdict =
        rw (peek-append s.buf ys) at c.frames in
      let same = Frames-unique net (Frames-append net ys a.frames g) w in
      record {
        left = b.received.left ∙ same.left_over ∙ sym c.received.left;
        queued =
            b.received.queued
            ∙ ap (λ l. l ++ map (packet d) b.messages) a.received.queued
            ∙ append_assoc s.dispatcher.msg_queue (map (packet d) a.messages)
                (map (packet d) b.messages)
            ∙ ap (◌++◌ s.dispatcher.msg_queue) (
                sym (map-append {A = List ℕ} (packet d) a.messages b.messages)
                ∙ ap (map (packet d)) same.messages)
            ∙ sym c.received.queued;
        shut =
            b.received.shut
            ∙ ap (λ x. x || b.verdict) a.received.shut
            ∙ or_absorb s.shut a.verdict b.verdict (Frames-bad net ys a.frames g)
            ∙ ap (◌||◌ s.shut) same.verdict
            ∙ sym c.received.shut;
      }

  -- What a call does depends on the bytes of the buffer, the queue and whether it was shut down.
  on_message-SameSession :
      (d : ℕ) (s s' v v' : Session net S)
      → SameSession s s'
      → on_message net (of_dnid d) s ≡ done v
      → on_message net (of_dnid d) s' ≡ done v'
      → SameSession v v'
  on_message-SameSession d s s' v v' same e e' =
      let a = on_message-Read d s v e in
      let b = on_message-Read d s' v' e' in
      let f : Frames net (peek s.buf) b.messages b.rest b.verdict =
        rw (sym same.left) at b.frames in
      let alike = Frames-unique net a.frames f in
      record {
        left = a.received.left ∙ alike.left_over ∙ sym b.received.left;
        queued =
            a.received.queued
            ∙ ap (λ l. l ++ map (packet d) a.messages) same.queued
            ∙ ap (λ l. s'.dispatcher.msg_queue ++ map (packet d) l) alike.messages
            ∙ sym b.received.queued;
        shut =
            a.received.shut
            ∙ ap (λ x. x || a.verdict) same.shut
            ∙ ap (◌||◌ s'.shut) alike.verdict
            ∙ sym b.received.shut;
      }

  SameSession-trans : {u v w : Session net S} → SameSession u v → SameSession v w → SameSession u w
  SameSession-trans p q = record {
    left = p.left ∙ q.left;
    queued = p.queued ∙ q.queued;
    shut = p.shut ∙ q.shut;
  }

  -- One call behind the bytes of each read.
  unfoldable pub feed : ℕ → Session net S → List (List ℕ) → Outcome (Session net S)
  feed d s [] = done s
  feed d s (c ∷ cs) = do t ← on_message net (of_dnid d) (fed s c); feed d t cs

  -- However the bytes are cut into reads: the calls behind each of them all return, and do together
  -- what one call does on all the bytes, which returns too.
  pub feed-on_message :
      (d : ℕ) (s : Session net S) (c : List ℕ) (cs : List (List ℕ))
      → (u : Session net S) × (v : Session net S) × (feed d s (c ∷ cs) ≡ done u)
        × (on_message net (of_dnid d) (fed s (concat (c ∷ cs))) ≡ done v)
        × SameSession u v
  unfolding feed
  feed-on_message d s c [] =
      let r = on_message-Reads net d (fed s c) in
      (
        r.session,
        r.session,
        rw r.returns refl,
        ap (λ l. on_message net (of_dnid d) (fed s l)) (append-nil c) ∙ r.returns,
        record { left = refl; queued = refl; shut = refl },
      )
  feed-on_message d s c (c' ∷ cs) =
      let first = on_message-Reads net d (fed s c) in
      let (u, v, e, e', same) = feed-on_message d first.session c' cs in
      let ys = concat (c' ∷ cs) in
      let both = on_message-Reads net d (fed (fed s c) ys) in
      let whole = on_message-Reads net d (fed s (c ++ ys)) in
      let bytes : SameSession (fed (fed s c) ys) (fed s (c ++ ys)) = record {
        left =
            peek-append (append s.buf c) ys
            ∙ ap (λ l. l ++ ys) (peek-append s.buf c)
            ∙ append_assoc (peek s.buf) c ys
            ∙ sym (peek-append s.buf (c ++ ys));
        queued = refl;
        shut = refl;
      } in
      (
        u,
        whole.session,
        rw first.returns e,
        whole.returns,
        SameSession-trans same (
            SameSession-trans
              (chunks-SameSession d (fed s c) first.session v both.session ys first.returns e'
                both.returns)
              (on_message-SameSession d _ _ both.session whole.session bytes both.returns
                whole.returns)),
      )
