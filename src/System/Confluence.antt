-- ===== src/System/Confluence.antt =====
-- The order of the threads' steps does not matter to a connection's messages.
use pets_server_linux.Common.{ℕ, ◌≡◌, sym, ◌∙◌, subst, Bool, List, [], ◌++◌, append-nil}
use pets_server_linux.Muduo.{Net}
use pets_server_linux.Codec.Frames
use pets_server_linux.Codec.Frames.{Frames-unique}
use pets_server_linux.Object.Handlers.{Log}
use pets_server_linux.System.{World, Reach, started, delivered}
use pets_server_linux.System.Streams.{Reach-Frames}

module _ (net : Net) where
  open net use {peek}

  -- Two runs of the server from any logs, in any order of their steps, after which the same bytes
  -- have come on a connection and neither of its buffers holds a complete message: the messages of
  -- this connection that were handled or are queued are the same in both, in the same order, and so
  -- are the bytes that its buffers hold. What came on other connections does not matter.
  pub Reach-delivered :
      (log log' : Log) (w u : World net) (d : ℕ) (rest rest' : List ℕ) (b b' : Bool)
      → Reach net (started net log) w
      → Reach net (started net log') u
      → w.received d ≡ u.received d
      → Frames.Frames net (peek (w.buffers d)) [] rest b
      → Frames.Frames net (peek (u.buffers d)) [] rest' b'
      → (delivered net w d ≡ delivered net u d) × (rest ≡ rest') × (b ≡ b')
  Reach-delivered log log' w u d rest rest' b b' rw' ru same fw fu =
      let read_w = (Reach-Frames net log w d [] rest b rw' fw).0 in
      let read_u = (Reach-Frames net log' u d [] rest' b' ru fu).0 in
      let both =
        Frames-unique net
          (subst (λ xs. Frames.Frames net xs (delivered net w d ++ []) rest b) same read_w)
          read_u in
      (
        sym (append-nil (delivered net w d)) ∙ both.messages ∙ append-nil (delivered net u d),
        both.left_over,
        both.verdict,
      )
