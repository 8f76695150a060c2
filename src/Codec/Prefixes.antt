-- ===== src/Codec/Prefixes.antt =====
-- A stream of which some messages have been taken off, while more bytes may come.
use pets_server_linux.Common.{
  ℕ, ◌+◌, ◌≤◌, ◌≡◌, ◌∙◌, Bool, some, List, [], ◌∷◌, ◌++◌, arith, length, length-append, length-drop,
  take, drop, take-append, drop-append,
}
use pets_server_linux.Muduo.{Net}
use pets_server_linux.Codec.{frame_len}
use pets_server_linux.Codec.Frames.{frame_len-append}
use pets_server_linux.Codec.Frames

module _ (net : Net) where
  -- The first messages of the bytes, and the bytes behind them.
  pub data Taken : List ℕ → List (List ℕ) → List ℕ → Type 0 where
    nothing : {xs : List ℕ} → Taken xs [] xs
    next :
        {xs : List ℕ} {ps : List (List ℕ)} {rest : List ℕ} (n : ℕ)
        → frame_len net xs ≡ some n
        → n + 4 ≤ length xs
        → Taken (drop n (drop 4 xs)) ps rest
        → Taken xs (take n (drop 4 xs) ∷ ps) rest

  -- More bytes come.
  pub Taken-append :
      {xs : List ℕ} {ps : List (List ℕ)} {rest : List ℕ} (ys : List ℕ)
      → Taken xs ps rest
      → Taken (xs ++ ys) ps (rest ++ ys)
  Taken-append ys nothing = nothing
  Taken-append {rest} ys (next {xs = xs} {ps = ps} n e l t) =
      let d4 : drop 4 (xs ++ ys) ≡ drop 4 xs ++ ys = drop-append 4 xs ys (omega arith) in
      let fits : n ≤ length (drop 4 xs) = omega (arith, length-drop 4 xs) in
      let more : Taken (drop n (drop 4 (xs ++ ys))) ps (rest ++ ys) =
        rw (d4, drop-append n (drop 4 xs) ys fits) (Taken-append ys t) in
      let long : n + 4 ≤ length (xs ++ ys) = omega (arith, length-append xs ys) in
      let len : frame_len net (xs ++ ys) ≡ some n = frame_len-append net xs ys (omega arith) ∙ e in
      let whole : Taken (xs ++ ys) (take n (drop 4 (xs ++ ys)) ∷ ps) (rest ++ ys) =
        next n len long more in
      rw (d4, take-append n (drop 4 xs) ys fits) at whole

  -- One message more is taken off.
  pub Taken-next :
      {xs : List ℕ} {ps : List (List ℕ)} {rest : List ℕ} (n : ℕ)
      → Taken xs ps rest
      → frame_len net rest ≡ some n
      → n + 4 ≤ length rest
      → Taken xs (ps ++ take n (drop 4 rest) ∷ []) (drop n (drop 4 rest))
  Taken-next n nothing e l = next n e l nothing
  Taken-next n (next m e' l' t) e l = next m e' l' (Taken-next n t e l)

  -- With the messages that are left, they are the messages of the stream.
  pub Taken-Frames :
      {xs : List ℕ} {ps qs : List (List ℕ)} {rest out : List ℕ} {b : Bool}
      → Taken xs ps rest
      → Frames.Frames net rest qs out b
      → Frames.Frames net xs (ps ++ qs) out b
  Taken-Frames nothing f = f
  Taken-Frames (next n e l t) f = Frames.next n e l (Taken-Frames t f)
