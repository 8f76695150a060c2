-- ===== src/Codec/Frames.antt =====
-- What a byte stream says, apart from the buffer and the loop: a relation between the bytes that
-- have come, the messages in them, the bytes left over, and whether a bad length was met.
use pets_server_linux.Common.{
  ℕ, ◌+◌, ◌≤◌, ◌<◌, ◌≡◌, refl, ◌∙◌, Bool, true, false, none, some, List, [], ◌∷◌, ◌++◌, arith,
  length, length-append, length-drop, take, drop, take-append, drop-append,
}
use pets_server_linux.Muduo.{Net}
use pets_server_linux.Codec.{frame_len}

module _ (net : Net) where
  -- The header is complete but no length; the message is not complete; one message and the rest.
  pub data Frames : List ℕ → List (List ℕ) → List ℕ → Bool → Type 0 where
    short : {xs : List ℕ} → length xs < 4 → Frames xs [] xs false
    bad : {xs : List ℕ} → 4 ≤ length xs → frame_len net xs ≡ none → Frames xs [] xs true
    partial :
        {xs : List ℕ} (n : ℕ)
        → 4 ≤ length xs
        → frame_len net xs ≡ some n
        → length xs < n + 4
        → Frames xs [] xs false
    next :
        {xs : List ℕ} {ps : List (List ℕ)} {rest : List ℕ} {b : Bool} (n : ℕ)
        → frame_len net xs ≡ some n
        → n + 4 ≤ length xs
        → Frames (drop n (drop 4 xs)) ps rest b
        → Frames xs (take n (drop 4 xs) ∷ ps) rest b

  -- The length stands in the first four bytes.
  pub frame_len-append :
      (xs ys : List ℕ) → 4 ≤ length xs → frame_len net (xs ++ ys) ≡ frame_len net xs
  unfolding frame_len
  frame_len-append [] ys h = absurd (omega arith)
  frame_len-append (a ∷ []) ys h = absurd (omega arith)
  frame_len-append (a ∷ b ∷ []) ys h = absurd (omega arith)
  frame_len-append (a ∷ b ∷ c ∷ []) ys h = absurd (omega arith)
  frame_len-append (a ∷ b ∷ c ∷ d ∷ xs) ys h = refl

  -- What a stream says is determined by its bytes.
  pub record SameReading (ps qs : List (List ℕ)) (r s : List ℕ) (b c : Bool) : Type 0 where
    pub messages : ps ≡ qs
    pub left_over : r ≡ s
    pub verdict : b ≡ c

  reading :
      {ps qs : List (List ℕ)} {r s : List ℕ} {b c : Bool}
      → SameReading ps qs r s b c
      → (ps ≡ qs) × (r ≡ s) × (b ≡ c)
  reading v = (v.messages, v.left_over, v.verdict)

  pub Frames-unique :
      {xs : List ℕ} {ps qs : List (List ℕ)} {r s : List ℕ} {b c : Bool}
      → Frames xs ps r b
      → Frames xs qs s c
      → SameReading ps qs r s b c
  Frames-unique (short h) (short k) = record { messages = refl; left_over = refl; verdict = refl }
  Frames-unique (short h) (bad k e) = absurd (omega arith)
  Frames-unique (short h) (partial n k e l) = absurd (omega arith)
  Frames-unique (short h) (next n e l f) = absurd (omega arith)
  Frames-unique (bad h e) (short k) = absurd (omega arith)
  Frames-unique (bad h e) (bad k e') = record { messages = refl; left_over = refl; verdict = refl }
  Frames-unique (bad h e) (partial n k e' l) = cc
  Frames-unique (bad h e) (next n e' l f) = cc
  Frames-unique (partial n h e l) (short k) = absurd (omega arith)
  Frames-unique (partial n h e l) (bad k e') = cc
  Frames-unique (partial n h e l) (partial m k e' l') = record {
    messages = refl;
    left_over = refl;
    verdict = refl;
  }
  Frames-unique (partial n h e l) (next m e' l' f) = absurd (ground arith)
  Frames-unique (next n e l f) (short k) = absurd (omega arith)
  Frames-unique (next n e l f) (bad k e') = cc
  Frames-unique (next n e l f) (partial m k e' l') = absurd (ground arith)
  Frames-unique (next n e l f) (next m e' l' g) =
      let nm : n ≡ m = ground arith in
      let (msgs, left, verdict) = reading (Frames-unique f (rw (← nm) at g)) in
      record { messages = cc; left_over = left; verdict = verdict }

  -- A later chunk continues what the first one left over.
  pub Frames-append :
      {xs : List ℕ} {ps qs : List (List ℕ)} {rest out : List ℕ} {b c : Bool} (ys : List ℕ)
      → Frames xs ps rest b
      → Frames (rest ++ ys) qs out c
      → Frames (xs ++ ys) (ps ++ qs) out c
  Frames-append ys (short h) g = g
  Frames-append ys (bad h e) g = g
  Frames-append ys (partial n h e l) g = g
  Frames-append {qs} {out} {c} ys (next {xs = xs} {ps = ps} n e l f) g =
      let d4 : drop 4 (xs ++ ys) ≡ drop 4 xs ++ ys = drop-append 4 xs ys (omega arith) in
      let fits : n ≤ length (drop 4 xs) = omega (arith, length-drop 4 xs) in
      let more : Frames (drop n (drop 4 (xs ++ ys))) (ps ++ qs) out c =
        rw (d4, drop-append n (drop 4 xs) ys fits) (Frames-append ys f g) in
      let long : n + 4 ≤ length (xs ++ ys) = omega (arith, length-append xs ys) in
      let len : frame_len net (xs ++ ys) ≡ some n = frame_len-append xs ys (omega arith) ∙ e in
      let whole : Frames (xs ++ ys) (take n (drop 4 (xs ++ ys)) ∷ (ps ++ qs)) out c =
        next n len long more in
      rw (d4, take-append n (drop 4 xs) ys fits) at whole

  -- A bad length stays in front, and is met again.
  pub Frames-bad :
      {xs : List ℕ} {ps qs : List (List ℕ)} {rest out : List ℕ} {b c : Bool} (ys : List ℕ)
      → Frames xs ps rest b
      → Frames (rest ++ ys) qs out c
      → b ≡ true
      → c ≡ true
  Frames-bad ys (short h) g e = cc
  Frames-bad {xs} ys (bad h e') g e = again g
    where
      long : 4 ≤ length (xs ++ ys)
      long = omega (arith, length-append xs ys)

      again : {qs : List (List ℕ)} {out : List ℕ} {c : Bool} → Frames (xs ++ ys) qs out c → c ≡ true
      again k = (Frames-unique k (bad long (frame_len-append xs ys h ∙ e'))).verdict
  Frames-bad ys (partial n h e' l) g e = cc
  Frames-bad ys (next n e' l f) g e = Frames-bad ys f g e
