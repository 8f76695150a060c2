-- ===== src/System/Lifetimes/Sent.antt =====
-- The packets of connections that come and go, and the connections that they came from.
use pets_server_linux.Common.{
  ℕ, ◌≡◌, ◌≢◌, refl, ap, Bool, true, false, Option, none, some, List, [], ◌∷◌, ◌++◌, arith, ◌==◌,
  if◌then◌else◌,
}
use pets_server_linux.Common.Maps
use pets_server_linux.Common.Maps.{at}
use pets_server_linux.Dispatcher.{SPacket}
use pets_server_linux.Codec.{Context, of_dnid}
use pets_server_linux.Codec.Receive.{packet}
use pets_server_linux.System.{messages_of}
use pets_server_linux.System.Lifetimes.{sent_by}

-- Each packet has the number that is the context of its connection.
pub data Sent (contexts : List (ℕ × Context)) : List ℕ → List SPacket → Type 0 where
  no_packets : Sent contexts [] []
  packet_of :
      {ss : List ℕ} {ps : List SPacket} (c : ℕ) (p : SPacket)
      → Maps.find c contexts ≡ some (of_dnid p.dnid)
      → Sent contexts ss ps
      → Sent contexts (c ∷ ss) (p ∷ ps)

pub Sent-append :
    {contexts : List (ℕ × Context)} {ss : List ℕ} {ps : List SPacket} (c : ℕ) (p : SPacket)
    → Sent contexts ss ps
    → Maps.find c contexts ≡ some (of_dnid p.dnid)
    → Sent contexts (ss ++ c ∷ []) (ps ++ p ∷ [])
Sent-append c p no_packets h = packet_of c p h no_packets
Sent-append c p (packet_of d q e s) h = packet_of d q e (Sent-append c p s h)

pub Sent-contexts :
    {xs ys : List (ℕ × Context)} {ss : List ℕ} {ps : List SPacket}
    → ((c k : ℕ) → Maps.find c xs ≡ some (of_dnid k) → Maps.find c ys ≡ some (of_dnid k))
    → Sent xs ss ps
    → Sent ys ss ps
Sent-contexts kept no_packets = no_packets
Sent-contexts kept (packet_of c p e s) = packet_of c p (kept c p.dnid e) (Sent-contexts kept s)

pub sent_by-append :
    {contexts : List (ℕ × Context)} {ss : List ℕ} {ps : List SPacket} (c j d : ℕ) (msg : List ℕ)
    → Sent contexts ss ps
    → sent_by j (ss ++ c ∷ []) (ps ++ packet d msg ∷ [])
      ≡ sent_by j ss ps ++ (if c == j then msg ∷ [] else [])
unfolding sent_by
sent_by-append c j d msg no_packets = go (c == j)
  where
    go : (b : Bool) → (if b then msg ∷ [] else []) ≡ [] ++ (if b then msg ∷ [] else [])
    go b = refl
sent_by-append c j d msg (packet_of s p e rest) =
    go p.buffer (s == j) _ _ _ (sent_by-append c j d msg rest)
  where
    go :
        (b : Option (List ℕ)) (own : Bool) (xs ys zs : List (List ℕ))
        → xs ≡ ys ++ zs
        → (elim b [ none ↦ xs | some m ↦ if own then m ∷ xs else xs ])
          ≡ (elim b [ none ↦ ys | some m ↦ if own then m ∷ ys else ys ]) ++ zs
    go none own xs ys zs h = h
    go (some m) true xs ys zs h = ap (◌∷◌ m) h
    go (some m) false xs ys zs h = h

-- If a connection is the only one with its number, its messages are those with the number.
pub sent_by-messages_of :
    {contexts : List (ℕ × Context)} {ss : List ℕ} {ps : List SPacket} (c k : ℕ)
    → Sent contexts ss ps
    → Maps.find c contexts ≡ some (of_dnid k)
    → ((j : ℕ) → j ≢ c → Maps.find j contexts ≢ some (of_dnid k))
    → sent_by c ss ps ≡ messages_of k ps
unfolding sent_by messages_of
sent_by-messages_of c k no_packets h only = refl
sent_by-messages_of c k (packet_of s p e rest) h only =
    go p.buffer (s == c) (p.dnid == k) _ _ same (sent_by-messages_of c k rest h only)
  where
    same : (s == c) ≡ (p.dnid == k)
    same = ground (arith, only s)

    go :
        (b : Option (List ℕ)) (own numbered : Bool) (xs ys : List (List ℕ))
        → own ≡ numbered
        → xs ≡ ys
        → (elim b [ none ↦ xs | some m ↦ if own then m ∷ xs else xs ])
          ≡ (elim b [ none ↦ ys | some m ↦ if numbered then m ∷ ys else ys ])
    go none own numbered xs ys n h = h
    go (some m) own numbered xs ys n h = rw (n, h) refl
