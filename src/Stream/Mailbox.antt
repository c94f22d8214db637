-- ===== src/Stream/Mailbox.antt =====
-- internal/stream/hub.go and ws.go: a connection's mailbox between the hub, which puts frames in it, and
-- the pump, which writes them.
use dotvirt.Stream.{
  Attempt, Conn, Hub, Levels, deliver, new_conn, drained, drain, send_one, send_to, send_latest,
  send_built, rebuild, serve, reconcile_one, reconcile_keys, reconcile,
}
use dotvirt.Prelude.{
  Bool-cases, refl, inl, inr, Option, none, some, List, [], map, Bytes, bytes_eq, ◌≡◌, ◌⊎◌, ◌∷◌,
  ◌++◌,
}

abbrev pub AllOf : (Conn → Type 0) → List Conn → Type 0
AllOf P [] = Unit
AllOf P (c ∷ cs) = P c × AllOf P cs

pub AllOf-map :
    (P Q : Conn → Type 0) (f : Conn → Conn) (cs : List Conn)
    → ((c : Conn) → P c → Q (f c))
    → AllOf P cs
    → AllOf Q (map f cs)
AllOf-map P Q f [] h a = tt
AllOf-map P Q f (c ∷ cs) h (p, a) = (h c p, AllOf-map P Q f cs h a)

pub AllOf-cong :
    (P Q : Conn → Type 0) (cs : List Conn) → ((c : Conn) → P c → Q c) → AllOf P cs → AllOf Q cs
AllOf-cong P Q [] h a = tt
AllOf-cong P Q (c ∷ cs) h (p, a) = (h c p, AllOf-cong P Q cs h a)

pub AllOf-both :
    (P Q R : Conn → Type 0) (cs : List Conn)
    → ((c : Conn) → P c → Q c → R c)
    → AllOf P cs
    → AllOf Q cs
    → AllOf R cs
AllOf-both P Q R [] h a b = tt
AllOf-both P Q R (c ∷ cs) h (p, a) (q, b) = (h c p q, AllOf-both P Q R cs h a b)

-- one connection gone
pub AllOf-drop :
    (P : Conn → Type 0) (before : List Conn) (c : Conn) (after : List Conn)
    → AllOf P (before ++ c ∷ after)
    → AllOf P (before ++ after)
AllOf-drop P [] c after (p, a) = a
AllOf-drop P (b ∷ bs) c after (p, a) = (p, AllOf-drop P bs c after a)

-- one connection changed
pub AllOf-change :
    (P : Conn → Type 0) (before : List Conn) (c d : Conn) (after : List Conn)
    → (P c → P d)
    → AllOf P (before ++ c ∷ after)
    → AllOf P (before ++ d ∷ after)
AllOf-change P [] c d after f (p, a) = (f p, a)
AllOf-change P (b ∷ bs) c d after f (p, a) = (p, AllOf-change P bs c d after f a)

-- What was sent last waits in the mailbox, or was written last.
abbrev pub Sent : Conn → Type 0
Sent c = (c.out ≡ some c.last_js) ⊎ ((c.out ≡ none) × (c.wrote ≡ c.last_js))

pub new_conn-Sent : (key : Bytes) → Sent (new_conn key)
unfolding new_conn
new_conn-Sent key = inr (refl, refl)

-- the pump then writes it
pub drain-Sent : (c : Conn) → Sent c → (drain c).wrote ≡ c.last_js
unfolding drain drained
drain-Sent c (inl e) = rw e refl
drain-Sent c (inr (e, q)) = rw e q

drained-Sent : (o : Option Bytes) (c : Conn) → c.out ≡ o → Sent c → Sent (drained o c)
unfolding drained
drained-Sent none c q s = s
drained-Sent (some frame) c q (inl e) = inr (refl, cc (q, e))
drained-Sent (some frame) c q (inr (e, w)) = absurd (cc (q, e))

pub Sent-drain : (c : Conn) → Sent c → Sent (drain c)
unfolding drain
Sent-drain c s = drained-Sent c.out c refl s

send_to-Sent : (key frame : Bytes) (c : Conn) → Sent c → Sent (send_to key frame c)
unfolding send_to send_one deliver
send_to-Sent key frame c s = elim (Bool-cases (bytes_eq c.key key)) [
  | inl t ↦ elim (Bool-cases (bytes_eq c.last_js frame)) [
    | inl u ↦ rw (t, u) s
    | inr u ↦ rw (t, u) (inl refl)
  ]
  | inr n ↦ rw n s
]

send_latest-Sent :
    (key frame : Bytes) (cs : List Conn) → AllOf Sent cs → AllOf Sent (send_latest key frame cs)
unfolding send_latest
send_latest-Sent key frame cs a =
    AllOf-map Sent Sent (send_to key frame) cs (send_to-Sent key frame) a

send_built-Sent :
    (key : Bytes) (sent : Option Bytes) (cs : List Conn)
    → AllOf Sent cs
    → AllOf Sent (send_built key sent cs)
unfolding send_built
send_built-Sent key none cs a = a
send_built-Sent key (some sent) cs a = send_latest-Sent key sent cs a

module _ {W Inv : Type 0} (levels : Levels W Inv) (marshal : Inv → Option Bytes)
    (checks : Bytes → W) (tries : Bytes → Attempt W Inv) where
  serve-Sent :
      (key : Bytes) (now : Option Bytes) (a : Attempt W Inv) (h : Hub)
      → AllOf Sent h.conns
      → AllOf Sent (serve levels marshal key now a h).conns
  unfolding serve rebuild
  serve-Sent key none a h s = send_built-Sent key _ h.conns s
  serve-Sent key (some sent) a h s = send_latest-Sent key sent h.conns s

  reconcile_keys-Sent :
      (ks : List Bytes) (h : Hub)
      → AllOf Sent h.conns
      → AllOf Sent (reconcile_keys levels marshal checks tries ks h).conns
  unfolding reconcile_keys reconcile_one
  reconcile_keys-Sent [] h s = s
  reconcile_keys-Sent (k ∷ ks) h s = reconcile_keys-Sent ks _ (serve-Sent k _ (tries k) h s)

  pub reconcile-Sent :
      (h : Hub) → AllOf Sent h.conns → AllOf Sent (reconcile levels marshal checks tries h).conns
  unfolding reconcile
  reconcile-Sent h s = reconcile_keys-Sent _ _ s
