-- ===== src/Stream/Settle.antt =====
-- A pass over the hub in a server that does not move: what each connection then holds.
use dotvirt.Stream.Mailbox.{
  AllOf, AllOf-map, AllOf-cong, AllOf-both, Sent, drain-Sent, reconcile-Sent,
}
use dotvirt.Stream.World.{Part, World, Reach, Ordered, Quiet}
use dotvirt.Stream.Counters.{counter_levels, counter_stamp}
use dotvirt.Stream.Fresh.{DepsNamed, Honest, HonestHub, pruned-Honest, serve-Honest, RunsFrom}
use dotvirt.Stream.{
  drain, Frame, Attempt, Conn, Hub, deliver, send_one, send_to, send_latest, with_bytes, marshalled,
  built, build, send_built, rebuild, current, serve, reconcile_one, reconcile_keys, connected,
  pruned, reconcile, Pass, settle,
}
use dotvirt.Prelude.{
  ==_iff, Bool-cases, any, ℕ, refl, sym, ap, subst, inl, inr, true, Option, none, some, List, [],
  arith, Elem, Bytes, bytes_eq, bytes_eq_iff, ◌==◌, ◌≡◌, ◌∙◌, ◌⊎◌, ◌∷◌,
}

any-Elem : (k : Bytes) (ks : List Bytes) → any (bytes_eq k) ks ≡ true → Elem k ks
any-Elem k [] h = cc h
any-Elem k (j ∷ js) h = elim (Bool-cases (bytes_eq k j)) [
  | inl t ↦ inl ((bytes_eq_iff k j).0 t)
  | inr n ↦ inr (any-Elem k js (rw n at h))
]

-- every connection has its turn in a pass
connected-Elem : (cs : List Conn) → AllOf (λ (c : Conn). Elem c.key (connected cs)) cs
unfolding connected
connected-Elem [] = tt
connected-Elem (c ∷ cs) = elim (Bool-cases (any (bytes_eq c.key) (connected cs))) [
  | inl t ↦
      let e : connected (c ∷ cs) ≡ connected cs = rw t refl in
      subst (λ ks. AllOf (λ (d : Conn). Elem d.key ks) (c ∷ cs)) (sym e)
        (any-Elem c.key (connected cs) t, connected-Elem cs)
  | inr n ↦
      let e : connected (c ∷ cs) ≡ c.key ∷ connected cs = rw n refl in
      subst (λ ks. AllOf (λ (d : Conn). Elem d.key ks) (c ∷ cs)) (sym e)
        (
          inl refl,
          AllOf-cong (λ (d : Conn). Elem d.key (connected cs))
              (λ (d : Conn). Elem d.key (c.key ∷ connected cs)) cs (λ d e. inr e)
              (connected-Elem cs),
        )
]

module _ {Inv : Type 0} (deps : Inv → List Bytes) (marshal : Inv → Option Bytes)
    (view : Bytes → (Part → ℕ) → Inv) (w : World) where
  -- The last message to the connection's socket, once its pump has emptied the mailbox, is the
  -- inventory of its identity.
  abbrev pub UpToDate : Conn → Type 0
  UpToDate c = marshal (view c.key w.written) ≡ some (drain c).wrote

  -- the hub has noted that inventory as sent
  abbrev Noted : Conn → Type 0
  Noted c = marshal (view c.key w.written) ≡ some c.last_js

  -- it has, or the connection's turn is still to come
  abbrev pub Due : List Bytes → Conn → Type 0
  Due ks c = Noted c ⊎ Elem c.key ks

  Noted-UpToDate : (c : Conn) → Noted c → Sent c → UpToDate c
  Noted-UpToDate c n s = n ∙ ap some (sym (drain-Sent c s))

  send_to-Due :
      (k sent : Bytes) (ks : List Bytes) (c : Conn)
      → marshal (view k w.written) ≡ some sent
      → Due (k ∷ ks) c
      → Due ks (send_to k sent c)
  unfolding send_to send_one deliver
  send_to-Due k sent ks c m d = elim (Bool-cases (bytes_eq c.key k)) [
    | inl t ↦ elim (Bool-cases (bytes_eq c.last_js sent)) [
      | inl u ↦ rw (t, u) (inl (own t ∙ m ∙ ap some (sym ((bytes_eq_iff c.last_js sent).0 u))))
      | inr u ↦ rw (t, u) (inl (own t ∙ m))
    ]
    | inr n ↦ rw n (elim d [
      | inl u ↦ inl u
      | inr (inl e) ↦ absurd (cc (n, (bytes_eq_iff c.key k).1 e))
      | inr (inr e) ↦ inr e
    ])
  ]
    where
      own : bytes_eq c.key k ≡ true → marshal (view c.key w.written) ≡ marshal (view k w.written)
      own t = ap (λ (j : Bytes). marshal (view j w.written)) ((bytes_eq_iff c.key k).0 t)

  send_latest-Due :
      (k sent : Bytes) (ks : List Bytes) (cs : List Conn)
      → marshal (view k w.written) ≡ some sent
      → AllOf (Due (k ∷ ks)) cs
      → AllOf (Due ks) (send_latest k sent cs)
  unfolding send_latest
  send_latest-Due k sent ks cs m a =
      AllOf-map (Due (k ∷ ks)) (Due ks) (send_to k sent) cs (λ c d. send_to-Due k sent ks c m d) a

  -- a build that begins and ends now
  abbrev pub built_now : Bytes → Attempt World Inv
  built_now key = record { before = w; after = w; checked = w; result = some (view key w.written) }

  pub current-now :
      Quiet w
      → (key sent : Bytes) (f : Option Frame)
      → ((g : Frame) → f ≡ some g → Honest deps marshal view key g w)
      → current (counter_levels deps) marshal w f ≡ some sent
      → marshal (view key w.written) ≡ some sent
  unfolding current
  current-now quiet key sent none h e = cc e
  current-now quiet key sent (some f) h e =
      elim (Bool-cases (counter_stamp w.stamped f.deps == f.stamp)) [
        | inl t ↦
            h f refl w Reach.here quiet ((==_iff (counter_stamp w.stamped f.deps) f.stamp).0 t)
            ∙ (rw t at e)
        | inr n ↦ cc (rw n at e)
      ]

  module _ (quiet : Quiet w)
      (marshals : (key : Bytes) → (b : Bytes) × (marshal (view key w.written) ≡ some b)) where
    serve-Due :
        (k : Bytes) (ks : List Bytes) (now : Option Bytes) (h : Hub)
        → ((sent : Bytes) → now ≡ some sent → marshal (view k w.written) ≡ some sent)
        → AllOf (Due (k ∷ ks)) h.conns
        → AllOf (Due ks) (serve (counter_levels deps) marshal k now (built_now k) h).conns
    unfolding serve rebuild build marshalled with_bytes built send_built
    serve-Due k ks none h good a =
        let (b, m) = marshals k in rw m (send_latest-Due k b ks h.conns m a)
    serve-Due k ks (some sent) h good a = send_latest-Due k sent ks h.conns (good sent refl) a

    module _ (named : DepsNamed deps marshal view) (ordered : Ordered w) where
      now-RunsFrom : RunsFrom deps marshal view w w built_now
      now-RunsFrom key = (stay, (w.written, λ p. (omega arith, omega arith), λ inv e. cc e))
        where
          stay : Reach w w × Reach w w × Reach w w × Reach w w
          stay = (Reach.here, Reach.here, Reach.here, Reach.here)

      reconcile_keys-Due :
          (ks : List Bytes) (h : Hub)
          → HonestHub deps marshal view w h
          → AllOf (Due ks) h.conns
          → AllOf Noted (reconcile_keys (counter_levels deps) marshal (λ k. w) built_now ks h).conns
      unfolding reconcile_keys reconcile_one
      reconcile_keys-Due [] h honest a =
          AllOf-cong (Due []) Noted h.conns (λ c d. elim d [ inl u ↦ u | inr e ↦ absurd e ]) a
      reconcile_keys-Due (k ∷ ks) h honest a =
          reconcile_keys-Due ks _
            (serve-Honest deps marshal view named k _ built_now w w h ordered now-RunsFrom honest)
            (serve-Due k ks _ h (λ sent e. current-now quiet k sent _ (honest k) e) a)

      -- with frames that are honest
      pub settle-UpToDate :
          (h : Hub) (ps : List (Pass World Inv))
          → HonestHub deps marshal view w h
          → AllOf Sent h.conns
          → (next : Hub) × (settle
                (counter_levels deps)
                marshal
                (record { start = w; checks = λ k. w; tries = built_now; end = w } ∷ ps)
                h
              ≡ some next)
            × AllOf UpToDate next.conns
      unfolding settle reconcile
      settle-UpToDate h ps honest sent =
          let keys = connected h.conns in
          let start = record h { idents = pruned keys h.idents } in
          let delivered =
            reconcile_keys-Due keys start (pruned-Honest deps marshal view named keys w h honest) (
              AllOf-cong (λ (c : Conn). Elem c.key keys) (Due keys) h.conns (λ c e. inr e)
                (connected-Elem h.conns)) in
          let still = (==_iff w.total w.total).1 refl in
          (
            reconcile_keys (counter_levels deps) marshal (λ k. w) built_now keys start,
            rw still refl,
            AllOf-both Noted Sent UpToDate _ Noted-UpToDate delivered
                (reconcile-Sent (counter_levels deps) marshal (λ k. w) built_now h sent),
          )
