-- ===== src/Stream/Live.antt =====
-- internal/stream/hub.go and ws.go: the hub in a server that moves. Between the passes connections
-- come and go and their pumps write, and the server moves on at any time.
use dotvirt.Prelude.Maps.{lookup}
use dotvirt.Stream.World.{Part, World, Reach, Reach-trans, Reach-Ordered, Ordered, Quiet}
use dotvirt.Stream.Counters.{counter_levels}
use dotvirt.Stream.Fresh.{DepsNamed, HonestHub, RunsFrom, Honest-Reach, reconcile-Honest}
use dotvirt.Stream.Settle.{current-now}
use dotvirt.Stream.{new_hub, add, new_conn, drain, Attempt, Conn, Hub, current, reconcile}
use dotvirt.Prelude.{ℕ, Option, some, List, Bytes, ◌≡◌, ◌∷◌, ◌++◌}

module _ {Inv : Type 0} (deps : Inv → List Bytes) (marshal : Inv → Option Bytes)
    (view : Bytes → (Part → ℕ) → Inv) where
  -- what becomes of a hub from its start at a moment
  pub data Runs (start : World) : World → Hub → Type 0 where
    starts : Runs start start new_hub
    moves : {w u : World} {h : Hub} → Runs start w h → Reach w u → Runs start u h
    joins :
        {w : World} {h : Hub} → Runs start w h → (key : Bytes) → Runs start w (add (new_conn key) h)
    leaves :
        {w : World} {h : Hub}
        → Runs start w h
        → (before : List Conn) (c : Conn) (after : List Conn) → h.conns ≡ before ++ c ∷ after
        → Runs start w (record h { conns = before ++ after })
    drains :
        {w : World} {h : Hub}
        → Runs start w h
        → (before : List Conn) (c : Conn) (after : List Conn) → h.conns ≡ before ++ c ∷ after
        → Runs start w (record h { conns = before ++ drain c ∷ after })
    passes :
        {w u : World} {h : Hub}
        → Runs start w h
        → (checks : Bytes → World) (tries : Bytes → Attempt World Inv) → Reach w u
        → RunsFrom deps marshal view w u tries
        → Runs start u (reconcile (counter_levels deps) marshal checks tries h)

  Runs-Reach : {start w : World} {h : Hub} → Runs start w h → Reach start w
  Runs-Reach starts = Reach.here
  Runs-Reach (moves r s) = Reach-trans (Runs-Reach r) s
  Runs-Reach (joins r key) = Runs-Reach r
  Runs-Reach (leaves r before c after e) = Runs-Reach r
  Runs-Reach (drains r before c after e) = Runs-Reach r
  Runs-Reach (passes r checks tries s b) = Reach-trans (Runs-Reach r) s

  module _ (named : DepsNamed deps marshal view) where
    Runs-Honest :
        {start w : World} {h : Hub}
        → Ordered start
        → Runs start w h
        → HonestHub deps marshal view w h
    unfolding lookup add
    Runs-Honest o starts key f e = cc e
    Runs-Honest o (moves {w} {u} r s) key f e =
        Honest-Reach deps marshal view key f w u s (Runs-Honest o r key f e)
    Runs-Honest o (joins r k) key f e = Runs-Honest o r key f e
    Runs-Honest o (leaves r before c after q) key f e = Runs-Honest o r key f e
    Runs-Honest o (drains r before c after q) key f e = Runs-Honest o r key f e
    Runs-Honest o (passes {w} {u} {h} r checks tries s b) key f e =
        reconcile-Honest deps marshal view named checks tries w u h (Reach-Ordered (Runs-Reach r) o)
          s b (Runs-Honest o r) key f e

    -- In a server that publishes after it writes, and where Deps names what an inventory depends on,
    -- after any run of the hub, with passes during which anything moves: when all that is written is
    -- published, a frame that the hub sends as current is the inventory of its identity at that moment.
    pub current-IsInventory :
        {start w : World} {h : Hub}
        → Ordered start
        → Runs start w h
        → Quiet w
        → (key sent : Bytes)
        → current (counter_levels deps) marshal w (lookup key h.idents) ≡ some sent
        → marshal (view key w.written) ≡ some sent
    current-IsInventory {start} {w} {h} o r q key sent e =
        current-now deps marshal view w q key sent (lookup key h.idents) (Runs-Honest o r key) e
