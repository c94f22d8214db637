-- ===== src/Stream.antt =====
-- internal/stream/hub.go, levels.go and ws.go: the live inventory of the connected identities. What
-- the hub reads of the rest of the server, it reads at a moment: `W` is what the moments are of. A
-- build spans three of them, and what it comes to (`Attempt`) is an argument, as are the moments of a
-- pass. Of ws.go it is the start of a connection and the writing of a frame that waits. The workers of a pass handle one identity each, and no connection is of two identities, so a
-- pass is one identity after the other. A stamp is the sum of several counters, read here at one
-- moment. Left out are the tear-down of a connection while a frame is put in its mailbox, and the
-- log.
pub mod World
pub mod Counters
pub mod Fresh
pub mod Settle
pub mod Live
pub mod Mailbox
pub mod Repos
use dotvirt.Prelude.{
  any, ℕ, Bool, true, false, Option, none, some, List, [], map, Bytes, bytes_eq, ◌==◌,
  if◌then◌else◌, ◌&&◌, ◌∷◌,
}
use dotvirt.Prelude.Maps.{lookup, insert, without}

-- the interface of Go
pub record Levels (W Inv : Type 0) : Type 0 where
  pub total : W → ℕ
  pub deps : Inv → List Bytes
  pub stamp : W → List Bytes → ℕ

pub record Frame : Type 0 where
  pub payload : Bytes
  pub deps : List Bytes
  pub stamp : ℕ

-- `out` is the mailbox of one slot; the key stands for the identity. `wrote` is the last message that
-- went to the client's socket.
pub record Conn : Type 0 where
  pub key : Bytes
  pub out : Option Bytes
  pub last_js : Bytes
  pub wrote : Bytes

pub record Hub : Type 0 where
  pub conns : List Conn
  pub idents : List (Bytes × Frame)
  pub kicked : Bool

abbrev pub new_hub : Hub
new_hub = record { conns = []; idents = []; kicked = false }

unfoldable pub add : Conn → Hub → Hub
add c h = record h { conns = c ∷ h.conns; kicked = true }

-- a client that has just connected
unfoldable pub new_conn : Bytes → Conn
new_conn key = record { key = key; out = none; last_js = []; wrote = [] }

unfoldable pub drained : Option Bytes → Conn → Conn
drained none c = c
drained (some frame) c = record c { out = none; wrote = frame }

-- One turn of `writePump` that writes the waiting frame, where there is one, and does not fail. (A
-- write that fails ends the connection.)
unfoldable pub drain : Conn → Conn
unfolding drained
drain c = drained c.out c

-- A new frame replaces one that was not sent yet.
unfoldable pub deliver : Bytes → Conn → Conn
deliver frame c = record c { out = some frame }

unfoldable pub send_one : Bytes → Conn → Conn
unfolding deliver
send_one frame c =
    if bytes_eq c.last_js frame then c else record (deliver frame c) { last_js = frame }

-- to the connections of one identity
unfoldable pub send_to : Bytes → Bytes → Conn → Conn
send_to key frame c = if bytes_eq c.key key then send_one frame c else c

unfoldable pub send_latest : Bytes → Bytes → List Conn → List Conn
send_latest key frame cs = map (send_to key frame) cs

-- the moments before a build, at the stamp after it, and at the total after that
pub record Attempt (W Inv : Type 0) : Type 0 where
  pub before : W
  pub after : W
  pub checked : W
  pub result : Option Inv

-- slices.Equal
unfoldable pub keys_eq : List Bytes → List Bytes → Bool
keys_eq [] [] = true
keys_eq [] (d ∷ t) = false
keys_eq (c ∷ s) [] = false
keys_eq (c ∷ s) (d ∷ t) = bytes_eq c d && keys_eq s t

abbrev pub deps_of : Option Frame → List Bytes
deps_of none = []
deps_of (some f) = f.deps

unfoldable pub store_frame : Bytes → Option Frame → List (Bytes × Frame) → List (Bytes × Frame)
store_frame key none idents = without key idents
store_frame key (some f) idents = insert key f idents

unfoldable pub send_built : Bytes → Option Bytes → List Conn → List Conn
send_built key none cs = cs
send_built key (some sent) cs = send_latest key sent cs

-- each identity that is connected, once
unfoldable pub connected : List Conn → List Bytes
connected [] = []
connected (c ∷ cs) =
    let rest = connected cs in if any (bytes_eq c.key) rest then rest else c.key ∷ rest

unfoldable pub pruned : List Bytes → List (Bytes × Frame) → List (Bytes × Frame)
pruned keys [] = []
pruned keys ((k, f) ∷ idents) =
    let rest = pruned keys idents in if any (bytes_eq k) keys then (k, f) ∷ rest else rest

-- the moments of one pass of `Run`: where it reads its target, and where it reads the total again
pub record Pass (W Inv : Type 0) : Type 0 where
  pub start : W
  pub checks : Bytes → W
  pub tries : Bytes → Attempt W Inv
  pub end : W

module _ {W Inv : Type 0} (levels : Levels W Inv) (marshal : Inv → Option Bytes) where
  -- the frame that is kept of a build, once it is sent
  unfoldable pub kept : Attempt W Inv → List Bytes → List Bytes → Bytes → Option Frame
  kept a prev deps sent =
      if keys_eq deps prev
      then some (record { payload = sent; deps = deps; stamp = levels.stamp a.before prev })
      else if levels.total a.checked == levels.total a.before
      then some (record { payload = sent; deps = deps; stamp = levels.stamp a.after deps })
      else none

  unfoldable pub with_bytes : Inv → Option Bytes → Option (Inv × Bytes)
  with_bytes inv none = none
  with_bytes inv (some sent) = some (inv, sent)

  -- nothing where the inventory fails, nor where it cannot be marshalled
  unfoldable pub marshalled : Option Inv → Option (Inv × Bytes)
  marshalled none = none
  marshalled (some inv) = with_bytes inv (marshal inv)

  -- the frame to keep, and what is sent
  unfoldable pub built :
      Attempt W Inv → Option Frame → Option (Inv × Bytes) → Option Frame × Option Bytes
  built a prev none = (none, none)
  built a prev (some (inv, sent)) = (kept a (deps_of prev) (levels.deps inv) sent, some sent)

  unfoldable pub build : Attempt W Inv → Option Frame → Option Frame × Option Bytes
  build a prev = built a prev (marshalled a.result)

  unfoldable pub rebuild : Bytes → Attempt W Inv → Hub → Hub
  rebuild key a h =
      let (f, sent) = build a (lookup key h.idents) in
      record h { conns = send_built key sent h.conns; idents = store_frame key f h.idents }

  -- The frame of an identity is current.
  unfoldable pub current : W → Option Frame → Option Bytes
  current w none = none
  current w (some f) = if levels.stamp w f.deps == f.stamp then some f.payload else none

  unfoldable pub serve : Bytes → Option Bytes → Attempt W Inv → Hub → Hub
  serve key none a h = rebuild key a h
  serve key (some sent) a h = record h { conns = send_latest key sent h.conns }

  -- one identity of a pass: `checks` are the moments at which its frame is looked at
  unfoldable pub reconcile_one : (Bytes → W) → (Bytes → Attempt W Inv) → Bytes → Hub → Hub
  reconcile_one checks tries key h =
      serve key (current (checks key) (lookup key h.idents)) (tries key) h

  unfoldable pub reconcile_keys : (Bytes → W) → (Bytes → Attempt W Inv) → List Bytes → Hub → Hub
  reconcile_keys checks tries [] h = h
  reconcile_keys checks tries (k ∷ ks) h =
      reconcile_keys checks tries ks (reconcile_one checks tries k h)

  unfoldable pub reconcile : (Bytes → W) → (Bytes → Attempt W Inv) → Hub → Hub
  reconcile checks tries h =
      let keys = connected h.conns in
      reconcile_keys checks tries keys (record h { idents = pruned keys h.idents })

  -- The inner loop of `Run`; `none` where the passes that are given do not catch up.
  unfoldable pub settle : List (Pass W Inv) → Hub → Option Hub
  settle [] h = none
  settle (p ∷ ps) h =
      let next = reconcile p.checks p.tries h in
      let rest = settle ps next in
      if levels.total p.end == levels.total p.start then some next else rest
