-- ===== src/Access.antt =====
-- internal/api/scope.go, handlers_tasks.go and internal/cluster/cluster.go: who is calling, what the
-- caller may see, and which project a request is for. The answers of the API server to the caller's
-- token, the hash of a token and the factory of clients are parameters; a response that is written is
-- the error that it carries. What others change, a request reads at a moment of the clock: the answers
-- to a token, the bus and the namespaces of the snapshot are functions of time, and `Times` has the
-- moments at which a request reads them. Between a look into a cache and the storing no other request
-- stores an answer there.
pub mod Scopes
pub mod Memo
pub mod Gates
pub mod Drafting
use dotvirt.Prelude.{
  any, ℕ, Bool, false, Option, none, some, List, [], map, Bytes, bytes, bytes_eq, ◌==◌,
  if◌then◌else◌, ◌∷◌, ◌++◌,
}
use dotvirt.Eventbus.{Bus, version, rbac_changed, namespace_changed}
use dotvirt.Ttlcache.{Cache, get, put_entry}
use dotvirt.Forge.{Net}
use dotvirt.Project.{ProjectInfo, Namespace, Resolver, platform_name, resolve}

pub data Failure : Type 0 where
  unavailable not_found forbidden invalid failed : Failure

pub data Answer (A : Type 0) : Type 0 where
  ok : A → Answer A
  err : Failure → Answer A

-- `ssarRef`
pub record CreateRef : Type 0 where
  pub api_group : Bytes
  pub plural : Bytes

-- What the list of the namespaces answers.
pub data Listing : Type 0 where
  listed : List Bytes → Listing
  list_forbidden list_failed : Listing

-- The API server as one token sees it; `none` is a failed review.
pub record Cluster : Type 0 where
  pub list_namespaces : Listing
  pub reads_all : Option Bool
  pub reads_in : Bytes → Option Bool
  pub creates : CreateRef → Bool
  pub reads_nodes : Bool

-- A cached answer with the version that it was read at: `visibleSet`, `ssarVerdict`.
pub record Versioned (V : Type 0) : Type 0 where
  pub answer : V
  pub ver : ℕ

pub record Server : Type 0 where
  pub bus : ℕ → Option Bus
  pub visible : Cache (Versioned (List Bytes))
  pub ssar : Cache (Versioned Bool)
  pub namespaces : ℕ → List Namespace
  pub resolver : Resolver
  pub platform_repo : Bytes

-- the caller: the identity in the request, and the client that the factory makes for its token
pub record Caller : Type 0 where
  pub token : Bytes
  pub cluster : ℕ → Cluster

-- The moments of one cached read: where it reads the version, looks into the cache, makes the probe
-- and stores the answer.
pub record Moments : Type 0 where
  pub started : ℕ
  pub looked : ℕ
  pub asked : ℕ
  pub stored : ℕ

-- those of a request: for what the caller may see and may create, for the nodes, and for the projects
pub record Times : Type 0 where
  pub visible : Moments
  pub creates : CreateRef → Moments
  pub nodes : Moments
  pub resolved : ℕ

pub record Scope : Type 0 where
  pub caller : Caller
  pub proj : ProjectInfo
  pub platform : Bool

unfoldable pub rbac_version : Server → ℕ → ℕ
rbac_version s t = version (s.bus t) (rbac_changed ∷ namespace_changed ∷ [])

unfoldable pub probed : Cluster → List Bytes → List Bytes
probed c [] = []
probed c (n ∷ ns) =
    let rest = probed c ns in
    elim (c.reads_in n) [ none ↦ rest | some b ↦ if b then n ∷ rest else rest ]

-- `VisibleNamespaces`
unfoldable pub visible_namespaces : Cluster → List Bytes → Answer (List Bytes)
visible_namespaces c candidates = elim c.list_namespaces [
  | list_failed ↦ err failed
  | list_forbidden ↦ ok (probed c candidates)
  | listed names ↦ elim c.reads_all [
    | none ↦ err failed
    | some b ↦ if b then ok names else ok (probed c candidates)
  ]
]

-- The read of a cached answer, which counts while the version is the one that it was read at; else the
-- probe is made, and its answer, but not its failure, is cached under the version read before.
unfoldable pub fresh_of : {V : Type 0} → ℕ → Option (Versioned V) → Option V
fresh_of ver none = none
fresh_of ver (some e) = if e.ver == ver then some e.answer else none

unfoldable pub store_answer :
    {V : Type 0} → ℕ → Bytes → ℕ → Answer V → Cache (Versioned V) → Answer V × Cache (Versioned V)
store_answer now key ver (err e) c = (err e, c)
store_answer now key ver (ok v) c = (ok v, put_entry now key (record { answer = v; ver = ver }) c)

unfoldable pub or_probe :
    {V : Type 0}
    → Option V
    → Moments
    → Bytes
    → ℕ
    → (ℕ → Answer V)
    → Cache (Versioned V)
    → Answer V × Cache (Versioned V)
or_probe (some v) m key ver probe c = (ok v, c)
or_probe none m key ver probe c = store_answer m.stored key ver (probe m.asked) c

-- the version and the probe at each moment
unfoldable pub versioned_read :
    {V : Type 0}
    → Moments
    → Bytes
    → (ℕ → ℕ)
    → (ℕ → Answer V)
    → Cache (Versioned V)
    → Answer V × Cache (Versioned V)
versioned_read m key ver_at probe c =
    let ver = ver_at m.started in or_probe (fresh_of ver (get m.looked key c)) m key ver probe c

unfoldable pub namespace_names : List Namespace → List Bytes
namespace_names nss = map (λ (n : Namespace). n.name) nss

unfoldable pub find_project : List ProjectInfo → Bytes → Option ProjectInfo
find_project [] want = none
find_project (p ∷ ps) want = if bytes_eq p.name want then some p else find_project ps want

unfoldable pub owning_project : List ProjectInfo → Bytes → Option ProjectInfo
owning_project [] ns = none
owning_project (p ∷ ps) ns =
    if any (λ n. bytes_eq n ns) p.namespaces then some p else owning_project ps ns

module _ (net : Net) (token_key : Bytes → Bytes) where
  -- what the token is told of the namespaces of the snapshot
  unfoldable pub told : Caller → Server → ℕ → Answer (List Bytes)
  unfolding namespace_names
  told caller s t = visible_namespaces (caller.cluster t) (namespace_names (s.namespaces t))

  unfoldable pub visible_for : Times → Caller → Server → Answer (List Bytes) × Server
  visible_for times caller s =
      let (a, c) =
        versioned_read times.visible (token_key caller.token) (rbac_version s) (told caller s)
          s.visible in
      (a, record s { visible = c })

  unfoldable pub ssar_checked :
      Moments → Caller → Bytes → (ℕ → Answer Bool) → Server → Answer Bool × Server
  ssar_checked m caller key probe s =
      let (a, c) =
        versioned_read m (token_key caller.token ++ 0 ∷ key) (rbac_version s) probe s.ssar in
      (a, record s { ssar = c })

  -- a probe of `ssarCached` does not fail
  unfoldable pub granted : Answer Bool → Bool
  granted (ok b) = b
  granted (err e) = false

  unfoldable pub create_key : CreateRef → Bytes
  create_key ref = ref.api_group ++ (bytes "/" ++ ref.plural)

  unfoldable pub can_create_cached : Times → Caller → CreateRef → Server → Bool × Server
  can_create_cached times caller ref s =
      let (a, t) =
        ssar_checked (times.creates ref) caller (create_key ref)
          (λ t. ok ((caller.cluster t).creates ref)) s in
      (granted a, t)

  unfoldable pub can_read_nodes_cached : Times → Caller → Server → Bool × Server
  can_read_nodes_cached times caller s =
      let (a, t) =
        ssar_checked times.nodes caller (bytes "read" ++ 0 ∷ bytes "nodes")
          (λ t. ok (caller.cluster t).reads_nodes) s in
      (granted a, t)
