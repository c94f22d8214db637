-- ===== src/Tests/Callers.antt =====
-- Runs of the authorization of a caller that may read one namespace of two.
use dotvirt.Prelude.{ℕ, Bool, true, false, none, some, List, [], Bytes, bytes, bytes_eq, ◌∷◌, ◌++◌}
use dotvirt.Ttlcache.{Cache, new_cache, answer}
use dotvirt.Project.{platform_name}
use dotvirt.Access.{
  Moments, Times, Versioned, create_key, Answer, ok, err, list_forbidden, Cluster, Server, Caller,
  Scope,
}
use dotvirt.Access.Scopes.{container_scope, pick_project, platform_project}
use dotvirt.Tests.Tenants.{plain, resolver, cluster_namespaces}

abbrev hash : Bytes → Bytes
hash s = s

-- the key under which the right to a descheduler is cached
abbrev drs_key : Bytes
drs_key = bytes "t" ++ 0 ∷ bytes "operator.openshift.io/kubedeschedulers"

abbrev reader : Cluster
reader = record {
  list_namespaces = list_forbidden;
  reads_all = none;
  reads_in = λ n. some (bytes_eq n (bytes "web"));
  creates = λ r. bytes_eq (bytes "t" ++ 0 ∷ create_key plain hash r) drs_key;
  reads_nodes = false;
}

abbrev ann : Caller
ann = record { token = bytes "t"; cluster = λ t. reader }

abbrev server : Server
server = record {
  bus = λ t. none;
  visible = new_cache 60;
  ssar = new_cache 60;
  namespaces = λ t. cluster_namespaces;
  resolver = resolver;
  platform_repo = [];
}

-- the moments of one read, and of a request that makes them all at once
abbrev soon : Moments
soon = record { started = 5; looked = 5; asked = 6; stored = 7 }

abbrev times : Times
times = record { visible = soon; creates = λ r. soon; nodes = soon; resolved = 8 }

-- what every token is told of the namespaces
abbrev truth : Bytes → ℕ → Answer (List Bytes)
truth k t = ok (bytes "web" ∷ [])

abbrev still : ℕ → ℕ
still t = 0

-- an answer of a minute's cache, from the moments 1 and 2
abbrev held : Cache (Versioned (List Bytes))
held = record {
  ttl = 60;
  entries =
      (bytes "t", record { val = record { answer = bytes "web" ∷ []; ver = 0 }; stored_at = 2 })
      ∷ [];
}

abbrev scoped : Answer (Scope × List Bytes)
scoped = (container_scope plain hash times (some ann) (bytes "shop") [] server).0

abbrev scope : Scope
scope = elim scoped [
  | err e ↦ record { caller = ann; proj = platform_project server; platform = false }
  | ok (sc, ns) ↦ sc
]

-- with a platform repository
abbrev platform_server : Server
platform_server = record server { platform_repo = bytes "https://git/platform" }

abbrev drafted : Answer Scope
drafted = (pick_project plain hash times (some ann) platform_name platform_server).0

abbrev draft : Scope
draft = record { caller = ann; proj = platform_project platform_server; platform = true }

abbrev verdicts : Bytes → ℕ → Answer Bool
verdicts k t = ok (bytes_eq k drs_key)
