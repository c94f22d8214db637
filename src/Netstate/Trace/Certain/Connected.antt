-- ===== src/Netstate/Trace/Certain/Connected.antt =====
-- internal/netstate/topology.go, `primaryOf` and `connectivity`: when two workloads are on one network.
use dotvirt.Netstate.External.{External}
use dotvirt.Netstate.RuleMatch.{TraceWorkload}
use dotvirt.Netstate.Snapshot.{Snapshot}
use dotvirt.Netstate.Topology.{segment_key, primary_domain, primary_of}
use dotvirt.Netstate.Trace.Report.{reachable}
use dotvirt.Prelude.{
  Bool-cases, String, refl, sym, subst, inl, inr, true, arith, str_eq, str_eq_iff, ◌≡◌, ◌∙◌, ◌≢◌,
  ◌⊎◌,
}

module _ (x : External) (s : Snapshot) where
  -- The workload's primary network: the segment that its default network names; without such a name,
  -- where it is on the pod network, the one of its namespace. Else it has none.
  abbrev pub Attaches : TraceWorkload → String → Type 0
  Attaches w k =
      ((w.default_net ≢ "") × (k ≡ (segment_key s w.default_net).0))
      ⊎ ((w.default_net ≡ "") × (w.pod_net ≡ true) × (k ≡ (primary_domain x s w.namespace).0))

  -- some network is the primary one of both
  abbrev pub OneNetwork : TraceWorkload → TraceWorkload → Type 0
  OneNetwork src dst = (k : String) × (k ≢ "") × Attaches src k × Attaches dst k

  Attaches-primary_of : (w : TraceWorkload) (k : String) → Attaches w k → (primary_of x s w).0 ≡ k
  unfolding primary_of
  Attaches-primary_of w k (inl (n, e)) = elim (Bool-cases (str_eq w.default_net "")) [
    | inl t ↦ absurd (n ((str_eq_iff w.default_net "").0 t))
    | inr f ↦ rw f (sym e)
  ]
  Attaches-primary_of w k (inr (n, p, e)) = rw ((str_eq_iff w.default_net "").1 n, p) (sym e)

  primary_of-Attaches :
      (w : TraceWorkload) → (primary_of x s w).0 ≢ "" → Attaches w (primary_of x s w).0
  unfolding primary_of
  primary_of-Attaches w n = elim (Bool-cases (str_eq w.default_net "")) [
    | inr f ↦ rw f (inl (λ e. cc (f, (str_eq_iff w.default_net "").1 e), refl))
    | inl t ↦ elim (Bool-cases w.pod_net) [
      | inl p ↦ rw (t, p) (inr ((str_eq_iff w.default_net "").0 t, refl, refl))
      | inr p ↦ absurd ((rw (t, p) at n) refl)
    ]
  ]

  pub reachable-OneNetwork :
      (src dst : TraceWorkload) → reachable x s src dst ≡ true → OneNetwork src dst
  unfolding reachable
  reachable-OneNetwork src dst h =
      let from = (primary_of x s src).0 in
      let to = (primary_of x s dst).0 in
      let e : from ≡ to = (str_eq_iff from to).0 (ground arith) in
      let n : from ≢ "" = λ q. let r = (str_eq_iff from "").1 q in ground arith in
      let a : Attaches dst to = primary_of-Attaches dst (λ q. n (e ∙ q)) in
      (from, n, primary_of-Attaches src n, subst (λ (k : String). Attaches dst k) (sym e) a)

  pub OneNetwork-reachable :
      (src dst : TraceWorkload) → OneNetwork src dst → reachable x s src dst ≡ true
  unfolding reachable
  OneNetwork-reachable src dst (k, n, a, b) =
      let from = Attaches-primary_of src k a in
      let to = Attaches-primary_of dst k b in
      ground (
        arith,
        from,
        to,
        str_eq_iff (primary_of x s src).0 "",
        str_eq_iff (primary_of x s src).0 (primary_of x s dst).0,
      )
