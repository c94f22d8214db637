-- ===== src/Netstate/Policies.antt =====
-- internal/netstate/policies.go: the rows of all policies, in one order.
use dotvirt.Prelude.{
  ltb, str_lt, ==_iff, Bool-cases, get_elem?, ℕ, refl, sym, ap, inl, inr, Bool, true, false, not,
  Option, none, some, List, [], map, arith, str_eq, ◌==◌, if◌then◌else◌, ◌+◌, ◌≤◌, ◌<◌, ◌≡◌, ◌∙◌,
  ◌⊎◌, ◌∷◌, ◌++◌,
}
use dotvirt.Prelude.Sort.{
  sort_by, count_if, count_if-append, count_if-sort_by, Ordered, sort_by-Ordered,
}
use dotvirt.Netstate.Doc.{Object}
use dotvirt.Netstate.View.{Policy, PolicyKind, dfw, admin, baseline, gateway, egressip, route}
use dotvirt.Netstate.Decode.{
  Bindable, decode_netpol, decode_admin, decode_gateway, decode_egress_ip, decode_ext_route,
}
use dotvirt.Netstate.Snapshot.{Snapshot, decoded}

unfoldable pub kind_rank : PolicyKind → ℕ
kind_rank admin = 0
kind_rank baseline = 1
kind_rank dfw = 2
kind_rank gateway = 3
kind_rank egressip = 4
kind_rank route = 5

-- The comparison: by kind, precedence, namespace and name. Kinds differ exactly when their ranks do.
unfoldable pub row_less : Policy → Policy → Bool
unfolding kind_rank
row_less a b =
    if not (kind_rank a.kind == kind_rank b.kind)
    then ltb (kind_rank a.kind) (kind_rank b.kind)
    else if not (a.priority == b.priority)
    then ltb a.priority b.priority
    else if not (str_eq a.namespace b.namespace)
    then str_lt a.namespace b.namespace
    else str_lt a.name b.name

-- the rows of one store
unfoldable pub rows : {S : Type 0} → List (Object S) → (Object S → Bindable) → List Policy
rows objs dec = map (λ (p : Bindable). p.view) (decoded objs dec)

-- The stores in the order of the loop, their rows sorted.
unfoldable pub policies : Snapshot → List Policy
policies s = sort_by row_less (
    rows s.netpol decode_netpol
    ++ (rows s.anp (decode_admin false)
        ++ (rows s.banp (decode_admin true)
            ++ (rows s.egressfw decode_gateway
                ++ (rows s.egressip decode_egress_ip ++ rows s.extroute decode_ext_route)))))

-- How many rows of the six stores pass a test.
abbrev pub stored : (Policy → Bool) → Snapshot → ℕ
stored p s =
    count_if p (rows s.netpol decode_netpol)
    + (count_if p (rows s.anp (decode_admin false))
        + (count_if p (rows s.banp (decode_admin true))
            + (count_if p (rows s.egressfw decode_gateway)
                + (count_if p (rows s.egressip decode_egress_ip)
                    + count_if p (rows s.extroute decode_ext_route)))))

-- The tiers as they are listed.
abbrev pub tier_order : List PolicyKind
tier_order = admin ∷ baseline ∷ dfw ∷ gateway ∷ egressip ∷ route ∷ []

-- the tier `j` is listed before the tier `k`
abbrev pub Before : PolicyKind → PolicyKind → Type 0
Before j k =
    (m n : ℕ) × (m < n) × (get_elem? tier_order m ≡ some j) × (get_elem? tier_order n ≡ some k)

-- by the tier, and within one by the precedence
abbrev pub Listed : Policy → Policy → Type 0
Listed a b = Before a.kind b.kind ⊎ ((a.kind ≡ b.kind) × (a.priority ≤ b.priority))

ranked : (k : PolicyKind) → get_elem? tier_order (kind_rank k) ≡ some k
unfolding kind_rank
ranked admin = refl
ranked baseline = refl
ranked dfw = refl
ranked gateway = refl
ranked egressip = refl
ranked route = refl

rank-Before : (j k : PolicyKind) → kind_rank j < kind_rank k → Before j k
rank-Before j k h = (kind_rank j, kind_rank k, h, ranked j, ranked k)

same_rank : (j k : PolicyKind) → kind_rank j ≡ kind_rank k → j ≡ k
same_rank j k h =
    let e : some j ≡ some k = sym (ranked j) ∙ (ap (get_elem? tier_order) h ∙ ranked k) in
    ap (λ (o : Option PolicyKind). elim o [ none ↦ j | some x ↦ x ]) e

less-Listed : (a b : Policy) → row_less b a ≡ true → Listed b a
unfolding row_less
less-Listed a b h = elim (Bool-cases (kind_rank b.kind == kind_rank a.kind)) [
  | inl t ↦
      inr
        (same_rank b.kind a.kind ((==_iff (kind_rank b.kind) (kind_rank a.kind)).0 t), ground arith)
  | inr f ↦ inl (rank-Before b.kind a.kind (ground arith))
]

not_less-Listed : (a b : Policy) → row_less b a ≡ false → Listed a b
unfolding row_less
not_less-Listed a b h = elim (Bool-cases (kind_rank b.kind == kind_rank a.kind)) [
  | inl t ↦ inr (
    same_rank a.kind b.kind (sym ((==_iff (kind_rank b.kind) (kind_rank a.kind)).0 t)),
    ground arith,
  )
  | inr f ↦ inl (rank-Before a.kind b.kind (ground arith))
]

-- The view lists exactly the rows of the objects of the six stores, each as often as the stores have
-- it, by their tier, admin policies first, then baseline, project and gateway ones, egress IPs and
-- routes, and within a tier by their precedence.
pub policies_complete :
    (s : Snapshot) (p : Policy → Bool)
    → (count_if p (policies s) ≡ stored p s) × Ordered Listed (policies s)
unfolding policies
policies_complete s p = (
  count_if-sort_by row_less p _
      ∙ omega (
        arith,
        count_if-append p (rows s.netpol decode_netpol) _,
        count_if-append p (rows s.anp (decode_admin false)) _,
        count_if-append p (rows s.banp (decode_admin true)) _,
        count_if-append p (rows s.egressfw decode_gateway) _,
        count_if-append p (rows s.egressip decode_egress_ip) _,
      ),
  sort_by-Ordered row_less Listed less-Listed not_less-Listed _,
)
