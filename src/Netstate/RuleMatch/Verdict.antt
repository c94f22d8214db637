-- ===== src/Netstate/RuleMatch/Verdict.antt =====
-- When a rule matches a flow: some peer and, where the rule names ports, some port.
use dotvirt.Prelude.{
  any, all, ℕ, String, refl, ap, Bool, true, false, not, List, [], map, any-map, all-map, ◌≡◌, ◌∙◌,
  ◌&&◌, ◌||◌, ◌∷◌,
}
use dotvirt.Netstate.External.{External}
use dotvirt.Netstate.Match.{any_of, is_yes, is_no}
use dotvirt.Netstate.Match.Combine.{surely_part, never_part, all_of-any_of}
use dotvirt.Netstate.Rule.{Port, Rule}
use dotvirt.Netstate.RuleMatch.{PeerTarget, peer_match, port_match, ports_match, rule_match}

and_true : (b : Bool) → (b && true) ≡ b
and_true true = refl
and_true false = refl

or_false : (b : Bool) → (b || false) ≡ b
or_false true = refl
or_false false = refl

-- a rule that names no port is of every port
abbrev pub portless : List Port → Bool
portless [] = true
portless (p ∷ ps) = false

module _ (x : External) (protocol : String) (port : ℕ) where
  abbrev pub port_surely : Port → Bool
  port_surely p = is_yes (port_match x p protocol port).m

  abbrev pub port_never : Port → Bool
  port_never p = is_no (port_match x p protocol port).m

  ports_lem :
      (ps : List Port)
      → (is_yes (ports_match x ps protocol port).m ≡ (portless ps || any port_surely ps))
        × (is_no (ports_match x ps protocol port).m ≡ (not (portless ps) && all port_never ps))
  unfolding ports_match
  ports_lem [] = (refl, refl)
  ports_lem (p ∷ ps) =
      let (n, y, t, f) = all_of-any_of (map (λ q. port_match x q protocol port) (p ∷ ps)) in
      (
        t ∙ any-map (λ q. port_match x q protocol port) surely_part (p ∷ ps),
        f ∙ all-map (λ q. port_match x q protocol port) never_part (p ∷ ps),
      )

  module _ (r : Rule) (t : PeerTarget) where
    -- A rule matches a flow for certain exactly when some peer does and, where the rule names ports,
    -- some port does; it fails exactly when every peer does or, where it names ports, every port
    -- does.
    pub rule_match_exact :
        (is_yes (rule_match x r t protocol port).m ≡ (
          any (λ p. is_yes (peer_match x t p).m) r.peers
          && (portless r.ports || any port_surely r.ports)))
        × (is_no (rule_match x r t protocol port).m ≡ (
            all (λ p. is_no (peer_match x t p).m) r.peers
            || (not (portless r.ports) && all port_never r.ports)))
    unfolding rule_match
    rule_match_exact =
        let peers = all_of-any_of (map (peer_match x t) r.peers) in
        let both =
          all_of-any_of
            (any_of (map (peer_match x t) r.peers) ∷ ports_match x r.ports protocol port ∷ []) in
        let ports = ports_lem r.ports in
        (
          both.1
              ∙ rw (peers.2, ports.0, any-map (peer_match x t) surely_part r.peers)
                  (ap (λ b. any (λ p. is_yes (peer_match x t p).m) r.peers && b) (and_true _)),
          both.0
              ∙ rw (peers.3, ports.1, all-map (peer_match x t) never_part r.peers)
                  (ap (λ b. all (λ p. is_no (peer_match x t p).m) r.peers || b) (or_false _)),
        )
