-- ===== src/Netstate/External.antt =====
-- What the policy plane calls outside the repository: the address types of net/netip, the case
-- folding of package strings, the JSON decoder, and the label selectors of k8s.io/apimachinery. Nothing is assumed of
-- them, so each theorem holds whatever they answer.
use dotvirt.Prelude.{String, Bool, Option}
use dotvirt.Netstate.Doc.{LabelSelector, Labels}

pub record External : Type 1 where
  pub Addr : Type 0
  pub Prefix : Type 0
  -- netip.ParseAddr and netip.ParsePrefix, `none` for an error
  pub parse_addr : String → Option Addr
  pub parse_prefix : String → Option Prefix
  -- Prefix.Contains
  pub contains : Prefix → Addr → Bool
  -- strings.EqualFold
  pub equal_fold : String → String → Bool
  -- strings.ToLower
  pub to_lower : String → String
  -- the `topology` of a CNI configuration, `none` where json.Unmarshal fails
  pub cni_topology : String → Option String
  -- metav1.LabelSelectorAsSelector, `none` for an error, with the result's `Matches`
  pub as_selector : LabelSelector → Option (Labels → Bool)
