-- ===== src/Rules.antt =====
-- The proxy rules (lib/proxyrule.cpp): which destinations go through the proxy. A string is the list
-- of its characters; the set of ports of a node is a list.
pub mod Text
pub mod Parse
pub mod Cover
pub mod Decide
pub mod Syntax
mod Tests
use hula.Common.{
  ℕ, zero, suc, ℤ, pos, negsuc, int_eq, is_positive, Bool, true, false, ◌&&◌, ◌||◌, not, Option,
  none, some, List, [], ◌∷◌, reverse, ◌==◌, if◌then◌else◌,
}

abbrev pub Text : Type 0
Text = List ℕ

unfoldable pub text_eq : Text → Text → Bool
text_eq [] [] = true
text_eq (a ∷ s) (b ∷ t) = if a == b then text_eq s t else false
text_eq _ _ = false

-- A node, with the map of its children.
mutual
  pub data DomainMatcher : Type 0 where
    node : Children → List ℤ → Bool → DomainMatcher

  pub data Children : Type 0 where
    no_child : Children
    child : Text → DomainMatcher → Children → Children

abbrev pub new_matcher : DomainMatcher
new_matcher = node no_child [] false

unfoldable pub find_child : Text → Children → Option DomainMatcher
find_child l no_child = none
find_child l (child k m cs) = if text_eq k l then some m else find_child l cs

unfoldable pub set_child : Text → DomainMatcher → Children → Children
set_child l m no_child = child l m no_child
set_child l m (child k n cs) = if text_eq k l then child k m cs else child k n (set_child l m cs)

abbrev pub or_new : Option DomainMatcher → DomainMatcher
or_new none = new_matcher
or_new (some m) = m

unfoldable pub has_port : ℤ → List ℤ → Bool
has_port x [] = false
has_port x (y ∷ ys) = if int_eq y x then true else has_port x ys

-- Every port: the entry -1.
abbrev pub every_port : ℤ
every_port = negsuc 0

unfoldable pub add_port : ℤ → List ℤ → List ℤ
add_port port ports =
    if is_positive port
    then if has_port every_port ports then ports else port ∷ ports
    else every_port ∷ []

-- DomainMatcher::__add, for the rest of the domain.
unfoldable pub add_at : List Text → ℤ → DomainMatcher → DomainMatcher
add_at [] port (node cs ports here) = node cs (add_port port ports) true
add_at (l ∷ ls) port (node cs ports here) =
    node (set_child l (add_at ls port (or_new (find_child l cs))) cs) ports here

unfoldable pub add_domain : List Text → ℤ → DomainMatcher → DomainMatcher
add_domain [] port m = m
add_domain (l ∷ ls) port m = add_at (l ∷ ls) port m

abbrev pub matches_here : Bool → List ℤ → ℤ → Bool
matches_here here ports port = here && (has_port every_port ports || has_port port ports)

-- DomainMatcher::__match, for the rest of the domain; `match_child` for the child found.
unfoldable pub match_at : List Text → ℤ → DomainMatcher → Bool
match_at [] port (node cs ports here) = matches_here here ports port
match_at (l ∷ ls) port (node cs ports here) =
    if matches_here here ports port
    then true
    else elim (find_child l cs) [ none ↦ false | some m ↦ match_at ls port m ]

unfoldable pub match_domain : List Text → ℤ → DomainMatcher → Bool
match_domain [] port m = false
match_domain (l ∷ ls) port m = match_at (l ∷ ls) port m

-- __ProxyRuleMatcher
pub record RuleSet : Type 0 where
  pub reversal : DomainMatcher
  pub forward : DomainMatcher

abbrev pub new_rules : RuleSet
new_rules = record { reversal = new_matcher; forward = new_matcher }

unfoldable pub add_rule : List Text → ℤ → Bool → RuleSet → RuleSet
add_rule domain port is_reversal r =
    if is_reversal
    then record r { reversal = add_domain (reverse domain) port r.reversal }
    else record r { forward = add_domain domain port r.forward }

unfoldable pub match_rule : List Text → ℤ → RuleSet → Bool
match_rule domain port r =
    match_domain domain port r.forward || match_domain (reverse domain) port r.reversal

pub record ProxyRuleMatcher : Type 0 where
  pub proxy : RuleSet
  pub exception : RuleSet

abbrev pub new_proxy_rules : ProxyRuleMatcher
new_proxy_rules = record { proxy = new_rules; exception = new_rules }

unfoldable pub add_proxy : List Text → ℤ → Bool → ProxyRuleMatcher → ProxyRuleMatcher
add_proxy domain port is_reversal m = record m { proxy = add_rule domain port is_reversal m.proxy }

unfoldable pub add_exception : List Text → ℤ → Bool → ProxyRuleMatcher → ProxyRuleMatcher
add_exception domain port is_reversal m = record m {
  exception = add_rule domain port is_reversal m.exception;
}

unfoldable pub match_labels : List Text → ℤ → ProxyRuleMatcher → Bool
match_labels domain port m =
    match_rule domain port m.proxy && not (match_rule domain port m.exception)
