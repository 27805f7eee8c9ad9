-- ===== src/Rules/Decide.antt =====
-- What ProxyRuleMatcher decides after any sequence of additions.
use hula.Common.{
  ◌≡◌, refl, ◌∙◌, ℤ, Bool, true, false, ◌&&◌, ◌||◌, not, List, [], ◌∷◌, reverse, is_nil,
  if◌then◌else◌, Bool-cases, inl, inr, arith,
}
use hula.Rules.{
  Text, DomainMatcher, new_matcher, add_domain, match_domain, RuleSet, new_rules, add_rule,
  match_rule, ProxyRuleMatcher, new_proxy_rules, add_proxy, add_exception, match_labels,
}
use hula.Rules.Cover.{
  is_prefix, covers_port, IsTidy, new-IsTidy, match_at-new, add_at-IsTidy, match_at-add_at,
}

-- A rule, and where it is put.
pub record Rule : Type 0 where
  pub domain : List Text
  pub port : ℤ
  pub reversal : Bool
  pub exception : Bool

abbrev pub add_placed : Rule → ProxyRuleMatcher → ProxyRuleMatcher
add_placed r m =
    if r.exception
    then add_exception r.domain r.port r.reversal m
    else add_proxy r.domain r.port r.reversal m

-- The rules added one after the other.
abbrev pub add_all : List Rule → ProxyRuleMatcher → ProxyRuleMatcher
add_all [] m = m
add_all (r ∷ rs) m = add_all rs (add_placed r m)

-- Labels that are not empty and that are the first ones of the destination.
abbrev pub covers_labels : List Text → ℤ → List Text → ℤ → Bool
covers_labels labels rule domain port =
    not (is_nil labels) && (is_prefix labels domain && covers_port rule port)

-- The labels are compared from the first one, or from the last one.
abbrev pub covers_side : Bool → List Text → ℤ → List Text → ℤ → Bool
covers_side true labels rule domain port = covers_labels (reverse labels) rule (reverse domain) port
covers_side false labels rule domain port = covers_labels labels rule domain port

abbrev pub covers : Rule → List Text → ℤ → Bool
covers r domain port = covers_side r.reversal r.domain r.port domain port

-- One of the rules of a kind covers the destination.
abbrev pub any_covers : Bool → List Rule → List Text → ℤ → Bool
any_covers kind [] domain port = false
any_covers kind (r ∷ rs) domain port =
    ((if r.exception then kind else not kind) && covers r domain port)
    || any_covers kind rs domain port

abbrev IsTidySet : RuleSet → Type 0
IsTidySet r = IsTidy r.reversal × IsTidy r.forward

or-false : (b : Bool) → b ≡ (b || false)
or-false b = ground arith

add_domain-IsTidy :
    (labels : List Text) (rule : ℤ) (m : DomainMatcher)
    → IsTidy m
    → IsTidy (add_domain labels rule m)
unfolding add_domain
add_domain-IsTidy [] rule m t = t
add_domain-IsTidy (k ∷ ks) rule m t = add_at-IsTidy (k ∷ ks) rule m t

match_domain-add_domain :
    (labels : List Text) (rule : ℤ) (domain : List Text) (port : ℤ) (m : DomainMatcher)
    → IsTidy m
    → match_domain domain port (add_domain labels rule m)
      ≡ (match_domain domain port m || covers_labels labels rule domain port)
unfolding match_domain add_domain is_prefix
match_domain-add_domain [] rule domain port m t = or-false _
match_domain-add_domain (k ∷ ks) rule [] port m t = refl
match_domain-add_domain (k ∷ ks) rule (l ∷ ls) port m t =
    match_at-add_at (k ∷ ks) rule (l ∷ ls) port m t

add_rule-IsTidySet :
    (labels : List Text) (rule : ℤ) (is_reversal : Bool) (r : RuleSet)
    → IsTidySet r
    → IsTidySet (add_rule labels rule is_reversal r)
unfolding add_rule
add_rule-IsTidySet labels rule true r t =
    (add_domain-IsTidy (reverse labels) rule r.reversal t.0, t.1)
add_rule-IsTidySet labels rule false r t = (t.0, add_domain-IsTidy labels rule r.forward t.1)

match_rule-add_rule :
    (labels : List Text) (rule : ℤ) (is_reversal : Bool) (r : RuleSet) (domain : List Text)
    (port : ℤ)
    → IsTidySet r
    → match_rule domain port (add_rule labels rule is_reversal r)
      ≡ (match_rule domain port r || covers_side is_reversal labels rule domain port)
unfolding match_rule add_rule
match_rule-add_rule labels rule true r domain port t =
    rw (match_domain-add_domain (reverse labels) rule (reverse domain) port r.reversal t.0)
      (ground arith)
match_rule-add_rule labels rule false r domain port t =
    rw (match_domain-add_domain labels rule domain port r.forward t.1) (ground arith)

abbrev IsTidyAll : ProxyRuleMatcher → Type 0
IsTidyAll m = IsTidySet m.proxy × IsTidySet m.exception

-- The two answers, before and after one addition.
add_placed-IsTidyAll : (q : Rule) (m : ProxyRuleMatcher) → IsTidyAll m → IsTidyAll (add_placed q m)
unfolding add_proxy add_exception
add_placed-IsTidyAll q m t = elim (Bool-cases q.exception) [
  | inl e ↦ rw e (t.0, add_rule-IsTidySet q.domain q.port q.reversal m.exception t.1)
  | inr e ↦ rw e (add_rule-IsTidySet q.domain q.port q.reversal m.proxy t.0, t.1)
]

proxy-add_placed :
    (q : Rule) (m : ProxyRuleMatcher) (domain : List Text) (port : ℤ)
    → IsTidyAll m
    → match_rule domain port (add_placed q m).proxy ≡ (
        match_rule domain port m.proxy
        || ((if q.exception then false else true) && covers q domain port))
unfolding add_proxy add_exception
proxy-add_placed q m domain port t = elim (Bool-cases q.exception) [
  | inl e ↦ rw e (or-false _)
  | inr e ↦ rw e (match_rule-add_rule q.domain q.port q.reversal m.proxy domain port t.0)
]

exception-add_placed :
    (q : Rule) (m : ProxyRuleMatcher) (domain : List Text) (port : ℤ)
    → IsTidyAll m
    → match_rule domain port (add_placed q m).exception ≡ (
        match_rule domain port m.exception
        || ((if q.exception then true else false) && covers q domain port))
unfolding add_proxy add_exception
exception-add_placed q m domain port t = elim (Bool-cases q.exception) [
  | inl e ↦ rw e (match_rule-add_rule q.domain q.port q.reversal m.exception domain port t.1)
  | inr e ↦ rw e (or-false _)
]

proxy-add_all :
    (rs : List Rule) (m : ProxyRuleMatcher) (domain : List Text) (port : ℤ)
    → IsTidyAll m
    → match_rule domain port (add_all rs m).proxy
      ≡ (match_rule domain port m.proxy || any_covers false rs domain port)
proxy-add_all [] m domain port t = or-false _
proxy-add_all (r ∷ rs) m domain port t =
    proxy-add_all rs (add_placed r m) domain port (add_placed-IsTidyAll r m t)
    ∙ rw (proxy-add_placed r m domain port t) (ground arith)

exception-add_all :
    (rs : List Rule) (m : ProxyRuleMatcher) (domain : List Text) (port : ℤ)
    → IsTidyAll m
    → match_rule domain port (add_all rs m).exception
      ≡ (match_rule domain port m.exception || any_covers true rs domain port)
exception-add_all [] m domain port t = or-false _
exception-add_all (r ∷ rs) m domain port t =
    exception-add_all rs (add_placed r m) domain port (add_placed-IsTidyAll r m t)
    ∙ rw (exception-add_placed r m domain port t) (ground arith)

match_domain-new : (domain : List Text) (port : ℤ) → match_domain domain port new_matcher ≡ false
unfolding match_domain
match_domain-new [] port = refl
match_domain-new (l ∷ ls) port = match_at-new (l ∷ ls) port

match_rule-new : (domain : List Text) (port : ℤ) → match_rule domain port new_rules ≡ false
unfolding match_rule
match_rule-new domain port =
    rw (match_domain-new domain port, match_domain-new (reverse domain) port)

-- After any sequence of additions of rules to a new matcher, a destination goes through the proxy
-- exactly if one of the proxy rules added covers it and none of the exceptions does, in whichever
-- order they came. A rule covers a destination if its labels are not empty and are the first labels
-- of the destination, or the last ones for a rule that is put in reverse, and its port is the same
-- or is not positive, which stands for every port.
pub match_labels-add_all :
    (rs : List Rule) (domain : List Text) (port : ℤ)
    → match_labels domain port (add_all rs new_proxy_rules)
      ≡ (any_covers false rs domain port && not (any_covers true rs domain port))
unfolding match_labels
match_labels-add_all rs domain port =
    let t : IsTidyAll new_proxy_rules = ((new-IsTidy, new-IsTidy), (new-IsTidy, new-IsTidy)) in
    rw (
      proxy-add_all rs new_proxy_rules domain port t,
      exception-add_all rs new_proxy_rules domain port t,
      match_rule-new domain port,
    )
