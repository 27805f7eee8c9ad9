-- ===== src/Rules/Cover.antt =====
-- What a tree of rules stands for: the list of the rules added to it. A rule covers a destination
-- if its labels are the first ones, and its port is the same or stands for every port.
use hula.Common.{
  ◌≡◌, refl, sym, ℤ, int_eq, is_positive, Bool, true, false, ◌&&◌, ◌||◌, not, Option, none, some,
  List, [], ◌∷◌, if◌then◌else◌, Bool-cases, inl, inr, arith,
}
use hula.Rules.{
  Text, text_eq, DomainMatcher, node, Children, no_child, child, new_matcher, find_child, set_child,
  or_new, has_port, every_port, add_port, add_at, matches_here, match_at,
}
use hula.Rules.Text.{text_eq_sound}

unfoldable pub is_prefix : List Text → List Text → Bool
is_prefix [] ls = true
is_prefix (k ∷ ks) [] = false
is_prefix (k ∷ ks) (l ∷ ls) = if text_eq k l then is_prefix ks ls else false

abbrev pub covers_port : ℤ → ℤ → Bool
covers_port rule port = not (is_positive rule) || int_eq rule port

-- No entry where no rule ends.
mutual
  pub IsTidy : DomainMatcher → Type 0
  IsTidy (node cs ports here) = (here ≡ false → ports ≡ []) × AllTidy cs

  AllTidy : Children → Type 0
  AllTidy no_child = Unit
  AllTidy (child k m cs) = IsTidy m × AllTidy cs

pub new-IsTidy : IsTidy new_matcher
unfolding IsTidy
new-IsTidy = (λ h. refl, tt)

find_child-set_child :
    (k l : Text) (m : DomainMatcher) (cs : Children)
    → find_child l (set_child k m cs) ≡ (if text_eq k l then some m else find_child l cs)
unfolding find_child set_child
find_child-set_child k l m no_child = refl
find_child-set_child k l m (child j n cs) = elim (Bool-cases (text_eq j k)) [
  | inl e ↦ rw (e, text_eq_sound j k e) (ground arith)
  | inr e ↦ rw e (elim (Bool-cases (text_eq k l)) [
    | inl h ↦
        let other : text_eq j l ≡ false = rw (text_eq_sound k l h) at e in
        rw (h, other, find_child-set_child k l m cs, h)
    | inr h ↦ rw (h, find_child-set_child k l m cs, h)
  ])
]

has_port-add_port :
    (rule port : ℤ) (ports : List ℤ)
    → (has_port every_port (add_port rule ports) || has_port port (add_port rule ports))
      ≡ ((has_port every_port ports || has_port port ports) || covers_port rule port)
unfolding has_port add_port
has_port-add_port rule port ports = ground arith

matches_here-add_port :
    (rule port : ℤ) (ports : List ℤ) (here : Bool)
    → (here ≡ false → ports ≡ [])
    → matches_here true (add_port rule ports) port
      ≡ (matches_here here ports port || covers_port rule port)
unfolding has_port
matches_here-add_port rule port ports true tidy = has_port-add_port rule port ports
matches_here-add_port rule port ports false tidy = rw (tidy refl) (has_port-add_port rule port [])

pub match_at-new : (ls : List Text) (port : ℤ) → match_at ls port new_matcher ≡ false
unfolding match_at find_child
match_at-new [] port = refl
match_at-new (l ∷ ls) port = refl

or_new-IsTidy : (l : Text) (cs : Children) → AllTidy cs → IsTidy (or_new (find_child l cs))
unfolding find_child IsTidy
or_new-IsTidy l no_child t = (λ h. refl, tt)
or_new-IsTidy l (child k n cs) t = elim (Bool-cases (text_eq k l)) [
  | inl h ↦ rw h t.0
  | inr h ↦ rw h (or_new-IsTidy l cs t.1)
]

set_child-AllTidy :
    (l : Text) (m : DomainMatcher) (cs : Children)
    → IsTidy m
    → AllTidy cs
    → AllTidy (set_child l m cs)
unfolding set_child IsTidy
set_child-AllTidy l m no_child s t = (s, tt)
set_child-AllTidy l m (child k n cs) s t = elim (Bool-cases (text_eq k l)) [
  | inl h ↦ rw h (s, t.1)
  | inr h ↦ rw h (t.0, set_child-AllTidy l m cs s t.1)
]

pub add_at-IsTidy :
    (ls : List Text) (port : ℤ) (m : DomainMatcher) → IsTidy m → IsTidy (add_at ls port m)
unfolding add_at IsTidy
add_at-IsTidy [] port (node cs ports here) t = (λ h. absurd cc, t.1)
add_at-IsTidy (l ∷ ls) port (node cs ports here) t = (
  t.0,
  set_child-AllTidy l _ cs
      (add_at-IsTidy ls port (or_new (find_child l cs)) (or_new-IsTidy l cs t.1)) t.1,
)

-- The found child, or the new one, matches the same.
match_or_new :
    (ls : List Text) (port : ℤ) (o : Option DomainMatcher)
    → match_at ls port (or_new o) ≡ elim o [ none ↦ false | some m ↦ match_at ls port m ]
match_or_new ls port none = match_at-new ls port
match_or_new ls port (some m) = refl

if-or : (a c x : Bool) → (if (a || c) then true else x) ≡ ((if a then true else x) || c)
if-or a c x = ground arith

else-or : (a c x : Bool) → (if a then true else (x || c)) ≡ ((if a then true else x) || c)
else-or a c x = ground arith

or-false : (b : Bool) → b ≡ (b || false)
or-false b = ground arith

pub match_at-add_at :
    (ks : List Text) (rule : ℤ) (ls : List Text) (port : ℤ) (m : DomainMatcher)
    → IsTidy m
    → match_at ls port (add_at ks rule m)
      ≡ (match_at ls port m || (is_prefix ks ls && covers_port rule port))
unfolding match_at add_at is_prefix IsTidy
match_at-add_at [] rule [] port (node cs ports here) t =
    matches_here-add_port rule port ports here t.0
match_at-add_at [] rule (l ∷ ls) port (node cs ports here) t =
    let e : (has_port every_port (add_port rule ports) || has_port port (add_port rule ports))
        ≡ (matches_here here ports port || covers_port rule port) =
      matches_here-add_port rule port ports here t.0 in
    rw e (if-or (matches_here here ports port) (covers_port rule port) _)
match_at-add_at (k ∷ ks) rule [] port (node cs ports here) t = or-false _
match_at-add_at (k ∷ ks) rule (l ∷ ls) port (node cs ports here) t =
    rw (find_child-set_child k l (add_at ks rule (or_new (find_child k cs))) cs)
      (elim (Bool-cases (text_eq k l)) [
        | inl e ↦
            rw
              (
                e,
                match_at-add_at ks rule ls port (or_new (find_child k cs)) (or_new-IsTidy k cs t.1),
                match_or_new ls port (find_child k cs),
                sym (text_eq_sound k l e),
              )
              (else-or (matches_here here ports port) (is_prefix ks ls && covers_port rule port) _)
        | inr e ↦ rw e (or-false _)
      ])
