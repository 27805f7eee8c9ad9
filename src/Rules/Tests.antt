-- ===== src/Rules/Tests.antt =====
-- Runs of the rules, and their theorems at concrete input.
use hula.Common.{
  ◌≡◌, refl, pos, negsuc, true, false, ◌&&◌, not, none, some, List, [], ◌∷◌, ◌++◌, All, arith,
}
use hula.Rules.{Text, text_eq, new_proxy_rules, match_labels}
use hula.Rules.Parse.{
  UrlFields, break_from, break_string_by_dot, starts_with, contains_text, add_text,
}
use hula.Rules.Cover.{is_prefix}
use hula.Rules.Decide.{Rule, add_placed, add_all, any_covers, match_labels-add_all}
use hula.Rules.Syntax.{
  join_by_dot, IsDotFree, exception_suffix, marked, mark_text, IsPlainHost,
  break_string_by_dot-join, add_text-mark,
}

-- "a", "b", "c"
abbrev a : Text
a = 97 ∷ []

abbrev b : Text
b = 98 ∷ []

abbrev c : Text
c = 99 ∷ []

abbrev two_rules : List Rule
two_rules =
    record { domain = b ∷ c ∷ []; port = negsuc 0; reversal = true; exception = false }
    ∷ record { domain = a ∷ b ∷ c ∷ []; port = pos 80; reversal = true; exception = true }
    ∷ []

-- a.b.c at port 443 is covered by the first rule only.
match_labels-add_all_example :
    match_labels (a ∷ b ∷ c ∷ []) (pos 443) (add_all two_rules new_proxy_rules) ≡ (
      any_covers false two_rules (a ∷ b ∷ c ∷ []) (pos 443)
      && not (any_covers true two_rules (a ∷ b ∷ c ∷ []) (pos 443)))
match_labels-add_all_example = match_labels-add_all two_rules (a ∷ b ∷ c ∷ []) (pos 443)

only_first :
    (any_covers false two_rules (a ∷ b ∷ c ∷ []) (pos 443)
      && not (any_covers true two_rules (a ∷ b ∷ c ∷ []) (pos 443)))
    ≡ true
unfolding is_prefix text_eq
only_first = refl

exception_at_80 :
    (any_covers false two_rules (a ∷ b ∷ c ∷ []) (pos 80)
      && not (any_covers true two_rules (a ∷ b ∷ c ∷ []) (pos 80)))
    ≡ false
unfolding is_prefix text_eq
exception_at_80 = refl

-- "a.b."
abbrev address : Text
address = 97 ∷ 46 ∷ 98 ∷ 46 ∷ []

break_string_by_dot-join_example :
    (join_by_dot (break_string_by_dot address) ≡ address)
    × All IsDotFree (break_string_by_dot address)
break_string_by_dot-join_example = break_string_by_dot-join address

break_address : break_string_by_dot address ≡ a ∷ b ∷ [] ∷ []
unfolding break_string_by_dot break_from
break_address = refl

-- "b.c"
abbrev plain : Text
plain = 98 ∷ 46 ∷ 99 ∷ []

abbrev host_at_seven : Text → UrlFields
host_at_seven s = record { schema = none; host = some (7, 3); port = none }

plain-IsPlainHost : IsPlainHost plain
unfolding contains_text starts_with
plain-IsPlainHost = record {
  long = omega arith;
  no_star = (
    λ e. absurd (omega (arith, e)),
    (λ e. absurd (omega (arith, e)), (λ e. absurd (omega (arith, e)), tt)),
  );
  no_bar = (
    λ e. absurd (omega (arith, e)),
    (λ e. absurd (omega (arith, e)), (λ e. absurd (omega (arith, e)), tt)),
  );
  no_schema = refl;
  no_first_dot = refl;
  no_last_dot = refl;
}

add_text-mark_example :
    add_text host_at_seven (mark_text exception_suffix ++ plain) new_proxy_rules
    ≡ some (add_placed (marked exception_suffix (break_string_by_dot plain)) new_proxy_rules)
add_text-mark_example =
    add_text-mark host_at_seven exception_suffix plain new_proxy_rules plain-IsPlainHost refl refl
