-- ===== src/Rules/Syntax.antt =====
-- What the text of a rule means, and how an address is cut into labels.
use mathlib.Core.List.{reverse-cons}
use hula.Common.{
  ℕ, ◌≤◌, ◌≡◌, ◌≢◌, refl, sym, ◌∙◌, negsuc, true, false, none, some, List, [], ◌∷◌, ◌++◌,
  append_assoc, append-nil, length, take_all, drop-length_append, reverse, All, All-append, ◌==◌,
  ==_iff, eq_false, le→ltb_false, Bool-cases, inl, inr, arith,
}
use hula.Rules.{Text, ProxyRuleMatcher}
use hula.Rules.Parse.{
  dot, at_sign, bar, star, schema_mark, http_prefix, break_from, break_string_by_dot, RuleState,
  begin, fs_s, f_s, fs_at_t_s, fs_at_tf_s, out_loop, scan, drop_stars, contains_text, UrlFields,
  parse_url, starts_with_dot, place_rule, place_host, place_uri, digits_from, add_text,
}
use hula.Rules.Decide.{Rule, add_placed}

-- Labels with a dot between them.
abbrev pub join_by_dot : List Text → Text
join_by_dot [] = []
join_by_dot (w ∷ []) = w
join_by_dot (w ∷ v ∷ ws) = w ++ (dot ∷ join_by_dot (v ∷ ws))

abbrev pub IsDotFree : Text → Type 0
IsDotFree = All (λ c. c ≢ dot)

break_from-ne-nil : (word s : Text) → (w : Text) × (ws : List Text) × (break_from word s ≡ w ∷ ws)
unfolding break_from
break_from-ne-nil word [] = (reverse word, [], refl)
break_from-ne-nil word (c ∷ s) = elim (Bool-cases (c == dot)) [
  | inl e ↦ (reverse word, break_from [] s, rw e)
  | inr e ↦ let (w, ws, h) = break_from-ne-nil (c ∷ word) s in (w, ws, rw e h)
]

join_cons :
    (w : Text) (rest : List Text)
    → rest ≢ []
    → join_by_dot (w ∷ rest) ≡ w ++ (dot ∷ join_by_dot rest)
join_cons w [] ne = absurd (ne refl)
join_cons w (v ∷ vs) ne = refl

cons-ne-nil : (w : Text) (ws : List Text) → (w ∷ ws) ≢ []
cons-ne-nil w ws e = absurd cc

break_from-ne : (word s : Text) → break_from word s ≢ []
break_from-ne word s e = let (w, ws, h) = break_from-ne-nil word s in cons-ne-nil w ws (sym h ∙ e)

join-break_from : (word s : Text) → join_by_dot (break_from word s) ≡ reverse word ++ s
unfolding break_from
join-break_from word [] = sym (append-nil (reverse word))
join-break_from word (c ∷ s) = elim (Bool-cases (c == dot)) [
  | inl e ↦ rw (
    e,
    join_cons (reverse word) (break_from [] s) (break_from-ne [] s),
    join-break_from [] s,
    (==_iff c dot).0 e,
  )
  | inr e ↦
      rw (e, join-break_from (c ∷ word) s, reverse-cons c word)
        (append_assoc (reverse word) (c ∷ []) s)
]

reverse-IsDotFree : (w : Text) → IsDotFree w → IsDotFree (reverse w)
reverse-IsDotFree [] h = tt
reverse-IsDotFree (c ∷ w) h =
    rw (reverse-cons c w)
      (All-append (λ c. c ≢ dot) (reverse w) (c ∷ []) (reverse-IsDotFree w h.1) (h.0, tt))

ne_of_eq_false : (a b : ℕ) → (a == b) ≡ false → a ≢ b
ne_of_eq_false a b e = ground (arith, e)

break_from-IsDotFree : (word s : Text) → IsDotFree word → All IsDotFree (break_from word s)
unfolding break_from
break_from-IsDotFree word [] h = (reverse-IsDotFree word h, tt)
break_from-IsDotFree word (c ∷ s) h = elim (Bool-cases (c == dot)) [
  | inl e ↦ rw e (reverse-IsDotFree word h, break_from-IsDotFree [] s tt)
  | inr e ↦ rw e (break_from-IsDotFree (c ∷ word) s (ne_of_eq_false c dot e, h))
]

-- Breaking an address by dots gives its labels: none of them has a dot, and with a dot between them
-- they are the address again.
pub break_string_by_dot-join :
    (address : Text)
    → (join_by_dot (break_string_by_dot address) ≡ address)
      × All IsDotFree (break_string_by_dot address)
unfolding break_string_by_dot
break_string_by_dot-join address = (join-break_from [] address, break_from-IsDotFree [] address tt)

-- The four marks in front of a rule.
pub data Mark : Type 0 where
  proxy_suffix proxy_prefix exception_suffix exception_prefix : Mark

abbrev pub mark_text : Mark → Text
mark_text proxy_suffix = bar ∷ bar ∷ []
mark_text proxy_prefix = bar ∷ []
mark_text exception_suffix = at_sign ∷ at_sign ∷ bar ∷ bar ∷ []
mark_text exception_prefix = at_sign ∷ at_sign ∷ bar ∷ []

-- The rule that it stands for, on every port.
abbrev pub marked : Mark → List Text → Rule
marked proxy_suffix domain = record {
  domain = domain;
  port = negsuc 0;
  reversal = true;
  exception = false;
}
marked proxy_prefix domain = record {
  domain = domain;
  port = negsuc 0;
  reversal = false;
  exception = false;
}
marked exception_suffix domain = record {
  domain = domain;
  port = negsuc 0;
  reversal = true;
  exception = true;
}
marked exception_prefix domain = record {
  domain = domain;
  port = negsuc 0;
  reversal = false;
  exception = true;
}

abbrev mark_state : Mark → RuleState
mark_state proxy_suffix = fs_s
mark_state proxy_prefix = f_s
mark_state exception_suffix = fs_at_tf_s
mark_state exception_prefix = fs_at_t_s

-- A host with no character that the parser of rules treats apart.
pub record IsPlainHost (host : Text) : Type 0 where
  pub long : 2 ≤ length host
  pub no_star : All (λ c. c ≢ star) host
  pub no_bar : All (λ c. c ≢ bar) host
  pub no_schema : contains_text schema_mark host ≡ false
  pub no_first_dot : starts_with_dot host ≡ false
  pub no_last_dot : starts_with_dot (reverse host) ≡ false

scan-mark :
    (k : Mark) (c : ℕ) (s : Text)
    → c ≢ bar
    → scan begin 0 (mark_text k ++ (c ∷ s)) ≡ out_loop (mark_state k) (length (mark_text k))
unfolding scan
scan-mark proxy_suffix c s h = refl
scan-mark proxy_prefix c s h = rw (eq_false c bar h)
scan-mark exception_suffix c s h = refl
scan-mark exception_prefix c s h = rw (eq_false c bar h)

drop_stars_none : (s : Text) → All (λ c. c ≢ star) s → drop_stars s ≡ s
unfolding drop_stars
drop_stars_none [] h = refl
drop_stars_none (c ∷ s) h = rw (eq_false c star h.0, drop_stars_none s h.1)

place-mark :
    (k : Mark) (host : Text) (m : ProxyRuleMatcher)
    → IsPlainHost host
    → place_host (mark_state k) host (negsuc 0) m
      ≡ some (add_placed (marked k (break_string_by_dot host)) m)
unfolding place_host place_rule
place-mark proxy_suffix host m h =
    rw (le→ltb_false (length host) 2 h.long, h.no_first_dot, h.no_last_dot)
place-mark proxy_prefix host m h =
    rw (le→ltb_false (length host) 2 h.long, h.no_first_dot, h.no_last_dot)
place-mark exception_suffix host m h =
    rw (le→ltb_false (length host) 2 h.long, h.no_first_dot, h.no_last_dot)
place-mark exception_prefix host m h =
    rw (le→ltb_false (length host) 2 h.long, h.no_first_dot, h.no_last_dot)

-- A rule that is one of the marks `||`, `|`, `@@||` and `@@|` before a plain host is added: as a
-- proxy rule or an exception, for the names that end or start with the labels of the host, on every
-- port. Plain means: two characters at least, no star, bar or "://", no dot at either end. The URL
-- parser is assumed to find that host, and no port, in the host with "http://" before it.
pub add_text-mark :
    (http_parser_parse_url : Text → UrlFields) (k : Mark) (host : Text) (m : ProxyRuleMatcher)
    → IsPlainHost host
    → (http_parser_parse_url (http_prefix ++ host)).host ≡ some (7, length host)
    → (http_parser_parse_url (http_prefix ++ host)).port ≡ none
    → add_text http_parser_parse_url (mark_text k ++ host) m
      ≡ some (add_placed (marked k (break_string_by_dot host)) m)
unfolding add_text place_uri parse_url digits_from
add_text-mark parse k [] m h found no_port = absurd (omega (arith, h.long))
add_text-mark parse k (c ∷ s) m h found no_port =
    rw
      (
        scan-mark k c s h.no_bar.0,
        drop-length_append (mark_text k) (c ∷ s),
        drop_stars_none (c ∷ s) h.no_star,
        h.no_schema,
        found,
        no_port,
        take_all (length (c ∷ s)) (c ∷ s) (omega arith),
      )
      (place-mark k (c ∷ s) m h)
