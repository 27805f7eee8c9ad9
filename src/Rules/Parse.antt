-- ===== src/Rules/Parse.antt =====
-- A rule as text (ProxyRuleMatcher::add), and an address as labels. `parse_url` of lib/http.cpp
-- calls a library that is not part of the repository: that library's result is a parameter.
use hula.Common.{
  ℕ, suc, ◌+◌, ◌-◌, ◌*◌, ℤ, pos, negsuc, Bool, true, false, ◌&&◌, not, Option, none, some, List, [],
  ◌∷◌, ◌++◌, length, take, drop, reverse, ltb, leb, ◌==◌, if◌then◌else◌,
}
use hula.Rules.{Text, text_eq, ProxyRuleMatcher, add_proxy, add_exception, match_labels}

-- The characters that the code names.
abbrev pub dot : ℕ
dot = 46

abbrev pub at_sign : ℕ
at_sign = 64

abbrev pub bar : ℕ
bar = 124

abbrev pub star : ℕ
star = 42

-- "://" and "http://"
abbrev pub schema_mark : Text
schema_mark = 58 ∷ 47 ∷ 47 ∷ []

abbrev pub http_prefix : Text
http_prefix = 104 ∷ 116 ∷ 116 ∷ 112 ∷ schema_mark

-- The loop of break_string_by_dot; `word` is what lies between `start` and the position, reversed.
unfoldable pub break_from : Text → Text → List Text
break_from word [] = reverse word ∷ []
break_from word (c ∷ s) =
    let rest = break_from (c ∷ word) s in
    let next = break_from [] s in if c == dot then reverse word ∷ next else rest

unfoldable pub break_string_by_dot : Text → List Text
break_string_by_dot address = break_from [] address

-- ProxyRuleMatcher::match
unfoldable pub match_address : Text → ℤ → ProxyRuleMatcher → Bool
match_address address port m = match_labels (break_string_by_dot address) port m

-- __RuleState
pub data RuleState : Type 0 where
  begin f_at fs_at f_s fs_s fs_at_t_s fs_at_tf_s : RuleState

-- How the loop on the characters ends: a jump to OUTLOOP or the end of the text, with the state and
-- `start`; or `return false`.
pub data Scanned : Type 0 where
  out_loop : RuleState → ℕ → Scanned
  refused : Scanned

-- The loop, at position `i`; `start` is 0 until a jump.
unfoldable pub scan : RuleState → ℕ → Text → Scanned
scan state i [] = out_loop state 0
scan begin i (c ∷ s) =
    let at = scan f_at (suc i) s in
    let sep = scan f_s (suc i) s in
    if c == at_sign then at else if c == bar then sep else out_loop begin 0
scan f_at i (c ∷ s) =
    let next = scan fs_at (suc i) s in if not (c == at_sign) then refused else next
scan fs_at i (c ∷ s) =
    let next = scan fs_at_t_s (suc i) s in if not (c == bar) then out_loop fs_at i else next
scan fs_at_t_s i (c ∷ s) =
    if not (c == bar) then out_loop fs_at_t_s i else out_loop fs_at_tf_s (suc i)
scan f_s i (c ∷ s) = if not (c == bar) then out_loop f_s i else out_loop fs_s (suc i)
scan fs_s i (c ∷ s) = refused
scan fs_at_tf_s i (c ∷ s) = refused

unfoldable pub drop_stars : Text → Text
drop_stars [] = []
drop_stars (c ∷ s) = let rest = drop_stars s in if not (c == star) then c ∷ rest else rest

unfoldable pub starts_with : Text → Text → Bool
starts_with [] s = true
starts_with (c ∷ p) [] = false
starts_with (c ∷ p) (d ∷ s) = if c == d then starts_with p s else false

unfoldable pub contains_text : Text → Text → Bool
contains_text p [] = starts_with p []
contains_text p (c ∷ s) = if starts_with p (c ∷ s) then true else contains_text p s

-- std::atoi on digits, up to the first other character.
unfoldable pub digits_from : ℕ → Text → ℕ
digits_from n [] = n
digits_from n (c ∷ s) =
    let next = digits_from (10 * n + (c - 48)) s in if leb 48 c && leb c 57 then next else n

-- The parts of `__URL__` that a rule uses.
pub record Url : Type 0 where
  pub schema : Text
  pub host : Text
  pub port : Text

-- The fields that http_parser_parse_url sets: offset and length.
pub record UrlFields : Type 0 where
  pub schema : Option (ℕ × ℕ)
  pub host : Option (ℕ × ℕ)
  pub port : Option (ℕ × ℕ)

abbrev pub field_text : Text → Option (ℕ × ℕ) → Text
field_text s none = []
field_text s (some (offset, len)) = take len (drop offset s)

unfoldable pub parse_url : (http_parser_parse_url : Text → UrlFields) → Text → Url
parse_url http_parser_parse_url s =
    let url = http_parser_parse_url s in
    record {
      schema = field_text s url.schema;
      host = field_text s url.host;
      port = field_text s url.port;
    }

-- The table schema_port.
unfoldable pub schema_port : Text → Option ℕ
schema_port s =
    if text_eq s (104 ∷ 116 ∷ 116 ∷ 112 ∷ [])
    then some 80
    else if text_eq s (104 ∷ 116 ∷ 116 ∷ 112 ∷ 115 ∷ [])
    then some 443
    else if text_eq s (115 ∷ 115 ∷ 104 ∷ [])
    then some 22
    else if text_eq s (102 ∷ 116 ∷ 112 ∷ [])
    then some 21
    else none

abbrev pub port_of : Option ℕ → Text → ℤ
port_of (some known) port = pos known
port_of none port = let n = digits_from 0 port in if n == 0 then negsuc 0 else pos n

-- host[0] == '.'
abbrev pub starts_with_dot : Text → Bool
starts_with_dot [] = false
starts_with_dot (c ∷ s) = c == dot

-- if(host.back() == '.') host.erase(host.size() - 1)
abbrev pub drop_last_dot : Text → Text
drop_last_dot host =
    if starts_with_dot (reverse host) then reverse (drop 1 (reverse host)) else host

abbrev pub dotted_state : RuleState → RuleState
dotted_state begin = fs_s
dotted_state fs_at = fs_at_tf_s
dotted_state state = state

-- The last switch: `none` is `return false`.
unfoldable pub place_rule : RuleState → List Text → ℤ → ProxyRuleMatcher → Option ProxyRuleMatcher
place_rule begin domain port m = some (add_proxy domain port true m)
place_rule fs_s domain port m = some (add_proxy domain port true m)
place_rule f_s domain port m = some (add_proxy domain port false m)
place_rule fs_at domain port m = some (add_exception domain port true m)
place_rule fs_at_tf_s domain port m = some (add_exception domain port true m)
place_rule fs_at_t_s domain port m = some (add_exception domain port false m)
place_rule f_at domain port m = none

-- After `parse_url`.
unfoldable pub place_host : RuleState → Text → ℤ → ProxyRuleMatcher → Option ProxyRuleMatcher
place_host state host port m =
    if ltb (length host) 2
    then none
    else if starts_with_dot host
    then place_rule (dotted_state state) (break_string_by_dot (drop_last_dot (drop 1 host))) port m
    else place_rule state (break_string_by_dot (drop_last_dot host)) port m

-- After OUTLOOP, with the text from `start` on.
unfoldable pub place_uri :
    (http_parser_parse_url : Text → UrlFields)
    → RuleState
    → Text
    → ProxyRuleMatcher
    → Option ProxyRuleMatcher
place_uri http_parser_parse_url state uri m =
    let bare = drop_stars uri in
    let has_schema = contains_text schema_mark bare in
    let url = parse_url http_parser_parse_url (if has_schema then bare else http_prefix ++ bare) in
    place_host state url.host
      (port_of (if has_schema then schema_port url.schema else none) url.port) m

abbrev pub place_scanned :
    (http_parser_parse_url : Text → UrlFields)
    → Scanned
    → Text
    → ProxyRuleMatcher
    → Option ProxyRuleMatcher
place_scanned http_parser_parse_url refused rule m = none
place_scanned http_parser_parse_url (out_loop state start) rule m =
    place_uri http_parser_parse_url state (drop start rule) m

-- ProxyRuleMatcher::add; `none` is `return false`, with the matcher as it was.
unfoldable pub add_text :
    (http_parser_parse_url : Text → UrlFields) → Text → ProxyRuleMatcher → Option ProxyRuleMatcher
add_text http_parser_parse_url rule m =
    place_scanned http_parser_parse_url (scan begin 0 rule) rule m
