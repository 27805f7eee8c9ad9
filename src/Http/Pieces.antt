-- ===== src/Http/Pieces.antt =====
-- The calls of the parser for a message whose texts come in pieces, and the map of its headers.
use hula.Common.{
  ℕ, ◌≡◌, ◌⊎◌, refl, ap, ◌∙◌, false, some, List, [], ◌∷◌, ◌++◌, map, Bool-cases, inl, inr,
}
use hula.Rules.{Text, text_eq}
use hula.Rules.Text.{text_eq_refl, text_eq_sound}
use hula.Http.{
  finish_prev, message_complete, Headers, header_get, header_set, header_add, Http, ParserCall,
  on_message_complete, on_field, on_value, on_body,
}

-- A text that the parser gives in pieces, each with its end in the buffer.
abbrev pub Piece : Type 0
Piece = Text × ℕ

abbrev pub together : List Piece → Text
together [] = []
together (p ∷ ps) = p.0 ++ together ps

abbrev pub last_end : ℕ → List Piece → ℕ
last_end n [] = n
last_end n (p ∷ ps) = last_end p.1 ps

abbrev pub concat : List Text → Text
concat [] = []
concat (t ∷ ts) = t ++ concat ts

-- A header: the pieces of the name and those of the value, one of each at least.
pub record Line : Type 0 where
  pub name : Piece
  pub name_more : List Piece
  pub value : Piece
  pub value_more : List Piece

abbrev pub line_name : Line → Text
line_name l = together (l.name ∷ l.name_more)

abbrev pub line_value : Line → Text
line_value l = together (l.value ∷ l.value_more)

abbrev pub line_end : Line → ℕ
line_end l = last_end l.value.1 l.value_more

abbrev pub line_calls : Line → List ParserCall
line_calls l =
    on_field l.name.0
    ∷ (map (λ (p : Piece). on_field p.0) l.name_more
        ++ (on_value l.value.0 l.value.1 ∷ map (λ (p : Piece). on_value p.0 p.1) l.value_more))

abbrev pub lines_calls : List Line → List ParserCall
lines_calls [] = []
lines_calls (l ∷ ls) = line_calls l ++ lines_calls ls

-- The map of the headers: a later value replaces that of the same name.
abbrev pub set_lines : List Line → Headers → Headers
set_lines [] m = m
set_lines (l ∷ ls) m = set_lines ls (header_set (line_name l) (line_value l) m)

abbrev pub last_line : Line → List Line → Line
last_line l [] = l
last_line l (k ∷ ls) = last_line k ls

-- The rest of the calls for a message: the pieces of the body, and the end.
abbrev pub body_calls : List Piece → List ParserCall
body_calls bs = map (λ (p : Piece). on_body p.0 p.1) bs ++ (on_message_complete ∷ [])

-- A message without a body leaves what was there.
abbrev pub body_bytes : List ℕ → List Piece → List ℕ
body_bytes old [] = old
body_bytes old (p ∷ ps) = together (p ∷ ps)

abbrev pub MayBegin : {B : Type 0} → Http B → Type 0
MayBegin h = (h.state ≡ finish_prev) ⊎ (h.state ≡ message_complete)

pub header_get-header_set : (k v : Text) (m : Headers) → header_get k (header_set k v m) ≡ some v
unfolding header_get header_set
header_get-header_set k v [] = rw (text_eq_refl k) refl
header_get-header_set k v ((j, w) ∷ m) = elim (Bool-cases (text_eq j k)) [
  | inl e ↦ rw (e, e) refl
  | inr e ↦ rw (e, e) (header_get-header_set k v m)
]

pub header_set-header_set :
    (k v w : Text) (m : Headers) → header_set k w (header_set k v m) ≡ header_set k w m
unfolding header_set
header_set-header_set k v w [] = rw (text_eq_refl k) refl
header_set-header_set k v w ((j, x) ∷ m) = elim (Bool-cases (text_eq j k)) [
  | inl e ↦ rw (e, e) refl
  | inr e ↦ rw (e, e) (ap (◌∷◌ (j, x)) (header_set-header_set k v w m))
]

pub header_add-header_set :
    (k v w : Text) (m : Headers) → header_add k w (header_set k v m) ≡ header_set k (v ++ w) m
unfolding header_add
header_add-header_set k v w m =
    rw (header_get-header_set k v m) (header_set-header_set k v (v ++ w) m)

pub header_get-header_set_other :
    (k j v : Text) (m : Headers)
    → text_eq j k ≡ false
    → header_get k (header_set j v m) ≡ header_get k m
unfolding header_get header_set
header_get-header_set_other k j v [] e = rw e refl
header_get-header_set_other k j v ((i, w) ∷ m) e = elim (Bool-cases (text_eq i j)) [
  | inl f ↦
      let g : text_eq i k ≡ false = ap (λ (x : Text). text_eq x k) (text_eq_sound i j f) ∙ e in
      rw (f, g) refl
  | inr f ↦ rw f (elim (Bool-cases (text_eq i k)) [
    | inl g ↦ rw g refl
    | inr g ↦ rw g (header_get-header_set_other k j v m e)
  ])
]
