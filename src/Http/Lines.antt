-- ===== src/Http/Lines.antt =====
-- The callbacks of the parser on the pieces of an address, of headers and of a body.
use hula.Common.{
  ℕ, ◌≡◌, refl, ap, ◌∙◌, Bool, true, false, Option, some, List, [], ◌∷◌, ◌++◌, map, append-nil,
  append_assoc, if◌then◌else◌, ◌>>=◌, Option-cases, not_some, inl, inr,
}
use hula.Buffer.{SharedMem}
use hula.Rules.{Text}
use hula.Http.{
  HttpState, url_part, field_part, value_part, body_part, Headers, header_set, Http, ParserCall,
  on_url, on_field, on_value, on_body,
}
use hula.Http.Connection.{
  state_code, http_on_url, http_on_field, http_on_value, http_on_body, handle, handle_all,
}
use hula.Http.Pieces.{
  Piece, together, last_end, concat, Line, line_name, line_value, line_end, line_calls, lines_calls,
  set_lines, last_line, header_add-header_set,
}

module _ (mem : SharedMem) (moved : mem.Buf) where
  open mem use {Buf, bytes, join, copy, bytes-join, bytes-copy}

  pub handle_all-append :
      (cs ds : List ParserCall) (h : Http Buf) {g : Http Buf}
      → handle_all mem moved cs h ≡ some g
      → handle_all mem moved (cs ++ ds) h ≡ handle_all mem moved ds g
  unfolding handle_all
  handle_all-append [] ds h e = ap (λ (x : Option (Http Buf)). x >>= handle_all mem moved ds) e
  handle_all-append (c ∷ cs) ds h e = elim (Option-cases (handle mem moved c h)) [
    | inl n ↦ absurd (not_some (rw n at e))
    | inr (g, found) ↦ rw found (handle_all-append cs ds g (rw found at e))
  ]

  pub url_more :
      (m u : Text) (us : List Text) (h : Http Buf)
      → handle_all mem moved (map (on_url m) us) (record h { state = url_part; url = u })
        ≡ some (record h { state = url_part; url = u ++ concat us })
  unfolding handle_all handle http_on_url state_code
  url_more m u [] h = rw append-nil refl
  url_more m u (v ∷ us) h = url_more m (u ++ v) us h ∙ rw append_assoc refl

  pub name_rest :
      (n : Text) (ns : List Piece) (h : Http Buf)
      → handle_all mem moved
          (map (λ (p : Piece). on_field p.0) ns)
          (record h { state = field_part; prev_field = n })
        ≡ some (record h { state = field_part; prev_field = n ++ together ns })
  unfolding handle_all handle http_on_field state_code
  name_rest n [] h = rw append-nil refl
  name_rest n (p ∷ ns) h = name_rest (n ++ p.0) ns h ∙ rw append_assoc refl

  pub value_rest :
      (v : Text) (end : ℕ) (vs : List Piece) (m : Headers) (h : Http Buf)
      → handle_all mem moved (map (λ (p : Piece). on_value p.0 p.1) vs) (record h {
        state = value_part;
        max_ptr = some end;
        request_header = header_set h.prev_field v m;
      })
        ≡ some (record h {
          state = value_part;
          max_ptr = some (last_end end vs);
          request_header = header_set h.prev_field (v ++ together vs) m;
        })
  unfolding handle_all handle http_on_value state_code
  value_rest v end [] m h = rw append-nil refl
  value_rest v end (p ∷ vs) m h =
      rw (header_add-header_set h.prev_field v p.0 m)
        (value_rest (v ++ p.0) p.1 vs m h ∙ rw append_assoc refl)

  pub body_rest :
      (b : Buf) (end : ℕ) (bs : List Piece) (h : Http Buf)
      → (d : Buf) × (bytes d ≡ bytes b ++ together bs)
        × (handle_all mem moved
              (map (λ (p : Piece). on_body p.0 p.1) bs)
              (record h { state = body_part; max_ptr = some end; req_data = b })
            ≡ some (record h { state = body_part; max_ptr = some (last_end end bs); req_data = d }))
  unfolding handle_all handle http_on_body state_code
  body_rest b end [] h = (b, rw append-nil refl, refl)
  body_rest b end (p ∷ bs) h =
      let (d, e, r) = body_rest (join b (copy p.0)) p.1 bs h in
      (
        d,
        e ∙ rw (bytes-join b (copy p.0), bytes-copy p.0) (append_assoc (bytes b) p.0 (together bs)),
        r,
      )

  -- A header, after the address or after another header.
  abbrev pub before_line : Bool → HttpState
  before_line first = if first then url_part else value_part

  pub name_begin :
      (first : Bool) (n : Text) (cs : List ParserCall) (h : Http Buf)
      → handle_all mem moved (on_field n ∷ cs) (record h { state = before_line first })
        ≡ handle_all mem moved cs (record h { state = field_part; prev_field = n })
  unfolding handle_all handle http_on_field state_code
  name_begin true n cs h = refl
  name_begin false n cs h = refl

  pub value_begin :
      (v : Text) (end : ℕ) (cs : List ParserCall) (h : Http Buf)
      → handle_all mem moved (on_value v end ∷ cs) (record h { state = field_part })
        ≡ handle_all mem moved cs (record h {
          state = value_part;
          max_ptr = some end;
          request_header = header_set h.prev_field v h.request_header;
        })
  unfolding handle_all handle http_on_value state_code
  value_begin v end cs h = refl

  pub handle_all-line_calls :
      (first : Bool) (l : Line) (h : Http Buf)
      → handle_all mem moved (line_calls l) (record h { state = before_line first })
        ≡ some (record h {
          state = value_part;
          prev_field = line_name l;
          max_ptr = some (line_end l);
          request_header = header_set (line_name l) (line_value l) h.request_header;
        })
  handle_all-line_calls first l h =
      name_begin first l.name.0 _ h
      ∙ handle_all-append (map (λ (p : Piece). on_field p.0) l.name_more)
          (on_value l.value.0 l.value.1 ∷ map (λ (p : Piece). on_value p.0 p.1) l.value_more)
          (record h { state = field_part; prev_field = l.name.0 })
          (name_rest l.name.0 l.name_more h)
      ∙ value_begin l.value.0 l.value.1 _ (record h { prev_field = line_name l })
      ∙ value_rest l.value.0 l.value.1 l.value_more h.request_header
          (record h { prev_field = line_name l })

  pub handle_all-lines_calls :
      (l : Line) (ls : List Line) (first : Bool) (h : Http Buf)
      → handle_all mem moved (lines_calls (l ∷ ls)) (record h { state = before_line first })
        ≡ some (record h {
          state = value_part;
          prev_field = line_name (last_line l ls);
          max_ptr = some (line_end (last_line l ls));
          request_header = set_lines (l ∷ ls) h.request_header;
        })
  handle_all-lines_calls l [] first h = rw append-nil (handle_all-line_calls first l h)
  handle_all-lines_calls l (k ∷ ls) first h =
      handle_all-append (line_calls l) (lines_calls (k ∷ ls))
        (record h { state = before_line first }) (handle_all-line_calls first l h)
      ∙ handle_all-lines_calls k ls false (record h {
        state = value_part;
        prev_field = line_name l;
        max_ptr = some (line_end l);
        request_header = header_set (line_name l) (line_value l) h.request_header;
      })
