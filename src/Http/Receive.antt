-- ===== src/Http/Receive.antt =====
-- What the callbacks of the parser leave for a message.
use hula.Common.{ℕ, ◌≡◌, refl, ap, ◌∙◌, true, none, some, List, [], ◌∷◌, ◌++◌, map, inl, inr}
use hula.Buffer.{SharedMem}
use hula.Rules.{Text}
use hula.Http.{
  url_part, value_part, header_complete, body_part, message_complete, Http, ParserCall,
  on_message_begin, on_header_complete, on_message_complete, on_url, on_body,
}
use hula.Http.Connection.{state_code, http_on_url, http_on_body, handle, handle_all}
use hula.Http.Pieces.{
  Piece, together, last_end, concat, Line, line_name, line_end, lines_calls, set_lines, last_line,
  body_calls, body_bytes, MayBegin,
}
use hula.Http.Lines.{handle_all-append, url_more, body_rest, handle_all-lines_calls}

module _ (mem : SharedMem) (moved : mem.Buf) where
  open mem use {Buf, bytes, copy, bytes-copy}

  handle_all-body_calls :
      (bs : List Piece) (end : ℕ) (h : Http Buf)
      → (d : Buf) × (bytes d ≡ body_bytes (bytes h.req_data) bs)
        × (handle_all mem moved
              (body_calls bs)
              (record h { state = header_complete; max_ptr = some end })
            ≡ some (record h {
              state = message_complete;
              max_ptr = some (last_end end bs);
              req_data = d;
            }))
  unfolding handle_all handle http_on_body state_code
  handle_all-body_calls [] end h = (h.req_data, refl, refl)
  handle_all-body_calls (p ∷ bs) end h =
      let (d, e, r) = body_rest mem moved (copy p.0) p.1 bs h in
      (
        d,
        e ∙ ap (λ (t : Text). t ++ together bs) (bytes-copy p.0),
        handle_all-append mem moved (map (λ (p : Piece). on_body p.0 p.1) bs)
            (on_message_complete ∷ [])
            (record h { state = body_part; max_ptr = some p.1; req_data = copy p.0 }) r,
      )

  first_call :
      (m u : Text) (cs : List ParserCall) (h : Http Buf)
      → MayBegin h
      → handle_all mem moved (on_message_begin ∷ on_url m u ∷ cs) h
        ≡ handle_all mem moved cs (record h { state = url_part; url = u; method = m })
  unfolding handle_all handle http_on_url state_code
  first_call m u cs h (inl e) = simp e
  first_call m u cs h (inr e) = simp e

  -- Up to the headers, from a state in which a message may begin.
  url_begin :
      (m u : Text) (us : List Text) (cs : List ParserCall) (h : Http Buf)
      → MayBegin h
      → handle_all mem moved (on_message_begin ∷ on_url m u ∷ (map (on_url m) us ++ cs)) h
        ≡ handle_all mem moved cs (record h { state = url_part; url = u ++ concat us; method = m })
  url_begin m u us cs h s =
      first_call m u (map (on_url m) us ++ cs) h s
      ∙ handle_all-append mem moved (map (on_url m) us) cs
          (record h { state = url_part; url = u; method = m })
          (url_more mem moved m u us (record h { method = m }))

  headers_done :
      (cs : List ParserCall) (end : ℕ) (h : Http Buf)
      → handle_all mem moved
          (on_header_complete ∷ cs)
          (record h { state = value_part; max_ptr = some end })
        ≡ handle_all mem moved cs (record h { state = header_complete; max_ptr = some end })
  unfolding handle_all handle state_code
  headers_done cs end h = refl

  refused :
      (cs : List ParserCall) (h : Http Buf)
      → handle_all mem moved (on_header_complete ∷ cs) (record h { state = url_part }) ≡ none
  unfolding handle_all handle state_code
  refused cs h = refl

  -- The callbacks that the parser makes for a message, its address, names, values and body in pieces
  -- cut anywhere, with one header at least, on an object that waits for a message: no assertion
  -- fails, and the object then has the message complete, with the method, the whole address, each
  -- name with its whole value (a later header replaces one of the same name), and the whole body, or
  -- what was there before if there is none.
  pub handle_all-message :
      (m u : Text) (us : List Text) (l : Line) (ls : List Line) (bs : List Piece) (h : Http Buf)
      → MayBegin h
      → (d : Buf) × (bytes d ≡ body_bytes (bytes h.req_data) bs)
        × (handle_all mem moved
              (on_message_begin
                ∷ on_url m u
                ∷ (map (on_url m) us
                    ++ (lines_calls (l ∷ ls) ++ (on_header_complete ∷ body_calls bs))))
              h
            ≡ some (record h {
              state = message_complete;
              method = m;
              url = u ++ concat us;
              prev_field = line_name (last_line l ls);
              request_header = set_lines (l ∷ ls) h.request_header;
              max_ptr = some (last_end (line_end (last_line l ls)) bs);
              req_data = d;
            }))
  handle_all-message m u us l ls bs h s =
      let h1 = record h { state = url_part; url = u ++ concat us; method = m } in
      let h2 = record h1 {
        prev_field = line_name (last_line l ls);
        request_header = set_lines (l ∷ ls) h.request_header;
      } in
      let (d, e, r) = handle_all-body_calls bs (line_end (last_line l ls)) h2 in
      (
        d,
        e,
        url_begin m u us (lines_calls (l ∷ ls) ++ (on_header_complete ∷ body_calls bs)) h s
            ∙ handle_all-append mem moved (lines_calls (l ∷ ls))
                (on_header_complete ∷ body_calls bs) h1
                (handle_all-lines_calls mem moved l ls true h1)
            ∙ headers_done (body_calls bs) (line_end (last_line l ls)) h2
            ∙ r,
      )

  -- A message without a header makes the assertion of `http_on_header_complete` fail, whatever the
  -- parser would call after it.
  pub handle_all-no_header :
      (m u : Text) (us : List Text) (cs : List ParserCall) (h : Http Buf)
      → MayBegin h
      → handle_all mem moved
          (on_message_begin ∷ on_url m u ∷ (map (on_url m) us ++ (on_header_complete ∷ cs)))
          h
        ≡ none
  handle_all-no_header m u us cs h s =
      url_begin m u us (on_header_complete ∷ cs) h s
      ∙ refused cs (record h { url = u ++ concat us; method = m })
