-- ===== src/Http/Reply.antt =====
-- A response that is written by one call of `end`.
use hula.Common.{
  ℕ, ◌+◌, ◌<◌, ◌≡◌, refl, ap, ◌∙◌, true, false, none, some, [], ◌∷◌, ◌++◌, append_assoc, length,
  drop-length, nil_of_length, ltb, ◌==◌, if◌then◌else◌, lt→ltb, le→leb, Bool-cases, inl, inr, arith,
}
use hula.Buffer.{SharedMem}
use hula.Rules.{Text, text_eq}
use hula.Http.{
  header_get, header_set, HttpRequest, Http, finish_prev, wrote, read_started, ParserRun, canonical,
  to_upper, to_lower, set_header,
}
use hula.Http.Pieces.{header_get-header_set, header_get-header_set_other}
use hula.Http.Digits.{decimal_value, decimal_value-decimal}
use hula.Http.Connection.{response_write, finish_request, consume, run_parser}
use hula.Http.Response.{
  decimal, content_length, content_type, text_html, header_text, set_status, with_status,
  write_header, write, close_response, end,
}

header_text_pos : {B : Type 0} (r : HttpRequest B) → 0 < length (header_text r)
unfolding header_text
header_text_pos r = omega arith

module _ (mem : SharedMem) (moved : mem.Buf) (status_str : ℕ → Text) where
  open mem use {Buf, bytes, skip, copy, bytes-copy, bytes-skip}

  with_status_flags :
      (r : HttpRequest Buf)
      → ((with_status mem moved status_str r).wrote_header ≡ true)
        × ((with_status mem moved status_str r).ended ≡ r.ended)
        × ((with_status mem moved status_str r).chunked ≡ r.chunked)
        × ((with_status mem moved status_str r).header ≡ r.header)
  unfolding with_status set_status
  with_status_flags r = elim (Bool-cases (r.status == 0)) [
    | inl e ↦ rw e (refl, refl, refl, refl)
    | inr e ↦ rw e (refl, refl, refl, refl)
  ]

  write_header_lem :
      (r : HttpRequest Buf) (h : Http Buf)
      → r.wrote_header ≡ false
      → r.ended ≡ false
      → write_header mem moved status_str r h
        ≡ some (
          with_status mem moved status_str r,
          response_write mem moved (copy (header_text (with_status mem moved status_str r))) h,
        )
  unfolding write_header
  write_header_lem r h w e =
      let q = with_status mem moved status_str r in
      simp (
        w,
        (with_status_flags r).1,
        e,
        bytes-copy,
        lt→ltb 0 (length (header_text q)) (header_text_pos q),
      )

  write_lem :
      (buf : Buf) (r : HttpRequest Buf) (h : Http Buf)
      → r.wrote_header ≡ true
      → r.ended ≡ false
      → r.chunked ≡ false
      → 0 < length (bytes buf)
      → write mem moved status_str buf r h ≡ some (r, response_write mem moved buf h)
  unfolding write
  write_lem buf r h w e c n = simp (w, e, c, lt→ltb 0 (length (bytes buf)) n)

  -- A request for which nothing was written.
  abbrev pub unanswered : HttpRequest Buf → HttpRequest Buf
  unanswered r = record r { wrote_header = false; ended = false; chunked = false }

  -- An object that handles the request, and has used what it read.
  abbrev pub answering : HttpRequest Buf → Http Buf → Http Buf
  answering r h = record h {
    current_request = some r;
    upgrade = false;
    in_read = false;
    max_ptr = some (length (bytes h.ref));
  }

  -- The request with the headers that `end` sets.
  abbrev pub replied : Buf → HttpRequest Buf → HttpRequest Buf
  replied buf r = with_status mem moved status_str (record r {
    header =
        header_set content_type text_html
          (header_set content_length (decimal (length (bytes buf))) r.header);
  })

  close_response_lem :
      (buf : Buf) (r : HttpRequest Buf) (h : Http Buf)
      → 0 < length (bytes buf)
      → close_response mem moved status_str buf (unanswered r) h
        ≡ some (
          record (replied buf (unanswered r)) { ended = true },
          response_write mem moved buf
              (response_write mem moved (copy (header_text (replied buf (unanswered r)))) h),
        )
  unfolding close_response set_header canonical to_upper to_lower
  close_response_lem buf r0 h n =
      let r = unanswered r0 in
      let r' = record r {
        header =
            header_set content_type text_html
              (header_set content_length (decimal (length (bytes buf))) r.header);
      } in
      let (a, b, d, hs) = with_status_flags r' in
      rw
        (
          write_header_lem r' h refl refl,
          lt→ltb 0 (length (bytes buf)) n,
          write_lem buf (replied buf r)
              (response_write mem moved (copy (header_text (replied buf r))) h) a b d n,
        )
        refl

  used_up :
      (b : Buf) → bytes (if ltb 0 (length (bytes b)) then skip b (length (bytes b)) else b) ≡ []
  used_up b = elim (Bool-cases (ltb 0 (length (bytes b)))) [
    | inl e ↦ rw e (bytes-skip b (length (bytes b)) (omega arith) ∙ drop-length (bytes b))
    | inr e ↦ rw e (nil_of_length (bytes b) (ground (arith, e)))
  ]

  -- `end` on a request for which nothing was written and chunks were not set, of an object that handles
  -- it, does not read, is not upgraded, and has used its whole buffer: two writes go out, a header and then the body,
  -- which is not empty; reading starts again, and the object waits for the next message. The header
  -- is the text of the request with the content type and the content length set, and the digits of
  -- that length are the size of the body.
  pub end-unanswered :
      (buf : Buf) (run : ParserRun) (r : HttpRequest Buf) (h : Http Buf)
      → 0 < length (bytes buf)
      → (header rest : Buf) × (bytes header ≡ header_text (replied buf (unanswered r)))
        × (header_get content_length (replied buf (unanswered r)).header
            ≡ some (decimal (length (bytes buf))))
        × (decimal_value 0 (decimal (length (bytes buf))) ≡ length (bytes buf))
        × (bytes rest ≡ [])
        × (end mem moved status_str buf run (answering (unanswered r) h)
            ≡ some (record h {
              current_request = none;
              upgrade = false;
              in_read = true;
              state = finish_prev;
              ref = rest;
              max_ptr = some 0;
              writed_buffer_size =
                  h.writed_buffer_size + length (bytes header) + length (bytes buf);
              log = h.log ++ (wrote header ∷ wrote buf ∷ read_started ∷ []);
            }))
  unfolding end finish_request response_write consume run_parser text_eq
  end-unanswered buf run r h n = (
    copy (header_text (replied buf (unanswered r))),
    (if ltb 0 (length (bytes h.ref)) then skip h.ref (length (bytes h.ref)) else h.ref),
    bytes-copy (header_text (replied buf (unanswered r))),
    rw
        (with_status_flags (record (unanswered r) {
          header =
              header_set content_type text_html
                (header_set content_length (decimal (length (bytes buf))) r.header);
        })).3
        (header_get-header_set_other content_length content_type text_html
            (header_set content_length (decimal (length (bytes buf))) r.header) refl
          ∙ header_get-header_set content_length (decimal (length (bytes buf))) r.header),
    decimal_value-decimal (length (bytes buf)),
    used_up h.ref,
    rw
        (
          close_response_lem buf r (answering (unanswered r) h) n,
          le→leb (length (bytes h.ref)) (length (bytes h.ref)) (omega arith),
          ap length (used_up h.ref),
        )
        (simp append_assoc),
  )
