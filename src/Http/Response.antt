-- ===== src/Http/Response.antt =====
-- Class HttpRequest (lib/http.cpp): the response to a request. A method takes the request and the
-- connection. `status_str` is http_status_str of http_parser.
use hula.Common.{
  ℕ, zero, suc, ◌+◌, ◌/◌, ◌%◌, ℤ, pos, int_eq, is_negative, Bool, true, false, not, Option, none,
  some, [], ◌∷◌, ◌++◌, length, ltb, ◌==◌, if◌then◌else◌, ◌>>=◌, ◌>>◌, assert,
}
use hula.Buffer.{SharedMem}
use hula.Rules.{Text}
use hula.Http.{Headers, HttpRequest, Http, ParserRun, set_header}
use hula.Http.Connection.{
  response_write, finish_request, finish_upgrade_accept, finish_upgrade_reject,
}

-- A digit in lower case, and the digits of a number; the fuel is for them.
abbrev pub digit : ℕ → ℕ
digit d = if ltb d 10 then 48 + d else 87 + d

unfoldable pub to_digits : ℕ → ℕ → ℕ → Text
to_digits base zero n = []
to_digits base (suc fuel) n =
    let front = to_digits base fuel (n / base) in
    if ltb n base then digit n ∷ [] else front ++ (digit (n % base) ∷ [])

-- std::to_string, and "%lx"
unfoldable pub decimal : ℕ → Text
decimal n = to_digits 10 (suc n) n

unfoldable pub hexadecimal : ℕ → Text
hexadecimal n = to_digits 16 (suc n) n

-- "HTTP/1.1 "
abbrev pub version_text : Text
version_text = b'H' ∷ b'T' ∷ b'T' ∷ b'P' ∷ b'/' ∷ b'1' ∷ b'.' ∷ b'1' ∷ b' ' ∷ []

abbrev pub content_length : Text
content_length =
    b'C' ∷ b'o' ∷ b'n' ∷ b't' ∷ b'e' ∷ b'n' ∷ b't' ∷ b'-' ∷ b'L' ∷ b'e' ∷ b'n' ∷ b'g' ∷ b't' ∷ b'h'
    ∷ []

abbrev pub content_type : Text
content_type =
    b'C' ∷ b'o' ∷ b'n' ∷ b't' ∷ b'e' ∷ b'n' ∷ b't' ∷ b'-' ∷ b'T' ∷ b'y' ∷ b'p' ∷ b'e' ∷ []

abbrev pub text_html : Text
text_html = b't' ∷ b'e' ∷ b'x' ∷ b't' ∷ b'/' ∷ b'h' ∷ b't' ∷ b'm' ∷ b'l' ∷ []

abbrev pub transfer_encoding : Text
transfer_encoding =
    b'T' ∷ b'r' ∷ b'a' ∷ b'n' ∷ b's' ∷ b'f' ∷ b'e' ∷ b'r' ∷ b'-' ∷ b'E' ∷ b'n' ∷ b'c' ∷ b'o' ∷ b'd'
    ∷ b'i' ∷ b'n' ∷ b'g' ∷ []

abbrev pub chunked_text : Text
chunked_text = b'c' ∷ b'h' ∷ b'u' ∷ b'n' ∷ b'k' ∷ b'e' ∷ b'd' ∷ []

-- std::endl
abbrev pub newline : ℕ
newline = 10

unfoldable pub header_lines : Headers → Text
header_lines [] = []
header_lines ((k, v) ∷ hs) = k ++ (58 ∷ 32 ∷ (v ++ (newline ∷ header_lines hs)))

unfoldable pub header_text : {B : Type 0} → HttpRequest B → Text
header_text r =
    version_text
    ++ (decimal r.status
        ++ (32 ∷ (r.status_text ++ (newline ∷ (header_lines r.header ++ (newline ∷ []))))))

unfoldable pub set_chunk : {B : Type 0} → HttpRequest B → Option (HttpRequest B)
set_chunk r =
    assert (not r.chunked)
    >> set_header transfer_encoding chunked_text (record r { chunked = true })

-- The status that `Http` calls back with: if `drain` is emitted, and if the callback is called.
unfoldable pub response_write_callback_request : ℤ → Bool × Bool
response_write_callback_request status =
    if is_negative status then (false, false) else (int_eq status (pos 3), true)

module _ (mem : SharedMem) (moved : mem.Buf) (status_str : ℕ → Text) where
  open mem use {Buf, bytes, empty, join, copy}

  abbrev pub size : Buf → ℕ
  size b = length (bytes b)

  unfoldable pub set_status : ℕ → Option Text → HttpRequest Buf → HttpRequest Buf
  set_status status none r = record r { status = status; status_text = status_str status }
  set_status status (some t) r = record r { status = status; status_text = t }

  -- The request with which the header is written.
  unfoldable pub with_status : HttpRequest Buf → HttpRequest Buf
  with_status r =
      let r' = record r { wrote_header = true } in
      if r.status == 0 then set_status 200 none r' else r'

  -- `m_chunk` is off while the header is written.
  unfoldable pub write_header : HttpRequest Buf → Http Buf → Option (HttpRequest Buf × Http Buf)
  write_header r h =
      let r' = with_status r in
      let buf = copy (header_text r') in
      assert (not r.wrote_header)
      >> (assert (not r'.ended)
          >> (assert (ltb 0 (size buf)) >> some (r', response_write mem moved buf h)))

  unfoldable pub write : Buf → HttpRequest Buf → Http Buf → Option (HttpRequest Buf × Http Buf)
  write buf r h =
      let begun = if r.wrote_header then some (r, h) else write_header r h in
      assert (not r.ended)
      >> (assert (ltb 0 (size buf))
          >> (begun >>= λ p. some (
            p.0,
            response_write mem moved
                (if r.chunked
                  then join (copy (hexadecimal (size buf) ++ (13 ∷ 10 ∷ []))) buf
                  else buf)
                p.1,
          )))

  -- The text goes out with the zero behind it.
  unfoldable pub write_text :
      Text → HttpRequest Buf → Http Buf → Option (HttpRequest Buf × Http Buf)
  write_text str r h = write (copy (str ++ (0 ∷ []))) r h

  abbrev pub with_length : Buf → HttpRequest Buf → Option (HttpRequest Buf)
  with_length buf r = if r.chunked then some r else set_header content_length (decimal (size buf)) r

  -- What end, AcceptUpgrade and RejectUpgrade begin with.
  unfoldable pub close_response :
      Buf → HttpRequest Buf → Http Buf → Option (HttpRequest Buf × Http Buf)
  close_response buf r h =
      let begun = with_length buf r >>= λ r1.
      set_header content_type text_html r1 >>= λ r2. write_header r2 h in
      assert (not r.ended)
      >> ((if r.wrote_header then some (r, h) else begun) >>= λ p.
          (if ltb 0 (size buf) then write buf p.0 p.1 else some p) >>= λ q.
          some (record q.0 { ended = true }, q.1))

  -- The object of the request that is being handled.
  abbrev pub closing : Buf → (Http Buf → Option (Http Buf)) → Http Buf → Option (Http Buf)
  closing buf after h = h.current_request >>= λ r.
      close_response buf r h >>= λ p. after (record p.1 { current_request = some p.0 })

  unfoldable pub end : Buf → ParserRun → Http Buf → Option (Http Buf)
  end buf run h = closing buf (finish_request mem moved run) h

  unfoldable pub end_text : Text → ParserRun → Http Buf → Option (Http Buf)
  end_text str run h = if length str == 0 then end empty run h else end (copy str) run h

  unfoldable pub accept_upgrade : Buf → Http Buf → Option (Http Buf)
  accept_upgrade buf h = closing buf (finish_upgrade_accept mem moved) h

  unfoldable pub reject_upgrade : Buf → ParserRun → Http Buf → Option (Http Buf)
  reject_upgrade buf run h = closing buf (finish_upgrade_reject mem moved run) h
