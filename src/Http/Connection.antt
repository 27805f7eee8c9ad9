-- ===== src/Http/Connection.antt =====
-- Class Http (lib/http.cpp): the callbacks of the parser, the requests that are begun and finished,
-- and the writes. `moved` is what is left of a buffer that was moved from.
use hula.Common.{
  ℕ, ◌+◌, ◌-◌, ℤ, pos, negsuc, is_negative, Bool, true, false, ◌&&◌, not, Option, none, some, List,
  [], ◌∷◌, ◌++◌, length, leb, ltb, ◌==◌, if◌then◌else◌, ◌>>=◌, ◌>>◌, assert,
}
use hula.Common.Maps.{is_some}
use hula.Buffer.{SharedMem}
use hula.Rules.{Text}
use hula.Http.{
  HttpState, finish_prev, message_begin, url_part, field_part, value_part, header_complete,
  body_part, message_complete, Headers, header_set, header_add, read_failure, end_of_stream,
  parse_error, bad_version, unexpected_status, Effect, wrote, read_started, read_stopped,
  transferred, request_event, upgrade_event, upgraded_event, error_event, Http, ParserCall,
  on_message_begin, on_header_complete, on_message_complete, on_chunk_header, on_chunk_complete,
  on_url, on_status, on_field, on_value, on_body, ParserRun, new_request,
}

-- HTTP_MAX_WRITE_BUFFER_SIZE
abbrev pub max_write_buffer_size : ℕ
max_write_buffer_size = 1048576

-- The tests on `m_state`.
unfoldable pub state_code : HttpState → ℕ
state_code finish_prev = 0
state_code message_begin = 1
state_code url_part = 3
state_code field_part = 4
state_code value_part = 5
state_code header_complete = 6
state_code body_part = 7
state_code message_complete = 8

abbrev pub is_in : {B : Type 0} → HttpState → Http B → Bool
is_in s h = state_code h.state == state_code s

module _ {B : Type 0} where
  abbrev pub emit : Effect B → Http B → Http B
  emit e h = record h { log = h.log ++ (e ∷ []) }

  -- EBStreamAbstraction's start_read and stop_read
  abbrev pub start_read : Http B → Http B
  start_read h = emit read_started (record h { in_read = true })

  abbrev pub stop_read : Http B → Http B
  stop_read h = emit read_stopped (record h { in_read = false })

  unfoldable pub end_signal : Http B → Http B
  end_signal h = emit (error_event end_of_stream) h

module _ (mem : SharedMem) (moved : mem.Buf) where
  open mem use {Buf, bytes, empty, join, skip, copy}

  -- The constructor.
  unfoldable pub new_http : Headers → Http Buf
  new_http default_response_header = record {
    default_response_header = default_response_header;
    request_header = [];
    ref = empty;
    pushed = empty;
    max_ptr = none;
    current_request = none;
    state = finish_prev;
    method = [];
    url = [];
    prev_field = [];
    req_data = empty;
    chunk = false;
    upgrade = false;
    writed_buffer_size = 0;
    in_read = false;
    log = [];
  }

  abbrev pub one_of : HttpState → HttpState → Http Buf → Option (Unit {0})
  one_of s t h = if is_in s h then some tt else assert (is_in t h)

  unfoldable pub http_on_url : Text → Text → Http Buf → Option (Http Buf)
  http_on_url method str h =
      if is_in url_part h
      then some (record h { url = h.url ++ str })
      else (assert (is_in message_begin h)
          >> some (record h { state = url_part; url = str; method = method }))

  unfoldable pub http_on_field : Text → Http Buf → Option (Http Buf)
  http_on_field str h =
      if is_in field_part h
      then some (record h { prev_field = h.prev_field ++ str })
      else (one_of url_part value_part h
          >> some (record h { state = field_part; prev_field = str }))

  unfoldable pub http_on_value : Text → ℕ → Http Buf → Option (Http Buf)
  http_on_value str end h =
      if is_in value_part h
      then some (record h {
        max_ptr = some end;
        request_header = header_add h.prev_field str h.request_header;
      })
      else (assert (is_in field_part h)
          >> some (record h {
            max_ptr = some end;
            state = value_part;
            request_header = header_set h.prev_field str h.request_header;
          }))

  unfoldable pub http_on_body : Text → ℕ → Http Buf → Option (Http Buf)
  http_on_body str end h =
      if is_in body_part h
      then some (record h { max_ptr = some end; req_data = join h.req_data (copy str) })
      else (assert (is_in header_complete h)
          >> some (record h { max_ptr = some end; state = body_part; req_data = copy str }))

  -- The callbacks of the parser.
  unfoldable pub handle : ParserCall → Http Buf → Option (Http Buf)
  handle on_message_begin h =
      one_of finish_prev message_complete h >> some (record h { state = message_begin })
  handle (on_url method str) h = http_on_url method str h
  handle (on_status str) h = some (emit (error_event unexpected_status) h)
  handle (on_field str) h = http_on_field str h
  handle (on_value str end) h = http_on_value str end h
  handle on_header_complete h =
      assert (is_in value_part h) >> some (record h { state = header_complete })
  handle (on_body str end) h = http_on_body str end h
  handle on_message_complete h =
      one_of body_part header_complete h >> some (record h { state = message_complete })
  handle on_chunk_header h = some (record h { chunk = true })
  handle on_chunk_complete h = some h

  unfoldable pub handle_all : List ParserCall → Http Buf → Option (Http Buf)
  handle_all [] h = some h
  handle_all (c ∷ cs) h = handle c h >>= handle_all cs

  unfoldable pub start_request : ParserRun → Http Buf → Option (Http Buf)
  start_request run h0 =
      let h = if h0.in_read then stop_read h0 else h0 in
      let taken = record h { request_header = []; method = []; url = []; req_data = moved } in
      let begun =
        new_request h.default_response_header h.request_header h.method h.url h.req_data >>= λ r.
        some (
          emit (if run.upgrade then upgrade_event else request_event)
            (record taken { current_request = some r; upgrade = run.upgrade })) in
      assert (not (is_some h.current_request))
      >> (assert (is_in message_complete h)
          >> (assert (not h.upgrade)
              >> (if not run.is_http_1_1 then some (emit (error_event bad_version) h) else begun)))

  unfoldable pub run_parser : ParserRun → Http Buf → Option (Http Buf)
  run_parser run h =
      let executed = handle_all run.calls h >>= λ h'.
      if not run.no_error
      then some (emit (error_event parse_error) h')
      else if is_in message_complete h'
      then start_request run h'
      else some h' in
      if length (bytes h.ref) == 0 then some h else executed

  unfoldable pub read_callback : Buf → ℤ → ParserRun → Http Buf → Option (Http Buf)
  read_callback buf status run h =
      if is_negative status
      then some (emit (error_event read_failure) h)
      else if is_some h.current_request
      then some (record h { pushed = join h.pushed buf })
      else run_parser run (record h { ref = join h.pushed buf; pushed = empty; max_ptr = some 0 })

  -- What was used of the buffer, with the assertions on `m_max_ptr`; it then points to the front.
  unfoldable pub consume : Http Buf → Option (Http Buf)
  consume h = h.max_ptr >>= λ n.
      assert (leb n (length (bytes h.ref)))
      >> some (record h { ref = if ltb 0 n then skip h.ref n else h.ref; max_ptr = some 0 })

  -- The parser is initialised again, and runs on what is left.
  unfoldable pub finish_request : ParserRun → Http Buf → Option (Http Buf)
  finish_request run h =
      assert (is_some h.current_request)
      >> (assert (not h.upgrade)
          >> (assert (not h.in_read)
              >> (consume (record (start_read (record h { current_request = none })) {
                state = finish_prev;
              })
                  >>= run_parser run)))

  unfoldable pub finish_upgrade_accept : Http Buf → Option (Http Buf)
  finish_upgrade_accept h =
      assert (is_some h.current_request)
      >> (assert h.upgrade
          >> (assert (not h.in_read)
              >> some
                  (emit upgraded_event (emit transferred (record h { current_request = none })))))

  unfoldable pub finish_upgrade_reject : ParserRun → Http Buf → Option (Http Buf)
  finish_upgrade_reject run h =
      assert (is_some h.current_request)
      >> (assert h.upgrade >> finish_request run (record h { upgrade = false }))

  unfoldable pub push_first : Buf → ParserRun → Http Buf → Option (Http Buf)
  push_first buf run h = read_callback buf (pos 0) run h

  -- response_write, and the status that it is called back with; -1 is `negsuc 0`.
  unfoldable pub response_write : Buf → Http Buf → Http Buf
  response_write buf h =
      emit (wrote buf) (record h { writed_buffer_size = h.writed_buffer_size + length (bytes buf) })

  unfoldable pub response_write_callback : ℕ → ℤ → Http Buf → Http Buf × ℤ
  response_write_callback n status h =
      let left = h.writed_buffer_size - n in
      if is_negative status then (h, negsuc 0) else (
        record h { writed_buffer_size = left },
        if leb left max_write_buffer_size && ltb max_write_buffer_size (left + n)
            then pos 3
            else pos 1,
      )
