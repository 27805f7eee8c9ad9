-- ===== src/Http/Tests.antt =====
-- The theorems on HTTP at concrete input.
use hula.Common.{
  ℕ, ◌+◌, ◌≡◌, refl, true, false, none, some, List, [], ◌∷◌, ◌++◌, map, length, inl, arith,
}
use hula.Buffer.{list_mem}
use hula.Rules.{Text}
use hula.Http.{
  finish_prev, message_complete, header_get, HttpRequest, Http, on_message_begin,
  on_header_complete, on_message_complete, on_url, ParserRun, wrote, read_started, to_lower,
  set_header,
}
use hula.Http.Pieces.{
  Line, line_name, line_end, last_line, lines_calls, set_lines, body_calls, body_bytes, concat,
  last_end,
}
use hula.Http.Connection.{new_http, handle_all}
use hula.Http.Receive.{handle_all-message, handle_all-no_header}
use hula.Http.Response.{content_length, decimal, header_text, end}
use hula.Http.Digits.{decimal_value}
use hula.Http.Reply.{unanswered, answering, replied, end-unanswered}
use hula.Http.Names.{set_header-to_lower}

abbrev fresh : Http (List ℕ)
fresh = new_http list_mem [] []

-- "Ho" "st" and the value "a" "b", and a body in two pieces
abbrev host : Line
host = record {
  name = (72 ∷ 111 ∷ [], 0);
  name_more = (115 ∷ 116 ∷ [], 0) ∷ [];
  value = (97 ∷ [], 20);
  value_more = (98 ∷ [], 21) ∷ [];
}

abbrev body : List (Text × ℕ)
body = (120 ∷ [], 30) ∷ (121 ∷ [], 31) ∷ []

abbrev get : Text
get = 71 ∷ 69 ∷ 84 ∷ []

handle_all-message_example :
    (d : List ℕ) × (d ≡ body_bytes [] body)
    × (handle_all list_mem []
          (on_message_begin
            ∷ on_url get (47 ∷ [])
            ∷ (map (on_url get) ((120 ∷ []) ∷ [])
                ++ (lines_calls (host ∷ []) ++ (on_header_complete ∷ body_calls body))))
          fresh
        ≡ some (record fresh {
          state = message_complete;
          method = get;
          url = (47 ∷ []) ++ concat ((120 ∷ []) ∷ []);
          prev_field = line_name (last_line host []);
          request_header = set_lines (host ∷ []) [];
          max_ptr = some (last_end (line_end (last_line host [])) body);
          req_data = d;
        }))
unfolding new_http
handle_all-message_example =
    handle_all-message list_mem [] get (47 ∷ []) ((120 ∷ []) ∷ []) host [] body fresh (inl refl)

handle_all-no_header_example :
    handle_all list_mem []
      (on_message_begin
        ∷ on_url get (47 ∷ [])
        ∷ (map (on_url get) [] ++ (on_header_complete ∷ on_message_complete ∷ [])))
      fresh
    ≡ none
unfolding new_http
handle_all-no_header_example =
    handle_all-no_header list_mem [] get (47 ∷ []) [] (on_message_complete ∷ []) fresh (inl refl)

abbrev status_text : ℕ → Text
status_text n = 79 ∷ 75 ∷ []

abbrev asked : HttpRequest (List ℕ)
asked = record {
  method = get;
  url = 47 ∷ [];
  request_data = [];
  request_header = [];
  header = [];
  status = 0;
  status_text = [];
  chunked = false;
  ended = false;
  wrote_header = false;
}

abbrev no_calls : ParserRun
no_calls = record { calls = []; no_error = true; is_http_1_1 = true; upgrade = false }

abbrev hi : List ℕ
hi = 72 ∷ 105 ∷ []

end-unanswered_example :
    (header rest : List ℕ) × (header
      ≡ header_text (replied list_mem [] status_text hi (unanswered list_mem [] status_text asked)))
    × (header_get content_length
          (replied list_mem [] status_text hi (unanswered list_mem [] status_text asked)).header
        ≡ some (decimal 2))
    × (decimal_value 0 (decimal 2) ≡ 2)
    × (rest ≡ [])
    × (end list_mem [] status_text hi no_calls
          (answering list_mem [] status_text (unanswered list_mem [] status_text asked) fresh)
        ≡ some (record fresh {
          current_request = none;
          upgrade = false;
          in_read = true;
          state = finish_prev;
          ref = rest;
          max_ptr = some 0;
          writed_buffer_size = 0 + length header + 2;
          log = wrote header ∷ wrote hi ∷ read_started ∷ [];
        }))
unfolding new_http
end-unanswered_example =
    end-unanswered list_mem [] status_text hi no_calls asked fresh (omega arith)

-- "Host" and "hOST"
set_header-to_lower_example :
    set_header (72 ∷ 111 ∷ 115 ∷ 116 ∷ []) hi asked ≡ set_header (104 ∷ 79 ∷ 83 ∷ 84 ∷ []) hi asked
unfolding to_lower
set_header-to_lower_example =
    set_header-to_lower (72 ∷ 111 ∷ 115 ∷ 116 ∷ []) (104 ∷ 79 ∷ 83 ∷ 84 ∷ []) hi asked refl
