-- ===== src/Http.antt =====
-- An HTTP server connection (lib/http.cpp, include/http.h): the data, and the headers of a response.
-- Connection has class Http, which http_parser, a library of a git submodule, calls back, and Response
-- class HttpRequest. What the parser makes of a buffer is an argument, `ParserRun`. A listener that is
-- called does nothing to the object; what it does with the request is a call that follows. An
-- unordered_map is an association list, in whose order it is written. Of a string or a map that was
-- moved from nothing is left.
pub mod Connection
pub mod Response
pub mod Pieces
pub mod Lines
pub mod Receive
pub mod Digits
pub mod Reply
pub mod Names
mod Tests
use hula.Common.{
  ℕ, zero, suc, ◌+◌, ◌-◌, ℤ, is_negative, Bool, true, false, ◌&&◌, not, Option, none, some, List,
  [], ◌∷◌, ◌++◌, length, leb, ltb, ◌==◌, if◌then◌else◌, ◌>>=◌, ◌>>◌, assert,
}
use hula.Common.Maps.{is_some}
use hula.Buffer.{SharedMem}
use hula.Rules.{Text, text_eq}

pub data HttpState : Type 0 where
  finish_prev message_begin url_part field_part value_part header_complete : HttpState
  body_part message_complete : HttpState

abbrev pub Headers : Type 0
Headers = List (Text × Text)

unfoldable pub header_get : Text → Headers → Option Text
header_get k [] = none
header_get k ((j, v) ∷ m) = if text_eq j k then some v else header_get k m

-- m[k] = v
unfoldable pub header_set : Text → Text → Headers → Headers
header_set k v [] = (k, v) ∷ []
header_set k v ((j, w) ∷ m) = if text_eq j k then (j, v) ∷ m else (j, w) ∷ header_set k v m

abbrev pub text_or_empty : Option Text → Text
text_or_empty none = []
text_or_empty (some t) = t

-- m[k] += v
unfoldable pub header_add : Text → Text → Headers → Headers
header_add k v m = header_set k (text_or_empty (header_get k m) ++ v) m

pub record HttpRequest (B : Type 0) : Type 0 where
  pub method : Text
  pub url : Text
  pub request_data : B
  pub request_header : Headers
  pub header : Headers
  pub status : ℕ
  pub status_text : Text
  pub chunked : Bool
  pub ended : Bool
  pub wrote_header : Bool

pub data Failure : Type 0 where
  read_failure end_of_stream parse_error bad_version unexpected_status : Failure

-- The calls of the stream, and the events.
pub data Effect (B : Type 0) : Type 0 where
  wrote : B → Effect B
  read_started read_stopped transferred : Effect B
  request_event upgrade_event upgraded_event : Effect B
  error_event : Failure → Effect B

pub record Http (B : Type 0) : Type 0 where
  pub default_response_header : Headers
  pub request_header : Headers
  pub ref : B
  pub pushed : B
  -- m_max_ptr - m_ref.base()
  pub max_ptr : Option ℕ
  pub current_request : Option (HttpRequest B)
  pub state : HttpState
  pub method : Text
  pub url : Text
  pub prev_field : Text
  pub req_data : B
  pub chunk : Bool
  pub upgrade : Bool
  pub writed_buffer_size : ℕ
  pub in_read : Bool
  pub log : List (Effect B)

-- The callbacks that the parser makes, with the text and, for a value and a piece of a body, its end
-- in the buffer; the method is a member of the parser.
pub data ParserCall : Type 0 where
  on_message_begin on_header_complete on_message_complete : ParserCall
  on_chunk_header on_chunk_complete : ParserCall
  on_url : Text → Text → ParserCall
  on_status on_field : Text → ParserCall
  on_value on_body : Text → ℕ → ParserCall

-- A call of http_parser_execute: the callbacks, in order, and then if http_errno is HPE_OK or
-- HPE_PAUSED, if the version is 1.1, and `upgrade`.
pub record ParserRun : Type 0 where
  pub calls : List ParserCall
  pub no_error : Bool
  pub is_http_1_1 : Bool
  pub upgrade : Bool

-- std::toupper and std::tolower of ASCII
unfoldable pub to_upper : ℕ → ℕ
to_upper c = if leb 97 c && leb c 122 then c - 32 else c

unfoldable pub to_lower : ℕ → ℕ
to_lower c = if leb 65 c && leb c 90 then c + 32 else c

-- The loop of setHeader: `upper` at the start and after a dash.
unfoldable pub canonical : Bool → Text → Text
canonical upper [] = []
canonical upper (c ∷ s) = (if upper then to_upper c else to_lower c) ∷ canonical (c == 45) s

-- setHeader, with its assertion
unfoldable pub set_header : {B : Type 0} → Text → Text → HttpRequest B → Option (HttpRequest B)
set_header field value r =
    assert (not (length field == 0))
    >> some (record r { header = header_set (canonical true field) value r.header })

unfoldable pub set_headers : {B : Type 0} → Headers → HttpRequest B → Option (HttpRequest B)
set_headers [] r = some r
set_headers ((k, v) ∷ hs) r = set_header k v r >>= set_headers hs

-- The constructor of HttpRequest.
unfoldable pub new_request :
    {B : Type 0} → Headers → Headers → Text → Text → B → Option (HttpRequest B)
new_request {B} default_header req_header method url request_data =
    let blank : HttpRequest B = record {
      method = method;
      url = url;
      request_data = request_data;
      request_header = req_header;
      header = [];
      status = 0;
      status_text = [];
      chunked = false;
      ended = false;
      wrote_header = false;
    } in
    set_headers default_header blank
