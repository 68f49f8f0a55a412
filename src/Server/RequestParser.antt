-- ===== src/Server/RequestParser.antt =====
-- osrm-backend/server/request_parser.cpp: the incremental HTTP request parser, one byte at a time.
-- A char is the number 0 to 255 of its byte; a byte from 128 on is no `is_char` and no `is_ctl`
-- whether char is signed or not. `request::endpoint` is left out: the parser does not touch it.
pub mod Classes
pub mod Stoi
pub mod Stream
pub mod States
pub mod Format
pub mod Headers
pub mod Requests
mod Tests
use maiden.Prelude.{
  ℕ, ◌≡◌, Bool, true, false, not, ◌||◌, Option, none, some, List, [], ◌∷◌, ◌++◌, codes, ◌==◌,
  if◌then◌else◌,
}
use maiden.Prelude.Int.{ℤ, pos, negsuc, ◌-ℤ◌, ltb_ℤ, leb_ℤ, wrap_32}
use Classes.{is_char, is_ctl, is_special, is_digit, is_token}
use Stoi.{stoi}

pub data Tribool : Type 0 where
  yes no indeterminate : Tribool

pub data CompressionType : Type 0 where
  no_compression gzip_rfc1952 deflate_rfc1951 : CompressionType

pub data InternalState : Type 0 where
  method_start method uri_start uri : InternalState
  http_version_h http_version_t_1 http_version_t_2 http_version_p : InternalState
  http_version_slash http_version_major_start http_version_major : InternalState
  http_version_minor_start http_version_minor expecting_newline_1 : InternalState
  header_line_start header_lws header_name space_before_header_value : InternalState
  header_value expecting_newline_2 expecting_newline_3 : InternalState
  post_O post_S post_T post_request : InternalState

pub record Header : Type 0 where
  pub name : List ℕ
  pub value : List ℕ

pub record Request : Type 0 where
  pub uri : List ℕ
  pub referrer : List ℕ
  pub agent : List ℕ

pub record Parser : Type 0 where
  pub state : InternalState
  pub current_header : Header
  pub selected_compression : CompressionType
  pub is_post_header : Bool
  pub content_length : ℤ

-- boost/algorithm/string/predicate.hpp: comparison and search that ignore case. Of these the
-- parser's proofs use only that no text but the empty one equals the empty one.
pub record Predicates : Type 0 where
  pub iequals : List ℕ → List ℕ → Bool
  pub icontains : List ℕ → List ℕ → Bool
  pub iequals_empty : (c : ℕ) (s : List ℕ) → iequals [] (c ∷ s) ≡ false

-- What a call of `consume` leaves: its result, the parser and the request.
pub record Outcome : Type 0 where
  pub result : Tribool
  pub parser : Parser
  pub request : Request

unfoldable pub init : Parser
init = record {
  state = InternalState.method_start;
  current_header = record { name = []; value = [] };
  selected_compression = no_compression;
  is_post_header = false;
  content_length = pos 0;
}

abbrev pub goto : InternalState → Parser → Request → Outcome
goto st p r = record { result = indeterminate; parser = record p { state = st }; request = r }

abbrev pub stay : Parser → Request → Outcome
stay p r = record { result = indeterminate; parser = p; request = r }

abbrev pub refuse : Parser → Request → Outcome
refuse p r = record { result = Tribool.no; parser = p; request = r }

abbrev pub accept : Parser → Request → Outcome
accept p r = record { result = Tribool.yes; parser = p; request = r }

-- `current_request.uri.push_back(input)`
abbrev pub push_uri : Request → ℕ → Request
push_uri r c = record r { uri = r.uri ++ c ∷ [] }

-- A state that waits for one letter.
abbrev pub expect : ℕ → InternalState → Parser → Request → ℕ → Outcome
expect letter st p r c = if c == letter then goto st p r else refuse p r

abbrev pub expect_digit : InternalState → Parser → Request → ℕ → Outcome
expect_digit st p r c = if is_digit c then goto st p r else refuse p r

consume_method_start : Parser → Request → ℕ → Outcome
consume_method_start p r c =
    if not (is_token c)
    then refuse p r
    else if c == b'P'
    then goto InternalState.post_O p r
    else goto InternalState.method p r

consume_post_T : Parser → Request → ℕ → Outcome
consume_post_T p r c =
    if c == b'T'
    then goto InternalState.method (record p { is_post_header = true }) r
    else refuse p r

consume_post_request : Parser → Request → ℕ → Outcome
consume_post_request p r c =
    stay (record p { content_length = wrap_32 (p.content_length -ℤ pos 1) }) (push_uri r c)

consume_method : Parser → Request → ℕ → Outcome
consume_method p r c =
    if c == b' '
    then goto InternalState.uri p r
    else if not (is_token c)
    then refuse p r
    else stay p r

consume_uri_start : Parser → Request → ℕ → Outcome
consume_uri_start p r c = if is_ctl c then refuse p r else goto InternalState.uri p (push_uri r c)

consume_uri : Parser → Request → ℕ → Outcome
consume_uri p r c =
    if c == b' '
    then goto InternalState.http_version_h p r
    else if is_ctl c
    then refuse p r
    else stay p (push_uri r c)

consume_version_major : Parser → Request → ℕ → Outcome
consume_version_major p r c =
    if c == b'.'
    then goto InternalState.http_version_minor_start p r
    else if is_digit c
    then stay p r
    else refuse p r

consume_version_minor : Parser → Request → ℕ → Outcome
consume_version_minor p r c =
    if c == 13
    then goto InternalState.expecting_newline_1 p r
    else if is_digit c
    then stay p r
    else refuse p r

consume_header_lws : Parser → Request → ℕ → Outcome
consume_header_lws p r c =
    if c == 13
    then goto InternalState.expecting_newline_2 p r
    else if (c == b' ') || (c == 9)
    then stay p r
    else if is_ctl c
    then refuse p r
    else goto InternalState.header_value p r

consume_header_name : Parser → Request → ℕ → Outcome
consume_header_name p r c =
    if c == b':'
    then goto InternalState.space_before_header_value p r
    else if not (is_token c)
    then refuse p r
    else stay
        (record p {
          current_header = record (p.current_header) { name = p.current_header.name ++ c ∷ [] };
        })
        r

consume_header_value : Parser → Request → ℕ → Outcome
consume_header_value p r c =
    if c == 13
    then goto InternalState.expecting_newline_2 p r
    else if is_ctl c
    then refuse p r
    else stay
        (record p {
          current_header = record (p.current_header) { value = p.current_header.value ++ c ∷ [] };
        })
        r

-- The end of the header block: a POST goes on with its body.
consume_newline_3 : Parser → Request → ℕ → Outcome
consume_newline_3 p r c =
    if c == 10
    then if p.is_post_header
      then goto InternalState.post_request p
          (if ltb_ℤ (pos 0) p.content_length then push_uri r b'?' else r)
      else accept p r
    else refuse p r

module _ (boost : Predicates) where
  open boost use {iequals, icontains}

  -- `giving gzip precedence over deflate`
  unfoldable pub compression_of : List ℕ → CompressionType → CompressionType
  compression_of value old =
      let deflated = if icontains value (codes "deflate") then deflate_rfc1951 else old in
      if icontains value (codes "gzip") then gzip_rfc1952 else deflated

  -- An int that does not parse leaves the length as it was.
  unfoldable pub length_of : List ℕ → ℤ → ℤ
  length_of value old = elim (stoi value) [ none ↦ old | some n ↦ n ]

  -- What the finished header line does; `false` in the first part is `return no`.
  unfoldable pub finish_header : Parser → Request → Bool × Parser × Request
  unfolding compression_of length_of
  finish_header p r =
      let name = p.current_header.name in
      let value = p.current_header.value in
      let p' = record p {
        selected_compression =
            if iequals name (codes "Accept-Encoding")
            then compression_of value p.selected_compression
            else p.selected_compression;
        content_length =
            if iequals name (codes "Content-Length")
            then length_of value p.content_length
            else p.content_length;
      } in
      let r' = record r {
        referrer = if iequals name (codes "Referer") then value else r.referrer;
        agent = if iequals name (codes "User-Agent") then value else r.agent;
      } in
      let form = icontains value (codes "application/x-www-form-urlencoded") in
      (if iequals name (codes "Content-Type") then form else true, p', r')

  consume_line_start : Bool × Parser × Request → ℕ → Outcome
  consume_line_start (false, p, r) c = refuse p r
  consume_line_start (true, p, r) c =
      if c == 13
      then goto InternalState.expecting_newline_3 p r
      else if not (is_token c)
      then refuse p r
      else goto InternalState.header_name
          (record p { current_header = record { name = c ∷ []; value = [] } }) r

  -- The switch of `consume`.
  consume_in : InternalState → Parser → Request → ℕ → Outcome
  consume_in InternalState.method_start p r c = consume_method_start p r c
  consume_in InternalState.post_O p r c = expect b'O' InternalState.post_S p r c
  consume_in InternalState.post_S p r c = expect b'S' InternalState.post_T p r c
  consume_in InternalState.post_T p r c = consume_post_T p r c
  consume_in InternalState.post_request p r c = consume_post_request p r c
  consume_in InternalState.method p r c = consume_method p r c
  consume_in InternalState.uri_start p r c = consume_uri_start p r c
  consume_in InternalState.uri p r c = consume_uri p r c
  consume_in InternalState.http_version_h p r c = expect b'H' InternalState.http_version_t_1 p r c
  consume_in InternalState.http_version_t_1 p r c = expect b'T' InternalState.http_version_t_2 p r c
  consume_in InternalState.http_version_t_2 p r c = expect b'T' InternalState.http_version_p p r c
  consume_in InternalState.http_version_p p r c = expect b'P' InternalState.http_version_slash p r c
  consume_in InternalState.http_version_slash p r c =
      expect b'/' InternalState.http_version_major_start p r c
  consume_in InternalState.http_version_major_start p r c =
      expect_digit InternalState.http_version_major p r c
  consume_in InternalState.http_version_major p r c = consume_version_major p r c
  consume_in InternalState.http_version_minor_start p r c =
      expect_digit InternalState.http_version_minor p r c
  consume_in InternalState.http_version_minor p r c = consume_version_minor p r c
  consume_in InternalState.expecting_newline_1 p r c =
      expect 10 InternalState.header_line_start p r c
  consume_in InternalState.header_line_start p r c = consume_line_start (finish_header p r) c
  consume_in InternalState.header_lws p r c = consume_header_lws p r c
  consume_in InternalState.header_name p r c = consume_header_name p r c
  consume_in InternalState.space_before_header_value p r c =
      expect b' ' InternalState.header_value p r c
  consume_in InternalState.header_value p r c = consume_header_value p r c
  consume_in InternalState.expecting_newline_2 p r c =
      expect 10 InternalState.header_line_start p r c
  consume_in InternalState.expecting_newline_3 p r c = consume_newline_3 p r c

  pub consume : Parser → Request → ℕ → Outcome
  consume p r c = consume_in p.state p r c

  -- The verdict at the end of a buffer that no byte decided.
  abbrev pub at_end : Parser → Tribool
  at_end p = elim p.state [
    | InternalState.post_request ↦
        if leb_ℤ p.content_length (pos 0) then Tribool.yes else indeterminate
    | _ ↦ indeterminate
  ]

  -- `parse` on the bytes from begin to end. The selected compression, which it also returns, is a
  -- field of the parser.
  pub parse : Parser → Request → List ℕ → Outcome
  parse p r [] = record { result = at_end p; parser = p; request = r }
  parse p r (c ∷ cs) =
      let o = consume p r c in elim o.result [ indeterminate ↦ parse o.parser o.request cs | _ ↦ o ]
