-- ===== src/Server/RequestParser/Requests.antt =====
-- osrm-backend/server/request_parser.cpp: whole requests.
use mathlib.Core.Path.{subst}
use mathlib.Core.List.{append_assoc, append-nil}
use maiden.Prelude.{
  ℕ, suc, sym, ◌≡◌, refl, ap, ◌∙◌, ◌≢◌, true, false, none, some, List, [], ◌∷◌, ◌++◌, All, codes,
  arith, length, if◌then◌else◌,
}
use maiden.Prelude.Int.{ℤ, negsuc, pos, IsInt, wrap_32-IsInt, ◌-ℤ◌, ltb_ℤ, leb_ℤ}
use maiden.Server.RequestParser.{
  Tribool, indeterminate, InternalState, Header, Predicates, Parser, Request, Outcome, init, accept,
  consume_newline_3, consume_in, consume, parse, consume_post_request, push_uri,
}
use maiden.Server.RequestParser.Stream.{parse-feed}
use maiden.Server.RequestParser.Format.{
  at, add_uri, IsToken, IsUri, IsDigits, start_line, version, feed-start_line, feed-post_line,
}
use maiden.Server.RequestParser.Headers.{
  IsHeader, header_lines, apply_headers, feed-headers, parse-headers_refused, finish_header-empty,
  apply_headers-is_post_header,
}

-- A request: start line, header lines, empty line, body.
abbrev pub request_text : List ℕ → List ℕ → List ℕ → List Header → List ℕ → List ℕ
request_text m u v hs body = start_line m u v ++ (header_lines hs ++ 13 ∷ 10 ∷ body)

module _ (boost : Predicates) where
  minus_zero : (x : ℤ) → x -ℤ pos 0 ≡ x
  unfolding ◌-ℤ◌
  minus_zero (pos m) = ground arith
  minus_zero (negsuc m) = ground arith

  one_less :
      (x : ℤ) (n : ℕ)
      → IsInt x
      → IsInt (x -ℤ pos (suc n))
      → IsInt (x -ℤ pos 1) × ((x -ℤ pos 1) -ℤ pos n ≡ x -ℤ pos (suc n))
  unfolding ◌-ℤ◌
  one_less (pos m) n h k = ground arith
  one_less (negsuc m) n h k = ground arith

  parse-body :
      (p : Parser) (r : Request) (body : List ℕ)
      → IsInt p.content_length
      → IsInt (p.content_length -ℤ pos (length body))
      → parse boost (at InternalState.post_request p) r body ≡ record {
        result =
            if leb_ℤ (p.content_length -ℤ pos (length body)) (pos 0)
            then Tribool.yes
            else indeterminate;
        parser = record p {
          state = InternalState.post_request;
          content_length = p.content_length -ℤ pos (length body);
        };
        request = add_uri r body;
      }
  unfolding parse consume consume_in consume_post_request
  parse-body p r [] h k = rw (minus_zero p.content_length) (ground (arith, append-nil r.uri))
  parse-body p r (c ∷ body) h k =
      let less = one_less p.content_length (length body) h k in
      let kept = wrap_32-IsInt (p.content_length -ℤ pos 1) less.0 in
      let rest =
        parse-body (record p { content_length = p.content_length -ℤ pos 1 }) (push_uri r c) body
          less.0 (subst IsInt (sym less.1) k) in
      rw kept (ground (arith, rest, less.1, append_assoc r.uri (c ∷ []) body))

  parse-head :
      (p : Parser) (r : Request) (hs : List Header) (p' : Parser) (r' : Request) (rest : List ℕ)
      → p.current_header.name ≡ []
      → All IsHeader hs
      → apply_headers boost (at InternalState.header_line_start p) r hs ≡ some (p', r')
      → parse boost (at InternalState.header_line_start p) r (header_lines hs ++ 13 ∷ rest)
        ≡ parse boost (at InternalState.expecting_newline_3 p') r' rest
  unfolding apply_headers
  parse-head p r hs p' r' rest e ok a =
      let q = at InternalState.header_line_start p in
      let block =
        feed-headers boost p r hs (true, q, r) p' r' ok (finish_header-empty boost q r e) a in
      subst (λ x. parse boost q r x ≡ parse boost (at InternalState.expecting_newline_3 p') r' rest)
        (append_assoc (header_lines hs) (13 ∷ []) rest)
        (parse-feed boost q r (header_lines hs ++ 13 ∷ []) rest block)

  parse-newline_3 :
      (p : Parser) (r : Request) (rest : List ℕ)
      → p.is_post_header ≡ false
      → parse boost (at InternalState.expecting_newline_3 p) r (10 ∷ rest)
        ≡ accept (at InternalState.expecting_newline_3 p) r
  unfolding parse consume consume_in consume_newline_3
  parse-newline_3 p r rest e = ground arith

  -- The body of a POST goes behind the URI, after a question mark if a length was announced.
  abbrev pub begin_body : Parser → Request → Request
  begin_body p r = if ltb_ℤ (pos 0) p.content_length then push_uri r b'?' else r

  parse-newline_3_post :
      (p : Parser) (r : Request) (rest : List ℕ)
      → p.is_post_header ≡ true
      → parse boost (at InternalState.expecting_newline_3 p) r (10 ∷ rest)
        ≡ parse boost (at InternalState.post_request p) (begin_body p r) rest
  unfolding parse consume consume_in consume_newline_3
  parse-newline_3_post p r rest e = ground arith

  -- A request that is no POST, with its method a token that does not begin with P, its URI without
  -- spaces and control characters and its version two numbers, and whose headers the parser accepts,
  -- is accepted at its last byte whatever follows: the URI is appended to the request, and the
  -- parser and the request are those that the headers, applied in order, leave.
  pub parse_request :
      (r : Request) (c a b : ℕ) (m u maj min : List ℕ) (hs : List Header) (rest : List ℕ)
      (p' : Parser) (r' : Request)
      → IsToken (c ∷ m)
      → c ≢ b'P'
      → IsUri u
      → IsDigits (a ∷ maj)
      → IsDigits (b ∷ min)
      → All IsHeader hs
      → apply_headers boost (at InternalState.header_line_start init) (add_uri r u) hs
        ≡ some (p', r')
      → parse boost init r (request_text (c ∷ m) u (version (a ∷ maj) (b ∷ min)) hs rest)
        ≡ accept (at InternalState.expecting_newline_3 p') r'
  unfolding init
  parse_request r c a b m u maj min hs rest p' r' hm hc hu ha hb ok e =
      let first = at InternalState.header_line_start init in
      let kept = apply_headers-is_post_header boost first (add_uri r u) hs p' r' e in
      parse-feed boost init r (start_line (c ∷ m) u (version (a ∷ maj) (b ∷ min)))
        (header_lines hs ++ 13 ∷ 10 ∷ rest)
        (feed-start_line boost init r c a b m u maj min hm hc hu ha hb)
      ∙ parse-head init (add_uri r u) hs p' r' (10 ∷ rest) refl ok e
      ∙ parse-newline_3 p' r' rest kept

  -- A POST whose headers the parser accepts, with a body behind them that does not take the
  -- announced length, which is an int, below the least int: the URI, a question mark if the
  -- announced length is positive, and the body are appended to the request; the verdict is yes if
  -- the body is at least as long as announced, and otherwise left open.
  pub parse_post :
      (r : Request) (a b : ℕ) (u maj min : List ℕ) (hs : List Header) (body : List ℕ) (p' : Parser)
      (r' : Request)
      → IsUri u
      → IsDigits (a ∷ maj)
      → IsDigits (b ∷ min)
      → All IsHeader hs
      → apply_headers boost
          (record init { state = InternalState.header_line_start; is_post_header = true })
          (add_uri r u)
          hs
        ≡ some (p', r')
      → IsInt p'.content_length
      → IsInt (p'.content_length -ℤ pos (length body))
      → parse boost init r (request_text (codes "POST") u (version (a ∷ maj) (b ∷ min)) hs body)
        ≡ record {
          result =
              if leb_ℤ (p'.content_length -ℤ pos (length body)) (pos 0)
              then Tribool.yes
              else indeterminate;
          parser = record p' {
            state = InternalState.post_request;
            content_length = p'.content_length -ℤ pos (length body);
          };
          request = add_uri (begin_body p' r') body;
        }
  unfolding init
  parse_post r a b u maj min hs body p' r' hu ha hb ok e int int' =
      let first = record init { state = InternalState.header_line_start; is_post_header = true } in
      let kept = apply_headers-is_post_header boost first (add_uri r u) hs p' r' e in
      parse-feed boost init r (start_line (codes "POST") u (version (a ∷ maj) (b ∷ min)))
        (header_lines hs ++ 13 ∷ 10 ∷ body) (feed-post_line boost init r a b u maj min hu ha hb)
      ∙ parse-head first (add_uri r u) hs p' r' (10 ∷ body) refl ok e
      ∙ parse-newline_3_post p' r' body kept
      ∙ parse-body p' (begin_body p' r') body int int'

  -- A request that is no POST one of whose headers is refused (a Content-Type that is no form) gets
  -- the verdict no, whatever its later headers and its body are.
  pub parse_refused :
      (r : Request) (c a b : ℕ) (m u maj min : List ℕ) (hs : List Header) (body : List ℕ)
      → IsToken (c ∷ m)
      → c ≢ b'P'
      → IsUri u
      → IsDigits (a ∷ maj)
      → IsDigits (b ∷ min)
      → All IsHeader hs
      → apply_headers boost (at InternalState.header_line_start init) (add_uri r u) hs ≡ none
      → (parse boost init r (request_text (c ∷ m) u (version (a ∷ maj) (b ∷ min)) hs body)).result
        ≡ Tribool.no
  unfolding init
  parse_refused r c a b m u maj min hs body hm hc hu ha hb ok e =
      let first = at InternalState.header_line_start init in
      ap (λ (o : Outcome). o.result)
        (parse-feed boost init r (start_line (c ∷ m) u (version (a ∷ maj) (b ∷ min)))
          (header_lines hs ++ 13 ∷ 10 ∷ body)
          (feed-start_line boost init r c a b m u maj min hm hc hu ha hb))
      ∙ parse-headers_refused boost init (add_uri r u) hs (true, first, add_uri r u) (10 ∷ body) ok
          (finish_header-empty boost first (add_uri r u) refl) e
