-- ===== src/Server/RequestParser/Headers.antt =====
-- osrm-backend/server/request_parser.cpp: the header block. The parser acts on a header when it
-- reads the first byte of the line behind it; the specification acts on each header in turn.
use maiden.Prelude.{
  ℕ, ◌≡◌, refl, ap, sym, ◌∙◌, Bool, true, false, Option, none, some, List, [], ◌∷◌, ◌++◌, All,
  codes, arith,
}
use mathlib.Core.Path.{subst}
use mathlib.Core.List.{append_assoc}
use maiden.Server.RequestParser.{
  Tribool, InternalState, Header, Predicates, Parser, Request, Outcome, consume_line_start,
  finish_header, consume_in, consume, parse,
}
use maiden.Server.RequestParser.Stream.{feed, feed-append, parse-feed}
use maiden.Server.RequestParser.Format.{
  at, IsToken, IsValue, header_rest, feed-header_rest, token-ne-return,
}

-- A header that a client may send: the name a token, the value without control characters.
pub data IsHeader (h : Header) : Type 0 where
  named : (c : ℕ) (n : List ℕ) → h.name ≡ c ∷ n → IsToken (c ∷ n) → IsValue h.value → IsHeader h

-- "name: value\r\n" for each header
pub header_lines : List Header → List ℕ
unfolding header_rest
header_lines [] = []
header_lines (h ∷ hs) = header_rest h.name h.value ++ header_lines hs

abbrev pub holding : Parser → Header → Parser
holding p h = record p { state = InternalState.header_line_start; current_header = h }

module _ (boost : Predicates) where
  -- The headers applied in order; `none` if one of them is refused.
  unfoldable pub apply_headers : Parser → Request → List Header → Option (Parser × Request)
  apply_headers p r [] = some (p, r)
  apply_headers p r (h ∷ hs) =
      let (fine, p', r') = finish_header boost (holding p h) r in
      elim fine [ true ↦ apply_headers p' r' hs | false ↦ none ]

  -- What the pending header and those behind it do.
  abbrev finish_all : Bool × Parser × Request → List Header → Option (Parser × Request)
  finish_all (fine, p, r) hs = elim fine [ true ↦ apply_headers p r hs | false ↦ none ]

  feed-header :
      (p : Parser) (r : Request) (h : Header) (p' : Parser) (r' : Request)
      → IsHeader h
      → finish_header boost (at InternalState.header_line_start p) r ≡ (true, p', r')
      → feed boost (at InternalState.header_line_start p) r (header_rest h.name h.value)
        ≡ some (holding p' h, r')
  unfolding feed consume consume_in consume_line_start header_rest
  feed-header p r h p' r' (named c n e ht hv) f =
      let line =
        feed-header_rest boost (record p' { current_header = record { name = c ∷ []; value = [] } })
          r' n h.value ht.1 hv in
      rw e (ground (arith, f, line, ht.0, token-ne-return c))

  -- The header block, up to the return of the empty line behind it.
  pub feed-headers :
      (p : Parser) (r : Request) (hs : List Header) (t : Bool × Parser × Request) (p' : Parser)
      (r' : Request)
      → All IsHeader hs
      → finish_header boost (at InternalState.header_line_start p) r ≡ t
      → finish_all t hs ≡ some (p', r')
      → feed boost (at InternalState.header_line_start p) r (header_lines hs ++ 13 ∷ [])
        ≡ some (at InternalState.expecting_newline_3 p', r')
  unfolding feed consume consume_in consume_line_start apply_headers header_lines
  feed-headers p r [] (true, p1, r1) p' r' ok f e = ground (arith, f)
  feed-headers p r (h ∷ hs) (true, p1, r1) p' r' ok f e =
      let line = feed-header p r h p1 r1 ok.0 f in
      let rest = header_lines hs ++ 13 ∷ [] in
      subst
        (λ x.
          feed boost (at InternalState.header_line_start p) r x
          ≡ some (at InternalState.expecting_newline_3 p', r'))
        (sym (append_assoc (header_rest h.name h.value) (header_lines hs) (13 ∷ [])))
        (feed-append boost (at InternalState.header_line_start p) r (header_rest h.name h.value)
            rest line
          ∙ feed-headers (holding p1 h) r1 hs (finish_header boost (holding p1 h) r1) p' r' ok.1
              refl e)
  feed-headers p r hs (false, p1, r1) p' r' ok f e = cc

  -- A refused header: the request is refused, whatever follows the block.
  pub parse-headers_refused :
      (p : Parser) (r : Request) (hs : List Header) (t : Bool × Parser × Request) (rest : List ℕ)
      → All IsHeader hs
      → finish_header boost (at InternalState.header_line_start p) r ≡ t
      → finish_all t hs ≡ none
      → (parse boost (at InternalState.header_line_start p) r (header_lines hs ++ 13 ∷ rest)).result
        ≡ Tribool.no
  unfolding parse consume consume_in consume_line_start apply_headers header_lines
  parse-headers_refused p r [] (true, p1, r1) rest ok f e = cc
  parse-headers_refused p r (h ∷ hs) (true, p1, r1) rest ok f e =
      let line = feed-header p r h p1 r1 ok.0 f in
      let later = header_lines hs ++ 13 ∷ rest in
      let next =
        parse-headers_refused (holding p1 h) r1 hs (finish_header boost (holding p1 h) r1) rest ok.1
          refl e in
      subst (λ x. (parse boost (at InternalState.header_line_start p) r x).result ≡ Tribool.no)
        (sym (append_assoc (header_rest h.name h.value) (header_lines hs) (13 ∷ rest)))
        (ap (λ (o : Outcome). o.result)
            (parse-feed boost (at InternalState.header_line_start p) r (header_rest h.name h.value)
              later line)
          ∙ next)
  parse-headers_refused p r [] (false, p1, r1) rest ok f e = ground (arith, f)
  parse-headers_refused p r (h ∷ hs) (false, p1, r1) rest (named c n d ht hv, ok) f e =
      unfold header_rest in rw d (ground (arith, f))

  -- Before the first header line nothing is pending.
  pub finish_header-empty :
      (p : Parser) (r : Request)
      → p.current_header.name ≡ []
      → finish_header boost p r ≡ (true, p, r)
  unfolding finish_header
  finish_header-empty p r e =
      let none_is = boost.iequals_empty in
      rw e (
        ground (
          arith,
          none_is b'A' (codes "ccept-Encoding"),
          none_is b'R' (codes "eferer"),
          none_is b'U' (codes "ser-Agent"),
          none_is b'C' (codes "ontent-Length"),
          none_is b'C' (codes "ontent-Type"),
        ))

  pub apply_headers-is_post_header :
      (p : Parser) (r : Request) (hs : List Header) (p' : Parser) (r' : Request)
      → apply_headers p r hs ≡ some (p', r')
      → p'.is_post_header ≡ p.is_post_header
  unfolding apply_headers finish_header
  apply_headers-is_post_header p r [] p' r' e = ground arith
  apply_headers-is_post_header p r (h ∷ hs) p' r' e =
      let t = finish_header boost (holding p h) r in
      ground (arith, apply_headers-is_post_header t.1 t.2 hs p' r')
