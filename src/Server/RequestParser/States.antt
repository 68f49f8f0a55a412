-- ===== src/Server/RequestParser/States.antt =====
-- osrm-backend/server/request_parser.cpp: what holds of the parser after any bytes.
use maiden.Prelude.{ℕ, ◌≡◌, ◌≢◌, true, false, refl, List, [], ◌∷◌, All, All-append, arith}
use maiden.Server.RequestParser.{
  InternalState, Predicates, Parser, Request, Outcome, init, push_uri, consume_method_start,
  consume_post_T, consume_post_request, consume_method, consume_uri_start, consume_uri,
  consume_version_major, consume_version_minor, consume_header_lws, consume_header_name,
  consume_header_value, consume_newline_3, consume_line_start, finish_header, consume_in, consume,
  parse,
}
use maiden.Server.RequestParser.Classes.{is_ctl}

abbrev pub IsPrintable : List ℕ → Type 0
IsPrintable = All (λ c. is_ctl c ≡ false)

-- No byte leads to `uri_start` or `header_lws`; the body is read only with is_post_header set; and up
-- to the body the URI has no control character.
pub record Inv (p : Parser) (r : Request) : Type 0 where
  pub no_uri_start : p.state ≢ InternalState.uri_start
  pub no_lws : p.state ≢ InternalState.header_lws
  pub posted : p.state ≡ InternalState.post_request → p.is_post_header ≡ true
  pub printable : p.state ≢ InternalState.post_request → IsPrintable r.uri

push_uri-IsPrintable :
    (r : Request) (c : ℕ) → IsPrintable r.uri → is_ctl c ≡ false → IsPrintable (push_uri r c).uri
push_uri-IsPrintable r c h e = All-append _ r.uri (c ∷ []) h (e, tt)

module _ (boost : Predicates) where
  abbrev Kept : Outcome → Type 0
  Kept o = Inv o.parser o.request

  consume_in-Inv :
      (st : InternalState) (p : Parser) (r : Request) (c : ℕ)
      → p.state ≡ st
      → Inv p r
      → Kept (consume_in boost st p r c)
  unfolding consume_in consume_method_start consume_post_T consume_post_request consume_method
      consume_uri_start consume_uri consume_version_major consume_version_minor consume_header_lws
      consume_header_name consume_header_value consume_newline_3 consume_line_start finish_header
  consume_in-Inv InternalState.uri_start p r c e v = absurd (v.no_uri_start e)
  consume_in-Inv InternalState.header_lws p r c e v = absurd (v.no_lws e)
  consume_in-Inv InternalState.uri p r c e v = ground (arith, push_uri-IsPrintable r c, v.printable)
  consume_in-Inv _ p r c e v = ground (arith, v.printable, v.posted)

  consume-Inv : (p : Parser) (r : Request) (c : ℕ) → Inv p r → Kept (consume boost p r c)
  unfolding consume
  consume-Inv p r c v = consume_in-Inv p.state p r c refl v

  parse-Inv : (p : Parser) (r : Request) (cs : List ℕ) → Inv p r → Kept (parse boost p r cs)
  unfolding parse
  parse-Inv p r [] v = v
  parse-Inv p r (c ∷ cs) v =
      let o = consume boost p r c in
      ground (arith, parse-Inv o.parser o.request cs, consume-Inv p r c v)

  -- After any bytes, with a request whose URI was empty, the new parser is in neither of the states
  -- uri_start and header_lws, is in post_request only if is_post_header is set, and, unless it is in
  -- post_request, the URI read so far has no control character.
  pub parse-init-Inv :
      (r : Request) (cs : List ℕ)
      → r.uri ≡ []
      → Inv (parse boost init r cs).parser (parse boost init r cs).request
  unfolding init
  parse-init-Inv r cs e = parse-Inv init r cs (record {
    no_uri_start = λ h. cc h;
    no_lws = λ h. cc h;
    posted = λ h. cc h;
    printable = λ h. rw e tt;
  })
