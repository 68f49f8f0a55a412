-- ===== src/Server/RequestParser/Format.antt =====
-- osrm-backend/server/request_parser.cpp: a request as a client writes it, and what the parser
-- makes of it.
use maiden.Prelude.{
  ℕ, ◌≡◌, refl, ◌≢◌, true, false, some, List, [], ◌∷◌, ◌++◌, All, codes, arith, ◌==◌,
}
use mathlib.Core.List.{append_assoc, append-nil}
use maiden.Server.RequestParser.{
  InternalState, Predicates, Parser, Request, consume_method_start, consume_post_T, consume_method,
  consume_uri, consume_version_major, consume_version_minor, consume_header_name,
  consume_header_value, consume_in, consume,
}
use maiden.Server.RequestParser.Classes.{is_ctl, is_token, is_digit}
use maiden.Server.RequestParser.Stream.{feed, feed-append}

abbrev pub IsToken : List ℕ → Type 0
IsToken = All (λ c. is_token c ≡ true)

-- What the uri state keeps: no space, no control character.
abbrev pub IsUri : List ℕ → Type 0
IsUri = All (λ c. (is_ctl c ≡ false) × (c ≢ b' '))

abbrev pub IsValue : List ℕ → Type 0
IsValue = All (λ c. is_ctl c ≡ false)

abbrev pub IsDigits : List ℕ → Type 0
IsDigits = All (λ c. is_digit c ≡ true)

abbrev pub at : InternalState → Parser → Parser
at st p = record p { state = st }

abbrev pub add_uri : Request → List ℕ → Request
add_uri r u = record r { uri = r.uri ++ u }

abbrev pub add_name : Parser → List ℕ → Parser
add_name p n = record p {
  current_header = record (p.current_header) { name = p.current_header.name ++ n };
}

abbrev pub add_value : Parser → List ℕ → Parser
add_value p n = record p {
  current_header = record (p.current_header) { value = p.current_header.value ++ n };
}

token-ne-space : (c : ℕ) → is_token c ≡ true → (c == b' ') ≡ false
unfolding is_token
token-ne-space c h = ground arith

pub token-ne-return : (c : ℕ) → is_token c ≡ true → (c == 13) ≡ false
unfolding is_token
token-ne-return c h = ground arith

token-ne-colon : (c : ℕ) → is_token c ≡ true → (c == b':') ≡ false
unfolding is_token
token-ne-colon c h = ground arith

ctl-ne-return : (c : ℕ) → is_ctl c ≡ false → (c == 13) ≡ false
unfolding is_ctl
ctl-ne-return c h = ground arith

digit-ne-dot : (c : ℕ) → is_digit c ≡ true → ((c == b'.') ≡ false) × ((c == 13) ≡ false)
unfolding is_digit
digit-ne-dot c h = ground arith

-- "HTTP/1.1\r\n"
unfoldable pub version : List ℕ → List ℕ → List ℕ
version maj min = b'H' ∷ b'T' ∷ b'T' ∷ b'P' ∷ b'/' ∷ (maj ++ (b'.' ∷ (min ++ (13 ∷ 10 ∷ []))))

-- "GET /route HTTP/1.1\r\n"
unfoldable pub start_line : List ℕ → List ℕ → List ℕ → List ℕ
start_line m u v = m ++ (b' ' ∷ (u ++ (b' ' ∷ v)))

unfoldable pub header_rest : List ℕ → List ℕ → List ℕ
header_rest n v = n ++ (b':' ∷ b' ' ∷ (v ++ (13 ∷ 10 ∷ [])))

module _ (boost : Predicates) where
  feed-method :
      (p : Parser) (r : Request) (m : List ℕ)
      → IsToken m
      → feed boost (at InternalState.method p) r m ≡ some (at InternalState.method p, r)
  unfolding feed consume consume_in consume_method
  feed-method p r [] h = refl
  feed-method p r (c ∷ m) h = ground (arith, token-ne-space c, feed-method p r m h.1)

  feed-uri :
      (p : Parser) (r : Request) (u : List ℕ)
      → IsUri u
      → feed boost (at InternalState.uri p) r u ≡ some (at InternalState.uri p, add_uri r u)
  unfolding feed consume consume_in consume_uri
  feed-uri p r [] h = ground (arith, append-nil r.uri)
  feed-uri p r (c ∷ u) h =
      ground (arith, feed-uri p (add_uri r (c ∷ [])) u h.1, append_assoc r.uri (c ∷ []) u)

  feed-major :
      (p : Parser) (r : Request) (d : List ℕ)
      → IsDigits d
      → feed boost (at InternalState.http_version_major p) r d
        ≡ some (at InternalState.http_version_major p, r)
  unfolding feed consume consume_in consume_version_major
  feed-major p r [] h = refl
  feed-major p r (c ∷ d) h = ground (arith, digit-ne-dot c, feed-major p r d h.1)

  feed-minor :
      (p : Parser) (r : Request) (d : List ℕ)
      → IsDigits d
      → feed boost (at InternalState.http_version_minor p) r d
        ≡ some (at InternalState.http_version_minor p, r)
  unfolding feed consume consume_in consume_version_minor
  feed-minor p r [] h = refl
  feed-minor p r (c ∷ d) h = ground (arith, digit-ne-dot c, feed-minor p r d h.1)

  feed-name :
      (p : Parser) (r : Request) (n : List ℕ)
      → IsToken n
      → feed boost (at InternalState.header_name p) r n
        ≡ some (at InternalState.header_name (add_name p n), r)
  unfolding feed consume consume_in consume_header_name
  feed-name p r [] h = ground (arith, append-nil p.current_header.name)
  feed-name p r (c ∷ n) h = ground (
    arith,
    token-ne-colon c,
    feed-name (add_name p (c ∷ [])) r n h.1,
    append_assoc p.current_header.name (c ∷ []) n,
  )

  feed-value :
      (p : Parser) (r : Request) (v : List ℕ)
      → IsValue v
      → feed boost (at InternalState.header_value p) r v
        ≡ some (at InternalState.header_value (add_value p v), r)
  unfolding feed consume consume_in consume_header_value
  feed-value p r [] h = ground (arith, append-nil p.current_header.value)
  feed-value p r (c ∷ v) h = ground (
    arith,
    ctl-ne-return c,
    feed-value (add_value p (c ∷ [])) r v h.1,
    append_assoc p.current_header.value (c ∷ []) v,
  )

  feed-version :
      (p : Parser) (r : Request) (maj min : List ℕ) (a b : ℕ)
      → IsDigits (a ∷ maj)
      → IsDigits (b ∷ min)
      → feed boost (at InternalState.http_version_h p) r (version (a ∷ maj) (b ∷ min))
        ≡ some (at InternalState.header_line_start p, r)
  unfolding feed consume consume_in consume_version_major consume_version_minor version
  feed-version p r maj min a b ha hb =
      let after_major =
        feed-append boost _ r maj (b'.' ∷ b ∷ (min ++ (13 ∷ 10 ∷ []))) (feed-major p r maj ha.1) in
      let after_minor = feed-append boost _ r min (13 ∷ 10 ∷ []) (feed-minor p r min hb.1) in
      ground (arith, after_major, after_minor)

  -- "name: value\r\n" after the first letter of the name
  pub feed-header_rest :
      (p : Parser) (r : Request) (n v : List ℕ)
      → IsToken n
      → IsValue v
      → feed boost (at InternalState.header_name p) r (header_rest n v)
        ≡ some (at InternalState.header_line_start (add_value (add_name p n) v), r)
  unfolding feed consume consume_in consume_header_name consume_header_value header_rest
  feed-header_rest p r n v hn hv =
      let named =
        feed-append boost _ r n (b':' ∷ b' ' ∷ (v ++ (13 ∷ 10 ∷ []))) (feed-name p r n hn) in
      let valued = feed-append boost _ r v (13 ∷ 10 ∷ []) (feed-value (add_name p n) r v hv) in
      ground (arith, named, valued)

  -- The start line of a request: its URI goes behind what the request holds.
  pub feed-start_line :
      (p : Parser) (r : Request) (c a b : ℕ) (m u maj min : List ℕ)
      → IsToken (c ∷ m)
      → c ≢ b'P'
      → IsUri u
      → IsDigits (a ∷ maj)
      → IsDigits (b ∷ min)
      → feed boost
          (at InternalState.method_start p)
          r
          (start_line (c ∷ m) u (version (a ∷ maj) (b ∷ min)))
        ≡ some (at InternalState.header_line_start p, add_uri r u)
  unfolding feed consume consume_in consume_method_start consume_method consume_uri start_line
  feed-start_line p r c a b m u maj min hm hc hu ha hb =
      let v = version (a ∷ maj) (b ∷ min) in
      let called = feed-append boost _ r m (b' ' ∷ (u ++ (b' ' ∷ v))) (feed-method p r m hm.1) in
      let named = feed-append boost _ r u (b' ' ∷ v) (feed-uri p r u hu) in
      ground (arith, called, named, feed-version p (add_uri r u) maj min a b ha hb)

  -- The same for POST, which the parser remembers.
  pub feed-post_line :
      (p : Parser) (r : Request) (a b : ℕ) (u maj min : List ℕ)
      → IsUri u
      → IsDigits (a ∷ maj)
      → IsDigits (b ∷ min)
      → feed boost
          (at InternalState.method_start p)
          r
          (start_line (codes "POST") u (version (a ∷ maj) (b ∷ min)))
        ≡ some
            (at InternalState.header_line_start (record p { is_post_header = true }), add_uri r u)
  unfolding feed consume consume_in consume_method_start consume_post_T consume_method consume_uri
      start_line is_token
  feed-post_line p r a b u maj min hu ha hb =
      let q = record p { is_post_header = true } in
      let v = version (a ∷ maj) (b ∷ min) in
      let named = feed-append boost _ r u (b' ' ∷ v) (feed-uri q r u hu) in
      ground (arith, named, feed-version q (add_uri r u) maj min a b ha hb)
