-- ===== src/Server/RequestParser/Tests.antt =====
-- Runs of the parser on whole requests, with a comparison of ASCII texts that ignores case.
use maiden.Prelude.{
  ℕ, ◌+◌, ◌≡◌, refl, ap, Bool, true, false, ◌&&◌, List, [], ◌∷◌, some, codes, arith, ◌==◌, leb,
  if◌then◌else◌,
}
use maiden.Prelude.Int.{pos, ◌-ℤ◌}
use maiden.Server.RequestParser.{
  Tribool, gzip_rfc1952, InternalState, Header, Predicates, Request, Outcome, init, accept, parse,
  finish_header,
}
use maiden.Server.RequestParser.Classes.{is_token, is_digit, is_ctl}
use maiden.Server.RequestParser.Stoi.{stoi}
use maiden.Server.RequestParser.Format.{add_uri, version}
use maiden.Server.RequestParser.States.{Inv, parse-init-Inv}
use maiden.Server.RequestParser.Headers.{IsHeader, apply_headers}
use maiden.Server.RequestParser.Requests.{request_text, parse_request, parse_post, parse_refused}

abbrev lower : ℕ → ℕ
lower c = if leb b'A' c && leb c b'Z' then c + 32 else c

abbrev starts : List ℕ → List ℕ → Bool
starts s [] = true
starts [] (d ∷ t) = false
starts (c ∷ s) (d ∷ t) = (lower c == lower d) && starts s t

abbrev same : List ℕ → List ℕ → Bool
same [] [] = true
same [] (d ∷ t) = false
same (c ∷ s) [] = false
same (c ∷ s) (d ∷ t) = (lower c == lower d) && same s t

abbrev holds : List ℕ → List ℕ → Bool
holds [] t = starts [] t
holds (c ∷ s) t = if starts (c ∷ s) t then true else holds s t

abbrev ascii : Predicates
ascii = record { iequals = same; icontains = holds; iequals_empty = λ c s. refl }

abbrev blank : Request
blank = record { uri = []; referrer = []; agent = [] }

abbrev gzip : Header
gzip = record { name = codes "accept-encoding"; value = codes "deflate, gzip" }

abbrev three : Header
three = record { name = codes "Content-Length"; value = codes "3" }

abbrev text_type : Header
text_type = record { name = codes "Content-Type"; value = codes "text/plain" }

stoi_signed : stoi (codes "  -12ab") ≡ some (pos 0 -ℤ pos 12)
unfolding stoi ◌-ℤ◌ is_digit
stoi_signed = refl

gzip-IsHeader : IsHeader gzip
unfolding is_token is_ctl
gzip-IsHeader = IsHeader.named b'a' (codes "ccept-encoding") refl (ground arith) (ground arith)

three-IsHeader : IsHeader three
unfolding is_token is_ctl
three-IsHeader = IsHeader.named b'C' (codes "ontent-Length") refl (ground arith) (ground arith)

text_type-IsHeader : IsHeader text_type
unfolding is_token is_ctl
text_type-IsHeader = IsHeader.named b'C' (codes "ontent-Type") refl (ground arith) (ground arith)

parse-init-Inv_example :
    Inv
      (parse ascii init blank (codes "GET /a")).parser
      (parse ascii init blank (codes "GET /a")).request
parse-init-Inv_example = parse-init-Inv ascii blank (codes "GET /a") refl

parse_request_example :
    parse ascii init blank (
      request_text
        (codes "GET")
        (codes "/route?z=1")
        (version (codes "1") (codes "1"))
        (gzip ∷ [])
        (codes "x"))
    ≡ accept
        (record init {
          state = InternalState.expecting_newline_3;
          current_header = gzip;
          selected_compression = gzip_rfc1952;
        })
        (add_uri blank (codes "/route?z=1"))
unfolding apply_headers finish_header init is_token is_digit is_ctl
parse_request_example =
    parse_request ascii blank b'G' b'1' b'1' (codes "ET") (codes "/route?z=1") [] [] (gzip ∷ [])
      (codes "x")
      (record init {
        state = InternalState.header_line_start;
        current_header = gzip;
        selected_compression = gzip_rfc1952;
      })
      (add_uri blank (codes "/route?z=1")) (ground arith) (omega arith) (ground arith)
      (ground arith) (ground arith) (gzip-IsHeader, tt) refl

parse_post_example :
    (parse ascii init blank (
      request_text
        (codes "POST")
        (codes "/t")
        (version (codes "1") (codes "0"))
        (three ∷ [])
        (codes "a=b"))).result
    ≡ Tribool.yes
unfolding apply_headers finish_header init is_token is_digit is_ctl stoi ◌-ℤ◌
parse_post_example =
    ap (λ (o : Outcome). o.result)
      (parse_post ascii blank b'1' b'0' (codes "/t") [] [] (three ∷ []) (codes "a=b")
        (record init {
          state = InternalState.header_line_start;
          current_header = three;
          is_post_header = true;
          content_length = pos 3;
        })
        (add_uri blank (codes "/t")) (ground arith) (ground arith) (ground arith)
        (three-IsHeader, tt) refl (omega arith) (omega arith))

parse_refused_example :
    (parse ascii init blank (
      request_text
        (codes "GET")
        (codes "/t")
        (version (codes "1") (codes "0"))
        (text_type ∷ gzip ∷ [])
        [])).result
    ≡ Tribool.no
unfolding apply_headers finish_header init is_token is_digit is_ctl
parse_refused_example =
    parse_refused ascii blank b'G' b'1' b'0' (codes "ET") (codes "/t") [] [] (text_type ∷ gzip ∷ [])
      [] (ground arith) (omega arith) (ground arith) (ground arith) (ground arith)
      (text_type-IsHeader, (gzip-IsHeader, tt)) refl
