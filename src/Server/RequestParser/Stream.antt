-- ===== src/Server/RequestParser/Stream.antt =====
-- osrm-backend/server/request_parser.cpp: `parse` is called once for each buffer that the
-- connection reads, so a request may be cut anywhere.
use maiden.Prelude.{ℕ, ◌≡◌, Option, none, some, List, [], ◌∷◌, ◌++◌, arith}
use maiden.Server.RequestParser.{indeterminate, Predicates, Parser, Request, consume, parse}

module _ (boost : Predicates) where
  -- The parser and the request after bytes none of which decides.
  unfoldable pub feed : Parser → Request → List ℕ → Option (Parser × Request)
  feed p r [] = some (p, r)
  feed p r (c ∷ cs) =
      let o = consume boost p r c in
      elim o.result [ indeterminate ↦ feed o.parser o.request cs | _ ↦ none ]

  pub feed-append :
      (p : Parser) (r : Request) (xs ys : List ℕ) {p' : Parser} {r' : Request}
      → feed p r xs ≡ some (p', r')
      → feed p r (xs ++ ys) ≡ feed p' r' ys
  unfolding feed
  feed-append p r [] ys {p'} {r'} h = ground arith
  feed-append p r (c ∷ cs) ys {p'} {r'} h =
      let o = consume boost p r c in
      ground (arith, feed-append o.parser o.request cs ys {p' = p'} {r' = r'})

  pub parse-feed :
      (p : Parser) (r : Request) (xs ys : List ℕ) {p' : Parser} {r' : Request}
      → feed p r xs ≡ some (p', r')
      → parse boost p r (xs ++ ys) ≡ parse boost p' r' ys
  unfolding feed parse
  parse-feed p r [] ys {p'} {r'} h = ground arith
  parse-feed p r (c ∷ cs) ys {p'} {r'} h =
      let o = consume boost p r c in
      ground (arith, parse-feed o.parser o.request cs ys {p' = p'} {r' = r'})
