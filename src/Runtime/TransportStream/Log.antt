-- ===== src/Runtime/TransportStream/Log.antt =====
-- runtime/context.go: what a `ServerTransportStream` holds behind any sequence of calls.
use grpc_gateway.Prelude.{◌≡◌, refl, ◌∙◌, ap, List, [], ◌∷◌, length, ◌==◌, if◌then◌else◌, arith}
use grpc_gateway.Runtime.Http.{Header}
use grpc_gateway.Runtime.TransportStream.{
  ServerTransportStream, set_header, send_header, set_trailer,
}

-- A call of a method that changes the stream.
pub data Call : Type 0 where
  sets_header sends_header sets_trailer : Header → Call

module _ (join : Header → Header → Header) where
  abbrev pub perform : Call → ServerTransportStream → ServerTransportStream
  perform (sets_header md) s = set_header join md s
  perform (sends_header md) s = send_header join md s
  perform (sets_trailer md) s = set_trailer join md s

  abbrev pub perform_all : List Call → ServerTransportStream → ServerTransportStream
  perform_all [] s = s
  perform_all (c ∷ cs) s = perform_all cs (perform c s)

  abbrev pub joined : Header → Header → Header
  joined old md = if length md == 0 then old else join old md

  -- The metadata of the calls about the header, and of those about the trailer, in their order.
  abbrev pub header_log : Header → List Call → Header
  header_log h [] = h
  header_log h (sets_header md ∷ cs) = header_log (joined h md) cs
  header_log h (sends_header md ∷ cs) = header_log (joined h md) cs
  header_log h (sets_trailer md ∷ cs) = header_log h cs

  abbrev pub trailer_log : Header → List Call → Header
  trailer_log h [] = h
  trailer_log h (sets_trailer md ∷ cs) = trailer_log (joined h md) cs
  trailer_log h (sets_header md ∷ cs) = trailer_log h cs
  trailer_log h (sends_header md ∷ cs) = trailer_log h cs

  set_header-parts :
      (md : Header) (s : ServerTransportStream)
      → ((set_header join md s).header ≡ joined s.header md)
        × ((set_header join md s).trailer ≡ s.trailer)
  unfolding set_header
  set_header-parts md s = ground arith

  send_header-parts :
      (md : Header) (s : ServerTransportStream)
      → ((send_header join md s).header ≡ joined s.header md)
        × ((send_header join md s).trailer ≡ s.trailer)
  unfolding send_header
  send_header-parts md s = set_header-parts md s

  set_trailer-parts :
      (md : Header) (s : ServerTransportStream)
      → ((set_trailer join md s).header ≡ s.header)
        × ((set_trailer join md s).trailer ≡ joined s.trailer md)
  unfolding set_trailer
  set_trailer-parts md s = ground arith

  -- Behind any sequence of calls the header holds what the calls about the header have given, joined
  -- in their order with nothing left out but empty metadata, and the trailer likewise: the two kinds
  -- of calls do not touch each other, however they are interleaved.
  pub perform_all-logs :
      (cs : List Call) (s : ServerTransportStream)
      → ((perform_all cs s).header ≡ header_log s.header cs)
        × ((perform_all cs s).trailer ≡ trailer_log s.trailer cs)
  perform_all-logs [] s = (refl, refl)
  perform_all-logs (sets_header md ∷ cs) s =
      let (h, t) = perform_all-logs cs (set_header join md s) in
      let (p, q) = set_header-parts md s in
      (h ∙ ap (λ x. header_log x cs) p, t ∙ ap (λ x. trailer_log x cs) q)
  perform_all-logs (sends_header md ∷ cs) s =
      let (h, t) = perform_all-logs cs (send_header join md s) in
      let (p, q) = send_header-parts md s in
      (h ∙ ap (λ x. header_log x cs) p, t ∙ ap (λ x. trailer_log x cs) q)
  perform_all-logs (sets_trailer md ∷ cs) s =
      let (h, t) = perform_all-logs cs (set_trailer join md s) in
      let (p, q) = set_trailer-parts md s in
      (h ∙ ap (λ x. header_log x cs) p, t ∙ ap (λ x. trailer_log x cs) q)
