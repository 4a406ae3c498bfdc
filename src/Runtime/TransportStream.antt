-- ===== src/Runtime/TransportStream.antt =====
-- runtime/context.go: `ServerTransportStream`, which collects the metadata that a service sends. Each
-- method runs with the mutex held, so calls from several goroutines are a sequence of steps.
pub mod Log
use grpc_gateway.Prelude.{List, [], ◌∷◌, ◌==◌, length, if◌then◌else◌}
use grpc_gateway.Runtime.Http.{Header}

pub record ServerTransportStream : Type 0 where
  pub header : Header
  pub trailer : Header

-- `join` is `metadata.Join` of google.golang.org/grpc.
module _ (join : Header → Header → Header) where
  -- `SetHeader`
  unfoldable pub set_header : Header → ServerTransportStream → ServerTransportStream
  set_header md s = if length md == 0 then s else record s { header = join s.header md }

  -- `SendHeader`
  unfoldable pub send_header : Header → ServerTransportStream → ServerTransportStream
  unfolding set_header
  send_header md s = set_header md s

  -- `SetTrailer`
  unfoldable pub set_trailer : Header → ServerTransportStream → ServerTransportStream
  set_trailer md s = if length md == 0 then s else record s { trailer = join s.trailer md }
