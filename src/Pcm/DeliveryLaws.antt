-- ===== src/Pcm/DeliveryLaws.antt =====
-- What the delivery policy guarantees.
use modern_sapi_adapter.Base.{ℕ, ◌-◌, ◌^◌, ◌≤◌, min, ◌<◌, ◌≡◌, true, arith}
use modern_sapi_adapter.Request.{RequestContext, DownstreamState}
use modern_sapi_adapter.Pcm.Delivery.{evaluate_chunk_ingest}

-- No decision frames more bytes than were read.
pub bytes_to_frame-le :
    (c : RequestContext) (bytes_read : ℕ)
    → (evaluate_chunk_ingest c bytes_read).bytes_to_frame ≤ bytes_read
unfolding evaluate_chunk_ingest
bytes_to_frame-le c bytes_read = ground arith

-- While the request speaks and the provider has declared its total, a read is framed up to that
-- total and no further: the bytes framed are the smaller of the bytes read and the bytes that the
-- total leaves.
pub bytes_to_frame_exact :
    (c : RequestContext) (bytes_read : ℕ)
    → c.downstream_state ≡ DownstreamState.speaking
    → c.upstream_finished ≡ true
    → bytes_read < 2 ^ 32
    → c.upstream_terminal_bytes < 2 ^ 64
    → (evaluate_chunk_ingest c bytes_read).bytes_to_frame
      ≡ min bytes_read (c.upstream_terminal_bytes - c.raw_audio_bytes_read)
unfolding evaluate_chunk_ingest
bytes_to_frame_exact c bytes_read s f h k = ground arith
