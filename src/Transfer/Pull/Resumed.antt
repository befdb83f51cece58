-- ===== src/Transfer/Pull/Resumed.antt =====
-- crates/zyris-capkit/src/transfer/peer.rs: what pull streams from an offset on.
use zyris_protocol.Prelude.{
  ℕ, zero, suc, ◌+◌, ◌-◌, ◌≤◌, min, ◌≡◌, sym, ap, ◌∙◌, none, some, List, [], ◌∷◌, ◌++◌, map, arith,
  ltb, Bytes, Text, text_eq_refl, length, take, drop, take-append-drop, drop-drop, drop_same,
  drop_all, if-cases,
}
use zyris_protocol.Core.Blobs.Hydrated.{joined}
use zyris_protocol.Transfer.Pull.{
  chunk_size, held_bytes, ToSend, offer_bytes, find_transfer, slices, streaming, stream_of, serve,
  pull,
}

-- The chunks together are what lies behind the offset.
joined-slices :
    (fuel at : ℕ) (bytes : Bytes)
    → length bytes ≤ at + fuel
    → joined (slices fuel at bytes) ≡ drop at bytes
unfolding slices joined
joined-slices zero at bytes h = sym (drop_all at bytes (omega (arith, h)))
joined-slices (suc fuel) at bytes h =
    if-cases (λ l. joined l ≡ drop at bytes) (ltb at (length bytes))
      (λ more. joined_more (joined-slices fuel (at + chunk_size) bytes (omega (arith, h))))
      (λ over. sym (drop_all at bytes (ground arith)))
  where
    joined_more :
        joined (slices fuel (at + chunk_size) bytes) ≡ drop (at + chunk_size) bytes
        → take (min (at + chunk_size) (length bytes) - at) (drop at bytes)
            ++ joined (slices fuel (at + chunk_size) bytes)
          ≡ drop at bytes
    joined_more ih =
        ap (λ t. take (min (at + chunk_size) (length bytes) - at) (drop at bytes) ++ t)
          (ih
            ∙ drop_same (at + chunk_size) (at + (min (at + chunk_size) (length bytes) - at)) bytes
                (omega arith)
            ∙ sym (drop-drop (min (at + chunk_size) (length bytes) - at) at bytes))
        ∙ take-append-drop (min (at + chunk_size) (length bytes) - at) (drop at bytes)

find_transfer-append :
    (pending : List ToSend) (t : ToSend)
    → find_transfer pending t.transfer_id ≡ none
    → find_transfer (pending ++ (t ∷ [])) t.transfer_id ≡ some t
unfolding find_transfer
find_transfer-append [] t h = rw (text_eq_refl t.transfer_id)
find_transfer-append (p ∷ pending) t h = ground (arith, find_transfer-append pending t)

-- Bytes that were offered under a new identifier are streamed from any offset on, under the head that
-- was offered.
pub pull-offer_bytes :
    (pending : List ToSend) (id : Text) (bytes : Bytes) (sha256 : Text) (offset : ℕ)
    → find_transfer pending id ≡ none
    → (chunks : List Bytes) × (pull (offer_bytes pending id bytes sha256) id offset
        ≡ streaming (record { size = length bytes; sha256 = sha256 }) (map (λ b. some b) chunks))
      × (joined chunks ≡ drop offset bytes)
unfolding pull serve stream_of offer_bytes
pull-offer_bytes pending id bytes sha256 offset new = (
  slices (length bytes) (min offset (length bytes)) bytes,
  ap (serve offset) (
      find_transfer-append pending
        (record {
          transfer_id = id;
          source = held_bytes bytes;
          size = length bytes;
          sha256 = sha256;
        })
        new),
  joined-slices (length bytes) (min offset (length bytes)) bytes (omega arith)
      ∙ drop_same (min offset (length bytes)) offset bytes (omega arith),
)
