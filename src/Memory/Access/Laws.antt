-- ===== src/Memory/Access/Laws.antt =====
-- What a response has in common with its request.
use gwr.Base.{◌+◌, ◌≡◌, ok, arith}
use gwr.Memory.Access.{
  read_request, write_non_posted_request, MemoryAccess, total_bytes, to_response, destination,
}

-- A response goes back to the device that asked, for the same bytes at the same address and under
-- the same id; a read is charged for its data on the way back, a write on the way out.
pub to_response_route :
    (a r : MemoryAccess)
    → to_response a ≡ ok r
    → (destination r ≡ a.src_device)
      × (r.src_device ≡ destination a)
      × (r.dst_addr ≡ a.dst_addr)
      × (r.id ≡ a.id)
      × ((a.access_type ≡ read_request → total_bytes r ≡ total_bytes a + a.access_size_bytes)
          × (a.access_type ≡ write_non_posted_request
              → total_bytes a ≡ total_bytes r + a.access_size_bytes))
unfolding to_response destination total_bytes
to_response_route a r e = ground arith
