-- ===== src/Memory/Access.antt =====
-- gwr-engine/src/types.rs (`AccessType`), gwr-models/src/memory/traits.rs (`AccessMemory`) and
-- gwr-models/src/memory/memory_access.rs (`MemoryAccess`). Creation and tracking of ids is left out:
-- an id and the creating entity are numbers.
pub mod Laws
use gwr.Base.{ℕ, ◌+◌, Outcome, ok, error, panic, unsupported_access}

pub data AccessType : Type 0 where
  read_request write_request write_non_posted_request : AccessType
  read_response write_non_posted_response control : AccessType

pub data CacheHintType : Type 0 where
  allocate no_allocate : CacheHintType

-- What the memory components ask of an access. `to_response` takes a memory that it does not use.
pub record AccessMemory {ℓ} (T : Type ℓ) : Type ℓ where
  pub dst_addr : T → ℕ
  pub access_type : T → AccessType
  pub access_size_bytes : T → ℕ
  pub total_bytes : T → ℕ
  pub to_response : T → Outcome T

pub record MemoryAccess : Type 0 where
  pub created_by : ℕ
  pub id : ℕ
  pub access_type : AccessType
  pub access_size_bytes : ℕ
  pub dst_addr : ℕ
  pub src_addr : ℕ
  pub dst_device : ℕ
  pub src_device : ℕ
  pub cache_hint : CacheHintType
  pub overhead_size_bytes : ℕ

-- The bytes on the wire: an access without data has only its overhead.
total_bytes_of : AccessType → ℕ → ℕ → ℕ
total_bytes_of control size overhead = overhead
total_bytes_of read_request size overhead = overhead
total_bytes_of write_non_posted_response size overhead = overhead
total_bytes_of write_request size overhead = size + overhead
total_bytes_of write_non_posted_request size overhead = size + overhead
total_bytes_of read_response size overhead = size + overhead

unfoldable pub total_bytes : MemoryAccess → ℕ
unfolding total_bytes_of
total_bytes a = total_bytes_of a.access_type a.access_size_bytes a.overhead_size_bytes

response_type : AccessType → Outcome AccessType
response_type control = ok control
response_type read_request = ok read_response
response_type write_non_posted_request = ok write_non_posted_response
response_type read_response = error unsupported_access
response_type write_non_posted_response = error unsupported_access
response_type write_request = error unsupported_access

with_type : MemoryAccess → Outcome AccessType → Outcome MemoryAccess
with_type a (ok t) =
    ok (record a { access_type = t; dst_device = a.src_device; src_device = a.dst_device })
with_type a (error e) = error e
with_type a panic = panic

unfoldable pub to_response : MemoryAccess → Outcome MemoryAccess
unfolding response_type with_type
to_response a = with_type a (response_type a.access_type)

-- `Routable::destination`: the device is what routing goes by.
pub destination : MemoryAccess → ℕ
destination a = a.dst_device

instance abbrev pub access_memory : AccessMemory MemoryAccess
access_memory = record {
  dst_addr = λ a. a.dst_addr;
  access_type = λ a. a.access_type;
  access_size_bytes = λ a. a.access_size_bytes;
  total_bytes = total_bytes;
  to_response = to_response;
}
