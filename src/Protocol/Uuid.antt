-- ===== src/Protocol/Uuid.antt =====
-- packages/adapter-protocol/src/uuid.js: the UUIDv7 generator, on the clock's milliseconds and the
-- ten random bytes that it reads.
pub mod Stable
use Prim.Native.Char.{Char}
use Prim.Native.String
use publish.Prelude.{ℕ, zero, suc, ◌+◌, ◌/◌, ◌%◌, ◌^◌, ◌-◌, String, List, [], ◌∷◌, ◌++◌, take, drop}
use publish.Json.Print.{digit}

-- `random.readUInt8(i)`; there are ten bytes.
unfoldable pub byte_at : List ℕ → ℕ → ℕ
byte_at [] i = 0
byte_at (b ∷ bs) zero = b
byte_at (b ∷ bs) (suc i) = byte_at bs i

-- `0x70 | (b & 0x0f)`
unfoldable pub version_byte : ℕ → ℕ
version_byte b = 0x70 + b % 16

-- `0x80 | (b & 0x3f)`
unfoldable pub variant_byte : ℕ → ℕ
variant_byte b = 0x80 + b % 64

unfoldable pub uuid_bytes : ℕ → List ℕ → List ℕ
uuid_bytes timestamp_ms random =
    (timestamp_ms / 1099511627776) % 256
    ∷ (timestamp_ms / 4294967296) % 256
    ∷ (timestamp_ms / 16777216) % 256
    ∷ (timestamp_ms / 65536) % 256
    ∷ (timestamp_ms / 256) % 256
    ∷ timestamp_ms % 256
    ∷ version_byte (byte_at random 0)
    ∷ byte_at random 1
    ∷ variant_byte (byte_at random 2)
    ∷ byte_at random 3
    ∷ byte_at random 4
    ∷ byte_at random 5
    ∷ byte_at random 6
    ∷ byte_at random 7
    ∷ byte_at random 8
    ∷ byte_at random 9
    ∷ []

-- `byte.toString(16).padStart(2, '0')` of every byte, joined.
unfoldable pub hex_of : List ℕ → List Char
hex_of [] = []
hex_of (b ∷ bs) = digit (b / 16) ∷ digit (b % 16) ∷ hex_of bs

-- `hex.slice(from, to)`, then what follows it in the joined text.
unfoldable pub write : List Char → String → String
write [] rest = rest
write (c ∷ cs) rest = String.◌∷◌ c (write cs rest)

unfoldable pub slice : ℕ → ℕ → List Char → List Char
slice from to hex = take (to - from) (drop from hex)

unfoldable pub join_groups : List Char → String
join_groups hex = write (slice 0 8 hex) (
    String.◌∷◌ "-" (
      write (slice 8 12 hex) (
        String.◌∷◌ "-" (
          write (slice 12 16 hex) (
            String.◌∷◌ "-"
              (write (slice 16 20 hex) (String.◌∷◌ "-" (write (slice 20 32 hex) ""))))))))

unfoldable pub generate_uuid_v7 : ℕ → List ℕ → String
generate_uuid_v7 timestamp_ms random = join_groups (hex_of (uuid_bytes timestamp_ms random))
