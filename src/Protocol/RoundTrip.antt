-- ===== src/Protocol/RoundTrip.antt =====
-- protocol.rs: a frame that is pushed is read back, whatever follows it.
use communication_platform.Base.{◌^◌, ◌≤◌, ◌≡◌, ◌++◌, [], length, length-append, arith, ok}
use communication_platform.Base.Bytes.{Bytes, to_be_bytes, length-to_be_bytes}
use communication_platform.Protocol.Framing.{max_input_bytes, framed, new_reader}
use communication_platform.Protocol.Reads.{frame, framed-Reads}
use communication_platform.Protocol.Writing.{push_frame, push_frame-Writes}

-- For a value within the input bound, `push_frame` appends a frame to any output, and a reader of
-- that frame, with up to 2^32 bytes after it, returns the value and stands after it.
pub framed-push_frame :
    (output value rest : Bytes)
    → length value ≤ max_input_bytes
    → length rest ≤ 2 ^ 32
    → (bytes : Bytes) × (push_frame value output ≡ ok (output ++ bytes))
      × (framed (new_reader (bytes ++ rest))
          ≡ ok (value, record { input = bytes ++ rest; position = length bytes }))
unfolding new_reader
framed-push_frame output value rest h l = (
  frame value,
  (push_frame-Writes value (omega arith)).writes output,
  (framed-Reads value h).reads [] rest (
      omega (
        arith,
        length-append (frame value) rest,
        length-append (to_be_bytes 4 (length value)) value,
        length-to_be_bytes 4 (length value),
      )),
)
