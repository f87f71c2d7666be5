-- ===== src/Protocol/Tests.antt =====
-- protocol.rs: a small frame.
use communication_platform.Base.{◌≡◌, ◌++◌, [], ◌∷◌, length, arith, ok}
use communication_platform.Base.Bytes.{Bytes}
use communication_platform.Protocol.Framing.{framed, new_reader}
use communication_platform.Protocol.Writing.{push_frame}
use communication_platform.Protocol.RoundTrip.{framed-push_frame}

framed-push_frame_example :
    (bytes : Bytes) × (push_frame (7 ∷ (8 ∷ [])) (1 ∷ []) ≡ ok ((1 ∷ []) ++ bytes))
    × (framed (new_reader (bytes ++ (9 ∷ [])))
        ≡ ok (7 ∷ (8 ∷ []), record { input = bytes ++ (9 ∷ []); position = length bytes }))
framed-push_frame_example =
    framed-push_frame (1 ∷ []) (7 ∷ (8 ∷ [])) (9 ∷ []) (omega arith) (omega arith)
