-- ===== src/Group/Domains.antt =====
-- group_control.rs and room_control.rs: the bytes that are signed and hashed never coincide.
use communication_platform.Base.{
  ℕ, zero, suc, ◌≤◌, ◌≡◌, ◌≢◌, sym, ◌∙◌, ap, [], ◌∷◌, length, arith, ok,
}
use communication_platform.Base.Bytes.{Bytes, to_be_bytes}
use communication_platform.Room.{max_room_control_bytes}
use communication_platform.Room.Sealing.{
  with_domain, signature_domain as room_signature, state_hash_domain as room_state_hash,
}
use communication_platform.Room.SealingLaws.{in_domain, with_domain_eq}
use communication_platform.Group.Sealing.{signature_domain, state_hash_domain}

nth : ℕ → Bytes → ℕ
nth i [] = 0
nth zero (x ∷ xs) = x
nth (suc i) (x ∷ xs) = nth i xs

apart :
    (d e a b : Bytes)
    → length a ≤ max_room_control_bytes
    → length b ≤ max_room_control_bytes
    → in_domain d a ≢ in_domain e b
    → with_domain d a ≢ with_domain e b
apart d e a b h k n same = n (
    ok_injective (sym (with_domain_eq d a (omega arith)) ∙ same ∙ with_domain_eq e b (omega arith)))
  where
    ok_injective : {x y : Bytes} → ok x ≡ ok y → x ≡ y
    ok_injective e = cc

-- For bytes within the bound on an event, none of the messages that rooms and groups sign and hash
-- is another one's: not of the other kind of event, and not a signed one a hashed one.
pub with_domain-apart :
    (a b : Bytes)
    → length a ≤ max_room_control_bytes
    → length b ≤ max_room_control_bytes
    → (with_domain room_signature a ≢ with_domain signature_domain b)
      × (with_domain room_state_hash a ≢ with_domain state_hash_domain b)
      × (with_domain room_signature a ≢ with_domain state_hash_domain b)
      × (with_domain room_state_hash a ≢ with_domain signature_domain b)
      × (with_domain room_signature a ≢ with_domain room_state_hash b)
      × (with_domain signature_domain a ≢ with_domain state_hash_domain b)
unfolding nth to_be_bytes
with_domain-apart a b h k = (
  apart _ _ a b h k (λ e. omega (arith, ap (nth 8) e)),
  apart _ _ a b h k (λ e. omega (arith, ap (nth 8) e)),
  apart _ _ a b h k (λ e. omega (arith, ap (nth 8) e)),
  apart _ _ a b h k (λ e. omega (arith, ap (nth 8) e)),
  apart _ _ a b h k (λ e. omega (arith, h, ap (nth 20) e)),
  apart _ _ a b h k (λ e. omega (arith, h, ap (nth 21) e)),
)
