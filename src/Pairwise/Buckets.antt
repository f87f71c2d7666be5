-- ===== src/Pairwise/Buckets.antt =====
-- pairwise.rs: the sizes to which envelopes are padded.
use communication_platform.Base.{
  ℕ, ◌+◌, ◌≤◌, ◌<◌, ◌≡◌, ◌⊎◌, refl, inl, inr, Bool-cases, true, none, some, arith, ok, err, ltb,
  ok_or, ◌∙◌, subst, input_too_large, Option-cases,
}
use communication_platform.Protocol.Framing.{usize_end}
use communication_platform.Pairwise.{allowed_buckets}
use communication_platform.Pairwise.Reading.{contains_size}
use communication_platform.Pairwise.Writing.{first_bucket, choose_bucket}

-- The smallest allowed size that is at least `minimum`.
pub record IsBucket (minimum bucket : ℕ) : Type 0 where
  pub allowed : contains_size allowed_buckets bucket ≡ true
  pub holds_all : minimum ≤ bucket
  pub smallest :
      (other : ℕ) → contains_size allowed_buckets other ≡ true → minimum ≤ other → bucket ≤ other

found :
    (minimum bucket : ℕ)
    → first_bucket allowed_buckets minimum ≡ some bucket
    → IsBucket minimum bucket
unfolding first_bucket contains_size
found minimum bucket e = record {
  allowed = ground arith;
  holds_all = ground arith;
  smallest = λ other h k. ground arith;
}

not_found : (minimum : ℕ) → first_bucket allowed_buckets minimum ≡ none → 262144 < minimum
unfolding first_bucket
not_found minimum e = ground arith

-- The sum of the sizes, of a `usize` or more.
choose_bucket-fits :
    (header_len inner_len : ℕ)
    → 24 + header_len + inner_len < usize_end
    → choose_bucket header_len inner_len
      ≡ ok_or (first_bucket allowed_buckets (24 + header_len + inner_len)) input_too_large
unfolding choose_bucket
choose_bucket-fits header_len inner_len h =
    let sum : 4 + header_len + 20 + inner_len ≡ 24 + header_len + inner_len = omega arith in
    let first : ltb (4 + header_len) usize_end ≡ true = ground arith in
    let second : ltb (4 + header_len + 20) usize_end ≡ true = ground arith in
    let third : ltb (4 + header_len + 20 + inner_len) usize_end ≡ true = ground arith in
    rw (first, second, third, sum) refl

choose_bucket-overflows :
    (header_len inner_len : ℕ)
    → usize_end ≤ 24 + header_len + inner_len
    → choose_bucket header_len inner_len ≡ err input_too_large
unfolding choose_bucket
choose_bucket-overflows header_len inner_len h = ground arith

-- `choose_bucket` returns the smallest of the five sizes that holds the 24 bytes of framing, the
-- header and the message, and `InputTooLarge` exactly when they exceed 262,144 bytes.
pub choose_bucket-cases :
    (header_len inner_len : ℕ)
    → ((bucket : ℕ) × (choose_bucket header_len inner_len ≡ ok bucket)
        × IsBucket (24 + header_len + inner_len) bucket)
      ⊎ ((choose_bucket header_len inner_len ≡ err input_too_large)
          × (262144 < 24 + header_len + inner_len))
choose_bucket-cases header_len inner_len =
    elim (Bool-cases (ltb (24 + header_len + inner_len) usize_end)) [
      | inl fits ↦
          let e = choose_bucket-fits header_len inner_len (ground arith) in
          elim (Option-cases (first_bucket allowed_buckets (24 + header_len + inner_len))) [
            | inl none_found ↦
                inr (e ∙ rw none_found refl, not_found (24 + header_len + inner_len) none_found)
            | inr (bucket, some_found) ↦ inl (
              bucket,
              e ∙ rw some_found refl,
              found (24 + header_len + inner_len) bucket some_found,
            )
          ]
      | inr over ↦ inr (choose_bucket-overflows header_len inner_len (ground arith), ground arith)
    ]

pub choose_bucket-eq-ok :
    (header_len inner_len bucket : ℕ)
    → choose_bucket header_len inner_len ≡ ok bucket
    → IsBucket (24 + header_len + inner_len) bucket
choose_bucket-eq-ok header_len inner_len bucket e = each (choose_bucket-cases header_len inner_len)
  where
    each :
        (((other : ℕ) × (choose_bucket header_len inner_len ≡ ok other)
            × IsBucket (24 + header_len + inner_len) other)
          ⊎ ((choose_bucket header_len inner_len ≡ err input_too_large)
              × (262144 < 24 + header_len + inner_len)))
        → IsBucket (24 + header_len + inner_len) bucket
    each (inl (other, k, h)) =
        let same : other ≡ bucket = cc in subst (IsBucket (24 + header_len + inner_len)) same h
    each (inr (k, l)) = let impossible : err input_too_large ≡ ok bucket = cc in cc

pub bucket_small : (bucket : ℕ) → contains_size allowed_buckets bucket ≡ true → bucket < usize_end
unfolding contains_size
bucket_small bucket h = ground arith
