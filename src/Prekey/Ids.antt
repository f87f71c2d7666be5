-- ===== src/Prekey/Ids.antt =====
-- prekey_state.rs: identifiers that ascend, the high-water marks, and one-time keys that are taken.
use mathlib.Core.Option
use communication_platform.Base.{
  ℕ, zero, suc, ◌+◌, ◌≤◌, ◌<◌, ◌≡◌, ◌≢◌, ◌⊎◌, inl, inr, refl, Bool-cases, Bool, true, false, Option,
  none, some, List, [], ◌∷◌, ◌++◌, length, leb, ◌==◌, if◌then◌else◌, arith, ok, err,
  state_violation,
}
use communication_platform.Prekey.{
  OneTimeKey, RetiredSignedPair, key_id_max, u32_max, find_id, position_id, remove_at,
  retain_through, take_next_id,
}
use communication_platform.Prekey.Replenish.{insert_by_id, sort_by_id}

-- The identifiers of `xs` ascend, from `lo` on and below `hi`.
abbrev pub Ascends : {A : Type 0} → (A → ℕ) → ℕ → List A → ℕ → Type 0
Ascends id_of lo [] hi = lo ≤ hi
Ascends id_of lo (x ∷ xs) hi = (lo ≤ id_of x) × Ascends id_of (suc (id_of x)) xs hi

module _ {A : Type 0} (id_of : A → ℕ) where
  pub Ascends-snoc :
      (xs : List A) (lo hi hi' : ℕ) (x : A)
      → Ascends id_of lo xs hi
      → hi ≤ id_of x
      → id_of x < hi'
      → Ascends id_of lo (xs ++ (x ∷ [])) hi'
  Ascends-snoc [] lo hi hi' x h k l = (omega arith, omega arith)
  Ascends-snoc (y ∷ ys) lo hi hi' x h k l = (h.0, Ascends-snoc ys (suc (id_of y)) hi hi' x h.1 k l)

  pub Ascends-wider :
      (xs : List A) (lo lo' hi hi' : ℕ)
      → Ascends id_of lo xs hi
      → lo' ≤ lo
      → hi ≤ hi'
      → Ascends id_of lo' xs hi'
  Ascends-wider [] lo lo' hi hi' h k l = omega arith
  Ascends-wider (x ∷ xs) lo lo' hi hi' h k l =
      (omega arith, Ascends-wider xs (suc (id_of x)) (suc (id_of x)) hi hi' h.1 (omega arith) l)

  pub Ascends-le : (xs : List A) (lo hi : ℕ) → Ascends id_of lo xs hi → lo + length xs ≤ hi
  Ascends-le [] lo hi h = omega arith
  Ascends-le (x ∷ xs) lo hi h = omega (arith, Ascends-le xs (suc (id_of x)) hi h.1)

  -- No identifier below the first is found.
  pub find_id-below :
      (xs : List A) (lo hi id : ℕ) → Ascends id_of lo xs hi → id < lo → find_id id_of id xs ≡ none
  unfolding find_id
  find_id-below [] lo hi id h k = refl
  find_id-below (x ∷ xs) lo hi id h k =
      ground (arith, find_id-below xs (suc (id_of x)) hi id h.1 (omega arith))

  pub find_id-snoc :
      (xs : List A) (x : A) (id : ℕ)
      → id ≢ id_of x
      → find_id id_of id (xs ++ (x ∷ [])) ≡ find_id id_of id xs
  unfolding find_id
  find_id-snoc [] x id h = ground arith
  find_id-snoc (y ∷ ys) x id h = ground (arith, find_id-snoc ys x id h)

-- The first identifier that was never taken; past the last one, there is none.
abbrev pub mark : ℕ → ℕ
mark next = if leb next key_id_max then next else suc key_id_max

abbrev pub IsNext : ℕ → Type 0
IsNext next = (next ≤ key_id_max) ⊎ (next ≡ u32_max)

-- For a high-water mark that is an identifier or `u32::MAX`, an identifier is refused exactly when
-- all are taken, which leaves the mark; else it is the mark, at most the largest identifier, and the
-- mark moves on by one.
pub take_next_id-mark :
    (next : ℕ)
    → IsNext next
    → ((take_next_id next ≡ (err state_violation, next)) × (mark next ≡ suc key_id_max))
      ⊎ ((after : ℕ) × (take_next_id next ≡ (ok (mark next), after))
          × (mark next ≤ key_id_max)
          × (mark after ≡ suc (mark next))
          × IsNext after)
unfolding take_next_id
take_next_id-mark next (inl h) = elim (Bool-cases (next == key_id_max)) [
  | inl e ↦ inr (u32_max, ground arith, ground arith, ground arith, inr refl)
  | inr e ↦ inr (suc next, ground arith, ground arith, ground arith, inl (ground arith))
]
take_next_id-mark next (inr h) = inl (ground arith, ground arith)

pub remove_at-Ascends :
    (position : ℕ) (keys : List OneTimeKey) (lo hi : ℕ)
    → Ascends OneTimeKey.id lo keys hi
    → Ascends OneTimeKey.id lo (remove_at position keys) hi
unfolding remove_at
remove_at-Ascends position [] lo hi h = h
remove_at-Ascends zero (key ∷ keys) lo hi h =
    Ascends-wider OneTimeKey.id keys (suc key.id) lo hi hi h.1 (omega arith) (omega arith)
remove_at-Ascends (suc position) (key ∷ keys) lo hi h =
    (h.0, remove_at-Ascends position keys (suc key.id) hi h.1)

pub length-remove_at :
    (position : ℕ) (keys : List OneTimeKey) → length (remove_at position keys) ≤ length keys
unfolding remove_at
length-remove_at position [] = omega arith
length-remove_at zero (key ∷ keys) = omega arith
length-remove_at (suc position) (key ∷ keys) = omega (arith, length-remove_at position keys)

some_position :
    (q : Option ℕ) (position : ℕ)
    → Option.map suc q ≡ some position
    → (before : ℕ) × (q ≡ some before) × (position ≡ suc before)
some_position none position h = cc
some_position (some before) position h = (before, refl, cc)

-- A key that is found has a position, and after its removal only the others are found.
pub find_id-remove_at :
    (id : ℕ) (keys : List OneTimeKey) (lo hi position : ℕ)
    → Ascends OneTimeKey.id lo keys hi
    → position_id id keys ≡ some position
    → (find_id OneTimeKey.id id keys ≢ none)
      × ((other : ℕ)
          → find_id OneTimeKey.id other (remove_at position keys)
            ≡ (if other == id then none else find_id OneTimeKey.id other keys))
unfolding find_id position_id remove_at
find_id-remove_at id [] lo hi position h e = cc
find_id-remove_at id (key ∷ keys) lo hi position h e = elim (Bool-cases (key.id == id)) [
  | inl found ↦
      let first : position ≡ 0 = ground arith in
      (
        ground arith,
        λ other. rw first (
            ground (
              arith,
              λ (l : id < suc key.id). find_id-below OneTimeKey.id keys (suc key.id) hi id h.1 l,
            )),
      )
  | inr missed ↦
      let (before, e', s) = some_position (position_id id keys) position (rw missed at e) in
      let (there, others) = find_id-remove_at id keys (suc key.id) hi before h.1 e' in
      (ground (arith, there), λ other. rw s (ground (arith, others other)))
]

pub position_id-none :
    (id : ℕ) (keys : List OneTimeKey)
    → position_id id keys ≡ none
    → find_id OneTimeKey.id id keys ≡ none
unfolding find_id position_id
position_id-none id [] h = refl
position_id-none id (key ∷ keys) h = elim (Bool-cases (key.id == id)) [
  | inl found ↦ ground arith
  | inr missed ↦
      rw missed (position_id-none id keys (none_before (position_id id keys) (rw missed at h)))
]
  where
    none_before : (q : Option ℕ) → Option.map suc q ≡ none → q ≡ none
    none_before none h = refl
    none_before (some a) h = cc

insert_by_id-first :
    (key : OneTimeKey) (keys : List OneTimeKey) (hi : ℕ)
    → Ascends OneTimeKey.id (suc key.id) keys hi
    → insert_by_id key keys ≡ key ∷ keys
unfolding insert_by_id
insert_by_id-first key [] hi h = refl
insert_by_id-first key (other ∷ keys) hi h = ground arith

-- Keys that ascend are left as they are.
pub sort_by_id-Ascends :
    (keys : List OneTimeKey) (lo hi : ℕ) → Ascends OneTimeKey.id lo keys hi → sort_by_id keys ≡ keys
unfolding sort_by_id
sort_by_id-Ascends [] lo hi h = refl
sort_by_id-Ascends (key ∷ keys) lo hi h =
    rw (sort_by_id-Ascends keys (suc key.id) hi h.1) (insert_by_id-first key keys hi h.1)

module _ (id_of : RetiredSignedPair → ℕ) where
  pub retain_through-Ascends :
      (day : ℕ) (pairs : List RetiredSignedPair) (lo hi : ℕ)
      → Ascends id_of lo pairs hi
      → Ascends id_of lo (retain_through day pairs) hi
  unfolding retain_through
  retain_through-Ascends day [] lo hi h = h
  retain_through-Ascends day (pair ∷ pairs) lo hi h =
      elim (Bool-cases (leb day pair.retain_through_day)) [
        | inl keep ↦ rw keep (h.0, retain_through-Ascends day pairs (suc (id_of pair)) hi h.1)
        | inr drop ↦ rw drop (
            retain_through-Ascends day pairs lo hi (
              Ascends-wider id_of pairs (suc (id_of pair)) lo hi hi h.1 (omega arith)
                (omega arith)))
      ]

pub length-retain_through :
    (day : ℕ) (pairs : List RetiredSignedPair) → length (retain_through day pairs) ≤ length pairs
unfolding retain_through
length-retain_through day [] = omega arith
length-retain_through day (pair ∷ pairs) = ground (arith, length-retain_through day pairs)

-- The store `keys`, with its high-water mark, comes after the store `old`: no key of before the mark
-- is there that was not there, or that is another.
pub record History (from : ℕ) (old : List OneTimeKey) (next : ℕ) (keys : List OneTimeKey)
    : Type 0 where
  pub grown : mark from ≤ mark next
  pub kept :
      (id : ℕ)
      → id < mark from
      → (find_id OneTimeKey.id id keys ≡ none)
        ⊎ (find_id OneTimeKey.id id keys ≡ find_id OneTimeKey.id id old)

pub History-self : (from : ℕ) (old : List OneTimeKey) → History from old from old
History-self from old = record { grown = omega arith; kept = λ id l. inr refl }

module _ {from next : ℕ} {old keys : List OneTimeKey} (h : History from old next keys) where
  pub History-moved : (after : ℕ) → mark next ≤ mark after → History from old after keys
  History-moved after l = record { grown = omega (arith, h.grown); kept = h.kept }

  pub History-snoc :
      (key : OneTimeKey) → mark from ≤ key.id → History from old next (keys ++ (key ∷ []))
  History-snoc key l = record {
    grown = h.grown;
    kept = λ id k.
        rw (find_id-snoc OneTimeKey.id keys key id (λ e. absurd (omega (arith, e)))) (h.kept id k);
  }

  pub History-remove_at :
      (id lo hi position : ℕ)
      → Ascends OneTimeKey.id lo keys hi
      → position_id id keys ≡ some position
      → History from old next (remove_at position keys)
  History-remove_at id lo hi position a e = record {
    grown = h.grown;
    kept = λ other k.
        let gone = (find_id-remove_at id keys lo hi position a e).1 other in
        removed other gone (other == id) refl (h.kept other k);
  }
    where
      removed :
          (other : ℕ)
          → find_id OneTimeKey.id other (remove_at position keys)
            ≡ (if other == id then none else find_id OneTimeKey.id other keys)
          → (c : Bool) → (other == id) ≡ c
          → (find_id OneTimeKey.id other keys ≡ none)
            ⊎ (find_id OneTimeKey.id other keys ≡ find_id OneTimeKey.id other old)
          → (find_id OneTimeKey.id other (remove_at position keys) ≡ none)
            ⊎ (find_id OneTimeKey.id other (remove_at position keys)
                ≡ find_id OneTimeKey.id other old)
      removed other gone true t k = inl (rw (gone, t) refl)
      removed other gone false t k = rw (gone, t) k
