-- ===== src/Flags.antt =====
-- `getFlag` and `setFlag` of include/async/pool.h and io/file.h: flags in a `uint8_t`.
use asyncxx.Base.{
  ℕ, zero, suc, ◌-◌, ◌<◌, ◌^◌, ◌≡◌, refl, Bool, true, false, ◌&&◌, not, if◌then◌else◌, ◌==◌, ltb,
  arith,
}
use Prim.Native.Nat.{bit_and, bit_or}

unfoldable pub get_flag : ℕ → ℕ → Bool
get_flag mask flags = ltb 0 (bit_and flags mask)

-- `~mask`, cut to the byte that is stored.
unfoldable pub set_flag : ℕ → Bool → ℕ → ℕ
set_flag mask state flags = if state then bit_or flags mask else bit_and flags (255 - mask)

-- Whether a test passes at each number below a bound.
unfoldable passes : (ℕ → Bool) → ℕ → Bool
passes test zero = true
passes test (suc left) = if test left then passes test left else false

passes-at : (test : ℕ → Bool) (left k : ℕ) → k < left → passes test left ≡ true → test k ≡ true
unfolding passes
passes-at test zero k lt all = elim lt [ ]
passes-at test (suc left) k lt all = ground (arith, all, passes-at test left k)

abbrev same : Bool → Bool → Bool
same true b = b
same false b = not b

same_eq : (a b : Bool) → same a b ≡ true → a ≡ b
same_eq true b h = ground arith
same_eq false b h = ground arith

-- The law of one pair of flags and one byte, as a test.
unfoldable set_flag_test : Bool → ℕ → ℕ → ℕ → Bool
unfolding get_flag set_flag
set_flag_test state i j flags =
    ltb (set_flag (2 ^ i) state flags) 256
    && same (get_flag (2 ^ j) (set_flag (2 ^ i) state flags))
        (if i == j then state else get_flag (2 ^ j) flags)

set_flag_table :
    (state : Bool) → passes (λ i. passes (λ j. passes (set_flag_test state i j) 256) 3) 3 ≡ true
unfolding passes set_flag_test
set_flag_table true = refl
set_flag_table false = refl

-- Setting one of the three flags of a byte sets that one and no other, and gives a byte.
pub set_flag_lem :
    (state : Bool) (i j flags : ℕ)
    → i < 3
    → j < 3
    → flags < 256
    → (set_flag (2 ^ i) state flags < 256)
      × (get_flag (2 ^ j) (set_flag (2 ^ i) state flags)
          ≡ (if i == j then state else get_flag (2 ^ j) flags))
unfolding set_flag_test
set_flag_lem state i j flags hi hj h =
    let rows : ℕ → Bool = λ k. passes (λ m. passes (set_flag_test state k m) 256) 3 in
    let at_i = passes-at rows 3 i hi (set_flag_table state) in
    let at_j = passes-at (λ m. passes (set_flag_test state i m) 256) 3 j hj at_i in
    let holds = passes-at (set_flag_test state i j) 256 flags h at_j in
    let a = get_flag (2 ^ j) (set_flag (2 ^ i) state flags) in
    let b = if i == j then state else get_flag (2 ^ j) flags in ground (arith, holds, same_eq a b)
