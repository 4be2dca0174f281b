-- ===== src/Fmt/Number.antt =====
-- The numbers of src/fmt/pl.c, from pl_i32 to pl_x64. The text of a `struct pl` is a list of bytes,
-- `none` where `p` is NULL. An `int32_t` or `int64_t` is the unsigned number of the same bits.
pub mod Horner
pub mod Unsigned
pub mod Signed
use re.Base.{
  ℕ, ◌+◌, ◌-◌, ◌*◌, ◌%◌, ◌^◌, Bool, true, false, not, ◌&&◌, if◌then◌else◌, ◌==◌, leb, ltb, Option,
  none, some, List, [], ◌∷◌, Bytes,
}
use mathlib.Core.List.{reverse}

-- `const uint8_t c = *--p - '0'; if (c > 9)`
abbrev pub dec_digit : ℕ → Option ℕ
dec_digit ch = let c = (ch + 2 ^ 8 - 48) % 2 ^ 8 in if ltb 9 c then none else some c

abbrev pub hex_digit : ℕ → Option ℕ
hex_digit ch =
    if leb 48 ch && leb ch 57
    then some (ch - 48)
    else if leb 65 ch && leb ch 70
    then some (ch - 65 + 10)
    else if leb 97 ch && leb ch 102
    then some (ch - 97 + 10)
    else none

module _ (digit : ℕ → Option ℕ) (base w : ℕ) where
  -- The loop from the last character to the first, on numbers of `w` bits.
  pub number_loop : Bytes → ℕ → ℕ → ℕ
  number_loop [] v mul = v
  number_loop (ch ∷ cs) v mul = elim (digit ch) [
    | none ↦ 0
    | some c ↦ number_loop cs ((v + mul * c) % 2 ^ w) (mul * base % 2 ^ w)
  ]

  pub unsigned : Option Bytes → ℕ
  unfolding number_loop
  unsigned none = 0
  unsigned (some s) = number_loop (reverse s) 0 1

pub pl_u32 : Option Bytes → ℕ
unfolding unsigned
pl_u32 = unsigned dec_digit 10 32

pub pl_x32 : Option Bytes → ℕ
unfolding unsigned
pl_x32 = unsigned hex_digit 16 32

pub pl_u64 : Option Bytes → ℕ
unfolding unsigned
pl_u64 = unsigned dec_digit 10 64

pub pl_x64 : Option Bytes → ℕ
unfolding unsigned
pl_x64 = unsigned hex_digit 16 64

-- The digits of pl_i32 and pl_i64.
abbrev pub decimal : ℕ → Option ℕ
decimal ch = if leb 48 ch && leb ch 57 then some (ch - 48) else none

-- Whether the loop is at the first character.
abbrev pub is_first : Bytes → Bool
is_first [] = true
is_first (ch ∷ cs) = false

module _ (w : ℕ) where
  -- `v - x` on `w` bits.
  abbrev pub minus : ℕ → ℕ → ℕ
  minus v x = (v + 2 ^ w - x % 2 ^ w) % 2 ^ w

  -- The part behind the loop.
  pub with_sign : Bool → ℕ → ℕ
  with_sign neg v =
      if not neg && v == 2 ^ (w - 1) then 2 ^ (w - 1) else if neg then v else minus 0 v

  -- The loop from the last character to the first.
  pub signed_loop : Bytes → ℕ → ℕ → ℕ
  unfolding with_sign
  signed_loop [] v mul = with_sign false v
  signed_loop (ch ∷ cs) v mul = elim (decimal ch) [
    | some c ↦ signed_loop cs (minus v (mul * c)) (mul * 10 % 2 ^ w)
    | none ↦
        if ch == b'-' && is_first cs
        then with_sign true v
        else if ch == b'+' && is_first cs
        then with_sign false v
        else 0
  ]

  pub signed_number : Option Bytes → ℕ
  unfolding signed_loop
  signed_number none = 0
  signed_number (some s) = signed_loop (reverse s) 0 1

pub pl_i32 : Option Bytes → ℕ
unfolding signed_number
pl_i32 = signed_number 32

pub pl_i64 : Option Bytes → ℕ
unfolding signed_number
pl_i64 = signed_number 64
