-- ===== src/Fmt/Text.antt =====
-- Searching and trimming of src/fmt/pl.c. A `struct pl` is its address, 0 for NULL, and its bytes; a
-- pointer into it is an address. `isspace` and `memcmp` are those of the C locale.
pub mod Trim
pub mod Search
use re.Base.{
  ℕ, zero, suc, ◌+◌, ◌-◌, Bool, true, false, not, ◌&&◌, ◌||◌, if◌then◌else◌, ◌==◌, leb, ltb, List,
  [], ◌∷◌, length, take, drop, get_or, slice, Bytes,
}
use re.Mbuf.Text.{Pl}

abbrev pub is_space : ℕ → Bool
is_space c = c == 32 || (leb 9 c && leb c 13)

abbrev pub same_bytes : Bytes → Bytes → Bool
same_bytes [] [] = true
same_bytes [] (y ∷ ys) = false
same_bytes (x ∷ xs) [] = false
same_bytes (x ∷ xs) (y ∷ ys) = x == y && same_bytes xs ys

abbrev pub pl_isset : Pl → Bool
pl_isset pl = not (pl.p == 0) && not (length pl.text == 0)

pub pl_advance : Pl → ℕ → Pl
pl_advance pl n = record { p = pl.p + n; text = drop n pl.text }

-- The loop of pl_ltrim: the number of characters passed over.
pub ltrim_loop : Bytes → ℕ
ltrim_loop [] = 0
ltrim_loop (c ∷ s) = let rest = ltrim_loop s in if is_space c then suc rest else 0

pub pl_ltrim : Pl → Pl
unfolding ltrim_loop pl_advance
pl_ltrim pl =
    if not (pl_isset pl)
    then pl
    else (let i = ltrim_loop pl.text in
        if i == length pl.text then record pl { text = [] } else pl_advance pl i)

-- The loop of pl_rtrim: the length that is left.
pub rtrim_loop : Bytes → ℕ → ℕ
rtrim_loop s zero = zero
rtrim_loop s (suc l) = let rest = rtrim_loop s l in if is_space (get_or s l 0) then rest else suc l

pub pl_rtrim : Pl → Pl
unfolding rtrim_loop
pl_rtrim pl =
    if not (pl_isset pl)
    then pl
    else record pl { text = take (rtrim_loop pl.text (length pl.text)) pl.text }

pub pl_trim : Pl → Pl
unfolding pl_ltrim pl_rtrim
pl_trim pl = pl_rtrim (pl_ltrim pl)

-- The loop of pl_strstr from offset `i` on, where `s` is left.
pub strstr_loop : Bytes → ℕ → Bytes → ℕ
strstr_loop str at [] = 0
strstr_loop str at (c ∷ s) =
    let rest = strstr_loop str (at + 1) s in
    if ltb (length (c ∷ s)) (length str)
    then 0
    else if same_bytes (take (length str) (c ∷ s)) str
    then at
    else rest

pub pl_strstr : Pl → Bytes → ℕ
unfolding strstr_loop
pl_strstr pl str =
    if not (pl_isset pl) || ltb (length pl.text) (length str)
    then 0
    else if length str == 0
    then pl.p
    else strstr_loop str pl.p pl.text

-- The loop of pl_strchr from the address `at` on.
pub strchr_loop : ℕ → ℕ → Bytes → ℕ
strchr_loop c at [] = 0
strchr_loop c at (x ∷ s) = let rest = strchr_loop c (at + 1) s in if x == c then at else rest

pub pl_strchr : Pl → ℕ → ℕ
unfolding strchr_loop
pl_strchr pl c = strchr_loop c pl.p pl.text
