-- ===== src/Fmt/Tests.antt =====
-- Numbers in text, and texts.
use re.Base.{◌≢◌, arith, ◌≡◌, some, [], ◌∷◌, ◌-◌, ◌^◌, Bytes}
use re.Fmt.Number.{pl_i32, pl_i64, pl_u32, pl_x32, pl_u64, pl_x64}
use re.Mbuf.Text.{Pl}
use re.Fmt.Text.{pl_trim, pl_strstr}
use re.Fmt.Text.Trim.{Trimmed, pl_trim_lem}
use re.Fmt.Text.Search.{Searched, pl_strstr_lem}
use re.Fmt.Number.Unsigned.{unsigned_numbers}
use re.Fmt.Number.Signed.{signed_numbers}

abbrev forty_two : Bytes
forty_two = b'4' ∷ b'2' ∷ []

unsigned_numbers_example :
    (pl_u32 (some forty_two) ≡ 42)
    × (pl_x32 (some forty_two) ≡ 0x42)
    × (pl_u64 (some forty_two) ≡ 42)
    × (pl_x64 (some forty_two) ≡ 0x42)
unsigned_numbers_example = unsigned_numbers (some forty_two) (omega arith)

signed_numbers_example :
    (pl_i32 (some (b'-' ∷ forty_two)) ≡ 2 ^ 32 - 42)
    × (pl_i64 (some (b'-' ∷ forty_two)) ≡ 2 ^ 64 - 42)
signed_numbers_example = signed_numbers (some (b'-' ∷ forty_two))

abbrev padded : Pl
padded = record { p = 100; text = b' ' ∷ b'4' ∷ b'2' ∷ b' ' ∷ [] }

padded_set : padded.p ≢ 0
padded_set = omega arith

pl_trim_lem_example : Trimmed padded.text (pl_trim padded).text
pl_trim_lem_example = pl_trim_lem padded padded_set

pl_strstr_lem_example : Searched (b'2' ∷ []) padded.text 100 (pl_strstr padded (b'2' ∷ []))
pl_strstr_lem_example = pl_strstr_lem padded (b'2' ∷ []) padded_set (omega arith)
