-- ===== src/Dns/Dname.antt =====
-- dns_dname_decode of src/dns/dname.c. The string that `*name` is set to is `none` where it is left
-- as it was or set to NULL.
pub mod Bound
pub mod Names
pub mod Decode
pub mod View
pub mod Sound
use re.Base.{
  ℕ, zero, suc, ◌+◌, ◌-◌, ◌%◌, ◌^◌, Bool, true, false, if◌then◌else◌, not, ◌==◌, ltb, bit_and,
  Option, none, some, List, [], ◌∷◌, ◌++◌, length, take, slice, get_or, replicate, Bytes, ℤ, einval,
  enomem,
}
use re.Platform.{Platform}
use re.Mbuf.{Mbuf, block, get_left, add_size, add_signed, mem_alloc}
use re.Mbuf.Words.{read_u16}

abbrev pub comp_mask : ℕ
comp_mask = 0xc0

abbrev pub offset_mask : ℕ
offset_mask = 0x3fff

abbrev pub comp_loop : ℕ
comp_loop = 255

abbrev pub buf_size : ℕ
buf_size = 256

-- The bytes of a C string before its NUL.
abbrev pub c_string : Bytes → Bytes
c_string [] = []
c_string (b ∷ bs) = if b == 0 then [] else b ∷ c_string bs

-- str_ncpy(dst, src, n) for n > 0, with the zeros that strncpy pads with.
pub str_ncpy : Bytes → ℕ → Bytes
str_ncpy src n = let t = take (n - 1) (c_string src) in t ++ replicate (n - length t) 0

-- The variables of the loop; `buf` has the `i` bytes written so far.
pub record Walk : Type 0 where
  pub mb : Mbuf
  pub buf : Bytes
  pub loopc : ℕ
  pub comp : Bool
  pub pos : ℕ

abbrev pub Result : Type 0
Result = ℕ × Option Bytes × Mbuf

pub data Round : Type 0 where
  done : Result → Round
  again : Walk → Round

abbrev pub begin : Mbuf → Walk
begin mb = record { mb = mb; buf = []; loopc = 0; comp = false; pos = 0 }

-- A separator unless the label is the first, and the label.
pub copy_label : Walk → Mbuf → ℕ → Walk
copy_label w m len =
    let sep = if ltb 0 (length w.buf) then b'.' ∷ [] else [] in
    record w {
      mb = record m { pos = add_size m.pos len };
      buf = (w.buf ++ sep) ++ slice m.pos len (block m.buf);
    }

module _ (p : Platform) (start : ℕ) where
  -- The branch of the NUL that ends a name.
  pub finish : Walk → Mbuf → Result
  finish w m =
      let m1 = if w.comp then record m { pos = w.pos } else m in
      let buf1 = w.buf ++ (0 ∷ []) in
      elim (mem_alloc p (length buf1)) [
        | none ↦ (enomem, none, m1)
        | some _ ↦ (0, some (str_ncpy buf1 (length buf1)), m1)
      ]

  -- The branch of a compression pointer, the first byte of which is behind the position.
  pub jump : Walk → Mbuf → Round
  jump w m =
      if ltb comp_loop w.loopc
      then Round.done (einval, none, m)
      else (let m1 = record m { pos = add_signed m.pos (ℤ.negsuc 0) } in
          if ltb (get_left m1) 2
          then Round.done (einval, none, m1)
          else (let (v, m2) = read_u16 p m1 in
              let offset = bit_and (p.ntoh 2 v) offset_mask in
              Round.again (record w {
                mb = record m2 { pos = add_size offset start };
                loopc = w.loopc + 1;
                comp = true;
                pos = if w.comp then w.pos else m2.pos;
              })))

  -- One round of the loop; `len` is a `uint8_t`.
  pub round : Walk → Round
  unfolding copy_label finish jump
  round w =
      if not (ltb w.mb.pos w.mb.end)
      then Round.done (einval, none, w.mb)
      else (let len = get_or (block w.mb.buf) w.mb.pos 0 % 2 ^ 8 in
          let m = record w.mb { pos = add_size w.mb.pos 1 } in
          if len == 0
          then Round.done (finish w m)
          else if bit_and len comp_mask == comp_mask
          then jump w m
          else if ltb (get_left m) len
          then Round.done (einval, none, m)
          else if ltb buf_size ((len + length w.buf + 2) % 2 ^ 32)
          then Round.done (einval, none, m)
          else Round.again (copy_label w m len))

  -- `none` means that the fuel ran out.
  pub walk : ℕ → Walk → Option Result
  unfolding round
  walk zero w = none
  walk (suc fuel) w = elim (round w) [ Round.done r ↦ some r | Round.again w' ↦ walk fuel w' ]

  pub dname_decode : Mbuf → Option Result
  unfolding walk
  dname_decode mb = walk 512 (begin mb)
