-- ===== src/Mbuf/Alloc.antt =====
-- What mbuf_alloc gives, and the space that is left.
use re.Base.{
  ℕ, ◌<◌, ◌^◌, ◌≡◌, ◌≢◌, inl, inr, refl, ◌∙◌, ◌≤◌, ◌-◌, arith, false, ◌==◌, if◌then◌else◌, Option,
  none, some, length, Bytes,
}
use re.Platform.{Platform}
use re.Mbuf.{Mbuf, block, alloc, allocated, init, get_space}
use re.Mbuf.Valid.{ResizeResult, resize_lem}

pub record Allocated (n : ℕ) (buf : Mbuf) : Type 0 where
  pub size_eq : buf.size ≡ n
  pub length_eq : length (block buf.buf) ≡ n
  pub pos_eq : buf.pos ≡ 0
  pub end_eq : buf.end ≡ 0
  pub small : n < 2 ^ 32

some_result :
    (n : ℕ) (mb buf : Mbuf) (r : ℕ × Mbuf)
    → mb.pos ≡ 0
    → mb.end ≡ 0
    → ResizeResult mb n r
    → (if r.0 == 0 then some r.1 else none) ≡ some buf
    → Allocated n buf
some_result n mb buf r hp he (inl (e, s)) h =
    let h' : some r.1 ≡ some buf = rw e at h in
    let same : r.1 ≡ buf = cc in
    rw⁻¹ same (record {
      size_eq = s.size_eq;
      length_eq = s.length_eq;
      pos_eq = s.pos_eq ∙ hp;
      end_eq = s.end_eq ∙ he;
      small = s.below;
    })
some_result n mb buf r hp he (inr (e, same)) h = let h' : none ≡ some buf = rw e at h in absurd cc

allocated_lem :
    (p : Platform) (n : ℕ) (o : Option Bytes) (buf : Mbuf)
    → n ≢ 0
    → allocated p n o ≡ some buf
    → Allocated n buf
unfolding allocated init
allocated_lem p n none buf ne h = absurd cc
allocated_lem p n (some b) buf ne h =
    let nz : (n == 0) ≡ false = ground arith in
    some_result n init buf _ refl refl (resize_lem p init n refl) (rw nz at h)

pub alloc_lem : (p : Platform) (n : ℕ) (buf : Mbuf) → n ≢ 0 → alloc p n ≡ some buf → Allocated n buf
unfolding alloc
alloc_lem p n buf ne h = allocated_lem p n _ buf ne h

allocated-zero :
    (p : Platform) (o : Option Bytes) (buf : Mbuf) → allocated p 0 o ≡ some buf → Allocated 512 buf
unfolding allocated init
allocated-zero p none buf h = absurd cc
allocated-zero p (some b) buf h =
    some_result 512 init buf _ refl refl (resize_lem p init 512 refl) h

-- A buffer of no bytes is given the default size.
pub alloc-zero : (p : Platform) (buf : Mbuf) → alloc p 0 ≡ some buf → Allocated 512 buf
unfolding alloc
alloc-zero p buf h = allocated-zero p _ buf h

pub get_space_lem : (mb : Mbuf) → mb.pos ≤ mb.size → get_space mb ≡ mb.size - mb.pos
unfolding get_space
get_space_lem mb h = ground arith
