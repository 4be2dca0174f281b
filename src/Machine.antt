-- ===== src/Machine.antt =====
-- A machine for the tests: its allocator always succeeds and clears the memory, and it is
-- big-endian.
use re.Base.{
  ℕ, zero, suc, min, ◌≡◌, ◌^◌, ◌<◌, get_or, refl, sym, ap, ◌∙◌, some, arith, [], ◌∷◌, length, take,
  replicate, Bytes, be_bytes, be_value, length-be_bytes, be_value-be_bytes, length-replicate,
}
use re.Platform.{Platform}

abbrev pub refit : Bytes → ℕ → Bytes
refit b zero = []
refit [] (suc n) = 0 ∷ refit [] n
refit (x ∷ b) (suc n) = x ∷ refit b n

pub length-refit : (b : Bytes) (n : ℕ) → length (refit b n) ≡ n
length-refit b zero = refl
length-refit [] (suc n) = ap suc (length-refit [] n)
length-refit (x ∷ b) (suc n) = ap suc (length-refit b n)

pub refit_keeps :
    (b : Bytes) (n : ℕ) → take (min (length b) n) (refit b n) ≡ take (min (length b) n) b
refit_keeps b zero = let e : min (length b) 0 ≡ 0 = omega arith in rw e
refit_keeps [] (suc n) = let e : min 0 (suc n) ≡ 0 = omega arith in rw e
refit_keeps (x ∷ b) (suc n) =
    let e : min (suc (length b)) (suc n) ≡ suc (min (length b) n) = omega arith in
    rw e (ap (◌∷◌ x) (refit_keeps b n))

pub some_inj : {b c : Bytes} → some b ≡ some c → b ≡ c
some_inj h = cc

pub be_bytes-byte : (w v i : ℕ) → get_or (be_bytes w v) i 0 < 2 ^ 8
be_bytes-byte zero v i = omega arith
be_bytes-byte (suc w) v zero = omega arith
be_bytes-byte (suc w) v (suc i) = be_bytes-byte w v i

abbrev pub machine : Platform
machine = record {
  malloc = λ n. some (replicate n 0);
  realloc = λ b n. some (refit b n);
  bytes_of = be_bytes;
  value_of = be_value;
  hton = λ w v. v;
  ntoh = λ w v. v;
  malloc_length = λ n b h. ap length (sym (some_inj h)) ∙ length-replicate n 0;
  realloc_length = λ b n c h. ap length (sym (some_inj h)) ∙ length-refit b n;
  realloc_keeps = λ b n c h. ap (take (min (length b) n)) (sym (some_inj h)) ∙ refit_keeps b n;
  length-bytes_of = length-be_bytes;
  bytes_of-byte = be_bytes-byte;
  value_of-bytes_of = be_value-be_bytes;
  bytes_of-hton = λ w v h. refl;
  ntoh-value_of = be_value-be_bytes;
}
