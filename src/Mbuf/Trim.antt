-- ===== src/Mbuf/Trim.antt =====
-- mbuf_trim and mbuf_set_posend on a well-formed buffer.
use re.Base.{
  ℕ, ◌≤◌, ◌<◌, min, ◌≡◌, refl, sym, ap, ◌∙◌, ◌⊎◌, inl, inr, arith, Bool-cases, take, ◌==◌, ◌||◌,
}
use re.Platform.{Platform}
use re.Mbuf.{Mbuf, block, trim, set_posend}
use re.Mbuf.Valid.{IsValid, contents, Resized, ResizeResult, resize_lem}

-- The same bytes and position in a well-formed buffer whose block ends where the bytes do, or where
-- it did.
pub record Trimmed (mb mb' : Mbuf) : Type 0 where
  pub valid : IsValid mb'
  pub contents_eq : contents mb' ≡ contents mb
  pub pos_eq : mb'.pos ≡ mb.pos
  pub end_eq : mb'.end ≡ mb.end
  pub size_eq : (mb'.size ≡ mb.end) ⊎ (mb'.size ≡ mb.size)

untouched : (mb : Mbuf) → IsValid mb → Trimmed mb mb
untouched mb v = record {
  valid = v;
  contents_eq = refl;
  pos_eq = refl;
  end_eq = refl;
  size_eq = inr refl;
}

cut : (mb mb' : Mbuf) → IsValid mb → Resized mb mb.end mb' → Trimmed mb mb'
cut mb mb' v r =
    let e : min mb.size mb.end ≡ mb.end = omega (arith, v.end_le) in
    record {
      valid = record {
        block_length = r.length_eq ∙ sym r.size_eq;
        pos_le = omega (arith, r.pos_eq, r.end_eq, v.pos_le);
        end_le = omega (arith, r.size_eq, r.end_eq);
        small = omega (arith, r.size_eq, r.below);
      };
      contents_eq =
          ap (λ n. take n (block mb'.buf)) (r.end_eq ∙ sym e)
          ∙ r.keeps
          ∙ ap (λ n. take n (block mb.buf)) e;
      pos_eq = r.pos_eq;
      end_eq = r.end_eq;
      size_eq = inl r.size_eq;
    }

resized_cut : (mb : Mbuf) (r : ℕ × Mbuf) → IsValid mb → ResizeResult mb mb.end r → Trimmed mb r.1
resized_cut mb r v (inl (e, q)) = cut mb r.1 v q
resized_cut mb r v (inr (e, same)) = rw same (untouched mb v)

module _ (p : Platform) where
  -- On a well-formed buffer, mbuf_trim leaves a well-formed buffer with the same contents,
  -- position and end, whether or not the block could be resized; its size is the end or what it
  -- was.
  pub trim_lem : (mb : Mbuf) → IsValid mb → Trimmed mb (trim p mb)
  unfolding trim
  trim_lem mb v = elim (Bool-cases (mb.end == 0 || mb.end == mb.size)) [
    | inl full ↦ rw full (untouched mb v)
    | inr part ↦ rw part (resized_cut mb _ v (resize_lem p mb mb.end v.block_length))
  ]

-- On a well-formed buffer, mbuf_set_posend leaves a well-formed buffer, and either the position is
-- not past the end nor the end past the size and both are set, or one of these fails and nothing
-- changes.
pub set_posend_lem :
    (mb : Mbuf) (pos' end' : ℕ)
    → IsValid mb
    → IsValid (set_posend mb pos' end')
      × (((pos' ≤ end')
            × (end' ≤ mb.size)
            × ((set_posend mb pos' end').pos ≡ pos')
            × ((set_posend mb pos' end').end ≡ end'))
          ⊎ (((end' < pos') ⊎ (mb.size < end')) × (set_posend mb pos' end' ≡ mb)))
unfolding set_posend
set_posend_lem mb pos' end' v = ground (arith, v)
