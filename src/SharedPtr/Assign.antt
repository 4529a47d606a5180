-- ===== src/SharedPtr/Assign.antt =====
-- Copy assignment of libipsm_mem/inc/offset_shared_ptr.hpp in its three parts, each of which locks at most
-- one control block: the temporary is constructed, swapped, and destroyed.
use procshared_mem.Base.{
  ℕ, ◌≡◌, ◌≢◌, refl, sym, ap, ◌∙◌, false, true, ◌==◌, Bool-cases, inl, inr, arith,
}
use procshared_mem.SharedPtr.{null_handle, copy_shared}
use procshared_mem.SharedPtr.Objects.{State}
use procshared_mem.SharedPtr.Shared

-- With no other step between them the three parts do what the assignment does as one step.
pub copy_assign-parts :
    (st : State) (this orig tmp : ℕ)
    → this ≢ orig
    → tmp ≢ this
    → (st.shared this).impl ≢ (st.shared orig).impl
    → st.shared tmp ≡ null_handle
    → let built = Shared.copy_construct st tmp orig in
      let parts = Shared.destroy (Shared.swap built tmp this) tmp in
      let whole = Shared.copy_assign st this orig in
      (parts.heap ≡ whole.heap) × ((b : ℕ) → parts.shared b ≡ whole.shared b)
unfolding Shared.copy_construct Shared.destroy Shared.swap Shared.copy_assign
copy_assign-parts st this orig tmp ne nt ni null =
    let r = copy_shared st.heap (st.shared orig) in
    let d : (this == orig) ≡ false = ground (arith, ne) in
    let e : (tmp == this) ≡ false = ground (arith, nt) in
    let e' : (this == tmp) ≡ false = ground (arith, nt) in
    let i : ((st.shared this).impl == (st.shared orig).impl) ≡ false = ground (arith, ni) in
    let own : (tmp == tmp) ≡ true = ground arith in
    (
      rw (d, e, e', i, own) (rw e refl),
      λ b. elim (Bool-cases (b == tmp)) [
        | inl f ↦
            let at : b ≡ tmp = ground (arith, f) in
            let g : (b == this) ≡ false = ground (arith, at, nt) in
            rw (d, e, e', i, own, f, g) (sym (ap st.shared at ∙ null))
        | inr f ↦ elim (Bool-cases (b == this)) [
          | inl g ↦ rw (d, e, e', i, own, f, g) refl
          | inr g ↦ rw (d, e, e', i, own, f, g) refl
        ]
      ],
    )
