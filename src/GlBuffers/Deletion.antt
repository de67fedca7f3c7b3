-- ===== src/GlBuffers/Deletion.antt =====
-- gl_delete_buffers_soloader: a deleted buffer is unbound and its name is free again.
use zombie_shooter_ps_vita_p.Prelude.{
  ℕ, ◌≤◌, ◌<◌, ◌≡◌, ◌≢◌, refl, sym, ap, ◌∙◌, Bool, false, not, ◌&&◌, arith, ◌==◌, ltb, if_cases,
  if_both, Bool-cases, inl, inr,
}
use zombie_shooter_ps_vita_p.GlBuffers.{
  GlState, store, unbind_array, unbind_element, delete_vita, delete_one,
}
use zombie_shooter_ps_vita_p.GlBuffers.Names.{is_live, IsNames, same-IsNames, erase-IsNames}
use zombie_shooter_ps_vita_p.GlBuffers.Bindings.{
  bound_array, bound_element, IsBinding, IsNamed, erase-IsBinding,
}

-- The state within a deletion: `g` is out of the table and its buffer `v` still to be deleted.
record IsParted (g v : ℕ) (s : GlState) : Type 0 where
  low : 1 ≤ s.next_guest_buffer
  high : s.next_guest_buffer < 65536
  names : IsNames s.guest_buffers (λ (w : ℕ). not (w == v) && is_live s.calls w)
  unmade : is_live s.calls 0 ≡ false
  array :
      s.array_guest ≢ g → IsBinding s.guest_buffers s.array_guest s.array_vita (bound_array s.calls)
  element :
      s.element_guest ≢ g
      → IsBinding s.guest_buffers s.element_guest s.element_vita (bound_element s.calls)

unmade-IsNames : {names : ℕ → ℕ} {live : ℕ → Bool} → IsNames names live → live 0 ≡ false
unmade-IsNames {names} {live} n = elim (Bool-cases (live 0)) [
  | inl made ↦ let (g, at, real) = n.complete 0 made in absurd (real refl)
  | inr unmade ↦ unmade
]

erased-IsParted :
    (g : ℕ) (s : GlState)
    → IsNamed s
    → IsParted g (s.guest_buffers g) (record s { guest_buffers = store g 0 s.guest_buffers })
erased-IsParted g s h = record {
  low = h.low;
  high = h.high;
  names = erase-IsNames h.names g 0 (λ w. refl);
  unmade = unmade-IsNames h.names;
  array = λ k. erase-IsBinding g 0 k h.array;
  element = λ k. erase-IsBinding g 0 k h.element;
}

module _ (g v : ℕ) (s : GlState) (ne : g ≢ 0) where
  unbind_array-IsParted : IsParted g v s → IsParted g v (unbind_array g s)
  unfolding unbind_array is_live bound_array bound_element
  unbind_array-IsParted h =
      if_both (IsParted g v) (s.array_guest == g)
        record {
          low = h.low;
          high = h.high;
          names = h.names;
          unmade = h.unmade;
          array = λ _. record {
            known = sym (h.names.null);
            named = λ k. absurd (k refl);
            agrees = refl;
          };
          element = h.element;
        }
        h

  unbind_element-IsParted : IsParted g v s → IsParted g v (unbind_element g s)
  unfolding unbind_element is_live bound_array bound_element
  unbind_element-IsParted h =
      if_both (IsParted g v) (s.element_guest == g)
        record {
          low = h.low;
          high = h.high;
          names = h.names;
          unmade = h.unmade;
          array = h.array;
          element = λ _. record {
            known = sym (h.names.null);
            named = λ k. absurd (k refl);
            agrees = refl;
          };
        }
        h

  array_unbound : (unbind_element g (unbind_array g s)).array_guest ≢ g
  unfolding unbind_element unbind_array
  array_unbound = ground arith

  element_unbound : (unbind_element g (unbind_array g s)).element_guest ≢ g
  unfolding unbind_element unbind_array
  element_unbound = ground arith

live_without_none :
    (w v : ℕ) (live : ℕ → Bool) → live 0 ≡ false → v ≡ 0 → live w ≡ (not (w == v) && live w)
live_without_none w v live none z = elim (Bool-cases (w == v)) [
  | inl same ↦ (ap live (ground arith) ∙ none) ∙ sym (rw same refl)
  | inr other ↦ rw other refl
]

delete_vita-IsNamed :
    (g v : ℕ) (s : GlState)
    → IsParted g v s
    → s.array_guest ≢ g
    → s.element_guest ≢ g
    → IsNamed (delete_vita v s)
unfolding is_live bound_array bound_element
delete_vita-IsNamed g v s h a e =
    if_cases IsNamed (v == 0)
      (λ z. record {
        low = h.low;
        high = h.high;
        names =
            same-IsNames h.names
              (λ w. live_without_none w v (is_live s.calls) h.unmade (ground arith));
        array = h.array a;
        element = h.element e;
      })
      (λ _. record {
        low = h.low;
        high = h.high;
        names = h.names;
        array = h.array a;
        element = h.element e;
      })

pub delete_one-IsNamed : (g : ℕ) (s : GlState) → IsNamed s → IsNamed (delete_one g s)
unfolding delete_one
delete_one-IsNamed g s h =
    if_cases IsNamed (not (g == 0) && ltb g 65536)
      (λ k.
        let ne : g ≢ 0 = λ z. ground arith in
        let s1 : GlState = record s { guest_buffers = store g 0 s.guest_buffers } in
        let v = s.guest_buffers g in
        let parted =
          unbind_element-IsParted g v (unbind_array g s1) ne
            (unbind_array-IsParted g v s1 ne (erased-IsParted g s h)) in
        delete_vita-IsNamed g v (unbind_element g (unbind_array g s1)) parted
          (array_unbound g v s1 ne) (element_unbound g v s1 ne))
      (λ _. h)
