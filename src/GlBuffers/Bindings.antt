-- ===== src/GlBuffers/Bindings.antt =====
-- The guest names and the bindings against VitaGL: every function keeps them in step.
use zombie_shooter_ps_vita_p.Prelude.{
  ℕ, ◌+◌, ◌≤◌, ◌<◌, ◌≡◌, ◌≢◌, refl, sym, ap, ◌∙◌, subst, true, false, List, [], ◌∷◌, arith, ◌==◌,
  leb, if_cases, u32, Bool-cases, inl, inr,
}
use zombie_shooter_ps_vita_p.GlBuffers.{
  Target, array_buffer, element_array_buffer, other_target, GlCall, forward_gen, forward_delete,
  gen_buffer, delete_buffer, bind_buffer, draw_elements, GlState, store, call, settle_reserved,
  gen_one, install_implicit, bind_vita, bind_implicit, gl_bind_buffer_soloader,
}
use zombie_shooter_ps_vita_p.GlBuffers.Names.{
  is_live, IsNames, store_self, same-IsNames, store-IsNames,
}
use zombie_shooter_ps_vita_p.GlBuffers.Reserve.{
  Reserved, full, taken, reserve_guest_buffer-Reserved,
}

-- What VitaGL has bound to the two targets, after its calls.
unfoldable pub bound_array : List GlCall → ℕ
bound_array [] = 0
bound_array (forward_gen ∷ cs) = bound_array cs
bound_array (forward_delete ∷ cs) = bound_array cs
bound_array (gen_buffer w ∷ cs) = bound_array cs
bound_array (delete_buffer w ∷ cs) = bound_array cs
bound_array (bind_buffer array_buffer v ∷ cs) = v
bound_array (bind_buffer element_array_buffer v ∷ cs) = bound_array cs
bound_array (bind_buffer (other_target t) v ∷ cs) = bound_array cs
bound_array (draw_elements ∷ cs) = bound_array cs

unfoldable pub bound_element : List GlCall → ℕ
bound_element [] = 0
bound_element (forward_gen ∷ cs) = bound_element cs
bound_element (forward_delete ∷ cs) = bound_element cs
bound_element (gen_buffer w ∷ cs) = bound_element cs
bound_element (delete_buffer w ∷ cs) = bound_element cs
bound_element (bind_buffer array_buffer v ∷ cs) = bound_element cs
bound_element (bind_buffer element_array_buffer v ∷ cs) = v
bound_element (bind_buffer (other_target t) v ∷ cs) = bound_element cs
bound_element (draw_elements ∷ cs) = bound_element cs

-- The bound guest name, its VitaGL name and what VitaGL has bound agree.
pub record IsBinding (names : ℕ → ℕ) (guest vita bound : ℕ) : Type 0 where
  pub known : vita ≡ names guest
  pub named : guest ≢ 0 → vita ≢ 0
  pub agrees : bound ≡ vita

pub record IsNamed (s : GlState) : Type 0 where
  pub low : 1 ≤ s.next_guest_buffer
  pub high : s.next_guest_buffer < 65536
  pub names : IsNames s.guest_buffers (is_live s.calls)
  pub array : IsBinding s.guest_buffers s.array_guest s.array_vita (bound_array s.calls)
  pub element : IsBinding s.guest_buffers s.element_guest s.element_vita (bound_element s.calls)

store-IsBinding :
    {names : ℕ → ℕ} {guest vita bound : ℕ} (g v : ℕ)
    → g ≢ 0
    → names g ≡ 0
    → IsBinding names guest vita bound
    → IsBinding (store g v names) guest vita bound
unfolding store
store-IsBinding g v ne free b = record {
  known = ground (arith, b.known, b.named);
  named = b.named;
  agrees = b.agrees;
}

pub erase-IsBinding :
    {names : ℕ → ℕ} {guest vita bound : ℕ} (g v : ℕ)
    → guest ≢ g
    → IsBinding names guest vita bound
    → IsBinding (store g v names) guest vita bound
unfolding store
erase-IsBinding g v ne b = record {
  known = ground (arith, b.known);
  named = b.named;
  agrees = b.agrees;
}

-- The library calls that end a creation without a name leave nothing behind.
undone :
    (v : ℕ) (s : GlState) (h : is_live s.calls v ≡ false) (w : ℕ)
    → is_live (delete_buffer v ∷ gen_buffer v ∷ s.calls) w ≡ is_live s.calls w
unfolding is_live
undone v s h w = elim (Bool-cases (w == v)) [
  | inl same ↦ let this : w ≡ v = ground arith in rw (same, this, h) refl
  | inr other ↦ rw other refl
]

module _ {s : GlState} (v : ℕ) (h : IsNamed s) (fresh : is_live s.calls v ≡ false)
    (real : v ≢ 0) where
  made-IsNamed :
      (g n : ℕ)
      → g ≢ 0
      → g < 65536
      → s.guest_buffers g ≡ 0
      → 1 ≤ n
      → n < 65536
      → IsNamed (record s {
        guest_buffers = store g v s.guest_buffers;
        next_guest_buffer = n;
        calls = gen_buffer v ∷ s.calls;
      })
  unfolding is_live bound_array bound_element
  made-IsNamed g n ne small free low high = record {
    low = low;
    high = high;
    names = store-IsNames h.names g v ne small free real fresh (λ w. refl);
    array = store-IsBinding g v ne free h.array;
    element = store-IsBinding g v ne free h.element;
  }

  undone-IsNamed :
      (n : ℕ)
      → 1 ≤ n
      → n < 65536
      → IsNamed
          (record s { next_guest_buffer = n; calls = delete_buffer v ∷ gen_buffer v ∷ s.calls })
  unfolding bound_array bound_element
  undone-IsNamed n low high = record {
    low = low;
    high = high;
    names = same-IsNames h.names (undone v s fresh);
    array = h.array;
    element = h.element;
  }

  settled-IsNamed :
      (r : GlState × ℕ) → Reserved v (call (gen_buffer v) s) r → IsNamed (settle_reserved v r).0
  settled-IsNamed _ (full n low high) = undone-IsNamed n low high
  settled-IsNamed _ (taken g n ne small free low high) =
      if_cases (λ (t : GlState × ℕ). IsNamed t.0) (g == 0) (λ k. absurd (ne (ground arith)))
        (λ _. made-IsNamed g n ne small free low high)

pub gen_one-IsNamed :
    (v : ℕ) (s : GlState) → IsNamed s → is_live s.calls v ≡ false → IsNamed (gen_one v s).0
unfolding gen_one
gen_one-IsNamed v s h fresh =
    if_cases (λ (t : GlState × ℕ). IsNamed t.0) (v == 0) (λ _. h)
      (λ k.
        settled-IsNamed v h fresh (λ t. ground arith) _
          (reserve_guest_buffer-Reserved v (call (gen_buffer v) s) h.low h.high))

-- A binding to a name of the table, or to none.
pub bind_vita-IsNamed :
    (t : Target) (b : ℕ) (s : GlState)
    → IsNamed s
    → (b ≢ 0 → s.guest_buffers b ≢ 0)
    → IsNamed (bind_vita t b (s.guest_buffers b) s)
unfolding bind_vita is_live bound_array bound_element
bind_vita-IsNamed array_buffer b s h k = record {
  low = h.low;
  high = h.high;
  names = h.names;
  array = record { known = refl; named = k; agrees = refl };
  element = h.element;
}
bind_vita-IsNamed element_array_buffer b s h k = record {
  low = h.low;
  high = h.high;
  names = h.names;
  array = h.array;
  element = record { known = refl; named = k; agrees = refl };
}
bind_vita-IsNamed (other_target t) b s h k = record {
  low = h.low;
  high = h.high;
  names = h.names;
  array = h.array;
  element = h.element;
}

implicit-IsNamed :
    (t : Target) (b v : ℕ) (s : GlState)
    → IsNamed s
    → is_live s.calls v ≡ false
    → b ≢ 0
    → b < 65536
    → s.guest_buffers b ≡ 0
    → v ≢ 0
    → IsNamed (
        bind_vita t b v
          (record s { guest_buffers = store b v s.guest_buffers; calls = gen_buffer v ∷ s.calls }))
implicit-IsNamed t b v s h fresh ne small free real =
    let s' : GlState = record s {
      guest_buffers = store b v s.guest_buffers;
      calls = gen_buffer v ∷ s.calls;
    } in
    subst (λ (w : ℕ). IsNamed (bind_vita t b w s')) (store_self b v s.guest_buffers)
      (bind_vita-IsNamed t b s'
        (made-IsNamed v h fresh real b s.next_guest_buffer ne small free h.low h.high)
        (λ _ k. real (sym (store_self b v s.guest_buffers) ∙ k)))

bind_implicit-IsNamed :
    (t : Target) (b v : ℕ) (s : GlState)
    → IsNamed s
    → is_live s.calls v ≡ false
    → b ≢ 0
    → b < 65536
    → (s.guest_buffers b == 0) ≡ true
    → IsNamed (bind_implicit t b v s)
unfolding bind_implicit install_implicit
bind_implicit-IsNamed t b v s h fresh ne small free =
    if_cases IsNamed (v == 0) (λ _. h)
      (λ k. rw free (implicit-IsNamed t b v s h fresh ne small (ground arith) (λ z. ground arith)))

-- A counter plays no part in the invariant.
counted-IsNamed : (n : ℕ) (s : GlState) → IsNamed s → IsNamed (record s { binds = n })
counted-IsNamed n s h = record {
  low = h.low;
  high = h.high;
  names = h.names;
  array = h.array;
  element = h.element;
}

pub gl_bind_buffer_soloader-IsNamed :
    (t : Target) (b v : ℕ) (s : GlState)
    → IsNamed s
    → is_live s.calls v ≡ false
    → IsNamed (gl_bind_buffer_soloader t b v s)
unfolding gl_bind_buffer_soloader
gl_bind_buffer_soloader-IsNamed t b v s h fresh =
    let n = u32 (s.binds + 1) in
    let s' : GlState = record s { binds = n } in
    let h' = counted-IsNamed n s h in
    if_cases IsNamed (b == 0)
      (λ z.
        let none : s.guest_buffers b ≡ 0 = ap s.guest_buffers (ground arith) ∙ h.names.null in
        subst (λ (w : ℕ). IsNamed (bind_vita t b w s')) none
          (bind_vita-IsNamed t b s' h' (λ k. ground arith)))
      (λ nz.
        if_cases IsNamed (leb 65536 b) (λ _. h')
          (λ small.
            if_cases IsNamed (s.guest_buffers b == 0)
              (λ free.
                bind_implicit-IsNamed t b v s' h' fresh (λ k. ground arith) (ground arith) free)
              (λ used. bind_vita-IsNamed t b s' h' (λ _ k. ground arith))))
