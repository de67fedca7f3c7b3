-- ===== src/GlBuffers/Methods.antt =====
-- Any sequence of calls of the game: what VitaGL has bound is what the game last bound, and never a
-- deleted buffer.
use mathlib.Core.Bool.{false≢true}
use zombie_shooter_ps_vita_p.Prelude.{
  ℕ, ◌<◌, ◌≡◌, ◌≢◌, ◌⊎◌, refl, sym, ◌∙◌, subst, true, false, Option, none, some, List, [], ◌∷◌,
  arith, ◌==◌, if_both, Bool-cases, inl, inr,
}
use zombie_shooter_ps_vita_p.GlBuffers.{
  Target, array_buffer, element_array_buffer, GlState, gen_one, gen_names, gl_gen_buffers_soloader,
  gl_bind_buffer_soloader, delete_one, delete_names, bind_vita, bind_implicit, install_implicit,
  gl_delete_buffers_soloader, gl_draw_elements_soloader, gl_get_integerv_soloader,
}
use zombie_shooter_ps_vita_p.GlBuffers.Names.{is_live}
use zombie_shooter_ps_vita_p.GlBuffers.Bindings.{
  bound_array, bound_element, IsBinding, IsNamed, gen_one-IsNamed, gl_bind_buffer_soloader-IsNamed,
}
use zombie_shooter_ps_vita_p.GlBuffers.Deletion.{delete_one-IsNamed}

-- Each name that VitaGL answers with is not that of a live buffer; 0 is a refusal.
pub data IsAnswered : List ℕ → GlState → Type 0 where
  end : {s : GlState} → IsAnswered [] s
  answer :
      (v : ℕ) (vs : List ℕ) (s : GlState)
      → is_live s.calls v ≡ false
      → IsAnswered vs (gen_one v s).0
      → IsAnswered (v ∷ vs) s

pub data Step (s : GlState) : GlState → Type 0 where
  gen : (vs : List ℕ) → IsAnswered vs s → Step s (gl_gen_buffers_soloader (some vs) s).0
  gen_nothing : Step s (gl_gen_buffers_soloader none s).0
  bind :
      (t : Target) (b v : ℕ) → is_live s.calls v ≡ false → Step s (gl_bind_buffer_soloader t b v s)
  delete : (names : Option (List ℕ)) → Step s (gl_delete_buffers_soloader names s)
  draw : Step s (gl_draw_elements_soloader s)

pub data Reaches (s : GlState) : GlState → Type 0 where
  here : Reaches s s
  andthen : {t u : GlState} → Reaches s t → Step t u → Reaches s u

gen_names-IsNamed :
    (vs : List ℕ) (s : GlState) → IsNamed s → IsAnswered vs s → IsNamed (gen_names vs s).0
unfolding gen_names
gen_names-IsNamed [] s h end = h
gen_names-IsNamed (v ∷ vs) s h (answer _ _ _ fresh more) =
    gen_names-IsNamed vs (gen_one v s).0 (gen_one-IsNamed v s h fresh) more

delete_names-IsNamed : (gs : List ℕ) (s : GlState) → IsNamed s → IsNamed (delete_names gs s)
unfolding delete_names
delete_names-IsNamed [] s h = h
delete_names-IsNamed (g ∷ gs) s h =
    delete_names-IsNamed gs (delete_one g s) (delete_one-IsNamed g s h)

-- Every call of the game keeps the guest names one to one with the live buffers of VitaGL, and the
-- bindings in step, if VitaGL never answers with the name of a live buffer.
pub Step-IsNamed : {s t : GlState} → IsNamed s → Step s t → IsNamed t
unfolding gl_gen_buffers_soloader gl_delete_buffers_soloader gl_draw_elements_soloader is_live
    bound_array bound_element
Step-IsNamed {s} h (gen vs a) = gen_names-IsNamed vs s h a
Step-IsNamed h gen_nothing = record {
  low = h.low;
  high = h.high;
  names = h.names;
  array = h.array;
  element = h.element;
}
Step-IsNamed {s} h (bind t b v fresh) = gl_bind_buffer_soloader-IsNamed t b v s h fresh
Step-IsNamed h (delete none) = record {
  low = h.low;
  high = h.high;
  names = h.names;
  array = h.array;
  element = h.element;
}
Step-IsNamed {s} h (delete (some gs)) = delete_names-IsNamed gs s h
Step-IsNamed h draw =
    if_both IsNamed _
      record { low = h.low; high = h.high; names = h.names; array = h.array; element = h.element }
      record { low = h.low; high = h.high; names = h.names; array = h.array; element = h.element }

pub Reaches-IsNamed : {s t : GlState} → IsNamed s → Reaches s t → IsNamed t
Reaches-IsNamed h here = h
Reaches-IsNamed h (andthen r s) = Step-IsNamed (Reaches-IsNamed h r) s

-- The state before the first call.
abbrev pub first_state : GlState
first_state = record {
  guest_buffers = λ g. 0;
  next_guest_buffer = 1;
  array_guest = 0;
  array_vita = 0;
  element_guest = 0;
  element_vita = 0;
  binds = 0;
  draws = 0;
  rejected = 0;
  calls = [];
}

pub first_state-IsNamed : IsNamed first_state
unfolding is_live bound_array bound_element
first_state-IsNamed = record {
  low = omega arith;
  high = omega arith;
  names = record {
    null = refl;
    small = λ g k. absurd (k refl);
    distinct = λ g h k e. absurd (k refl);
    sound = λ g k. absurd (k refl);
    complete = λ v k. absurd (false≢true k);
  };
  array = record { known = refl; named = λ k. absurd (k refl); agrees = refl };
  element = record { known = refl; named = λ k. absurd (k refl); agrees = refl };
}

binding_live :
    {s : GlState} (guest vita bound : ℕ)
    → IsNamed s
    → IsBinding s.guest_buffers guest vita bound
    → (bound ≡ 0) ⊎ (is_live s.calls bound ≡ true)
binding_live {s} guest vita bound h b = elim (Bool-cases (bound == 0)) [
  | inl zero_bound ↦ inl (ground arith)
  | inr bound_some ↦
      let at : bound ≡ s.guest_buffers guest = b.agrees ∙ b.known in
      inr (
        subst (λ (v : ℕ). is_live s.calls v ≡ true) (sym at)
          (h.names.sound guest (λ k. ground (arith, at))))
]

-- After any calls of the game from the start on, whatever is bound in VitaGL to the array target and
-- to the element target is no buffer or a live one: never one that was deleted.
pub Reaches-live :
    {s : GlState}
    → Reaches first_state s
    → ((bound_array s.calls ≡ 0) ⊎ (is_live s.calls (bound_array s.calls) ≡ true))
      × ((bound_element s.calls ≡ 0) ⊎ (is_live s.calls (bound_element s.calls) ≡ true))
Reaches-live {s} r =
    let h = Reaches-IsNamed first_state-IsNamed r in
    (
      binding_live s.array_guest s.array_vita (bound_array s.calls) h h.array,
      binding_live s.element_guest s.element_vita (bound_element s.calls) h h.element,
    )

-- After any calls of the game from the start on, each live buffer of VitaGL has exactly one guest
-- name, which fits in 16 bits.
pub Reaches-unique :
    {s : GlState}
    → Reaches first_state s
    → (v : ℕ) → is_live s.calls v ≡ true
    → (g : ℕ) × (s.guest_buffers g ≡ v) × (g < 65536) × ((h : ℕ) → s.guest_buffers h ≡ v → h ≡ g)
Reaches-unique {s} r v k =
    let h = Reaches-IsNamed first_state-IsNamed r in
    let (g, at, real) = h.names.complete v k in
    (
      g,
      at,
      h.names.small g (λ z. real (sym at ∙ z)),
      λ i e. h.names.distinct i g (λ z. real (sym e ∙ z)) (e ∙ sym at),
    )

-- After any calls of the game from the start on, the binding that glGetIntegerv reports to the game
-- is the guest name of the buffer that VitaGL has bound, for both targets.
pub gl_get_integerv_soloader-bound :
    {s : GlState}
    → Reaches first_state s
    → (q : ℕ)
    → (s.guest_buffers (gl_get_integerv_soloader array_buffer q s) ≡ bound_array s.calls)
      × (s.guest_buffers (gl_get_integerv_soloader element_array_buffer q s)
          ≡ bound_element s.calls)
unfolding gl_get_integerv_soloader
gl_get_integerv_soloader-bound r q =
    let h = Reaches-IsNamed first_state-IsNamed r in
    (sym (h.array.agrees ∙ h.array.known), sym (h.element.agrees ∙ h.element.known))

-- What the game binds to the array target or to the element target, it is told to be bound
-- there: a name below 65536, if VitaGL makes a buffer where one is needed.
pub gl_get_integerv_soloader-gl_bind_buffer_soloader :
    (b v q : ℕ) (s : GlState)
    → b < 65536
    → v ≢ 0
    → (gl_get_integerv_soloader array_buffer q (gl_bind_buffer_soloader array_buffer b v s) ≡ b)
      × (gl_get_integerv_soloader element_array_buffer q
            (gl_bind_buffer_soloader element_array_buffer b v s)
          ≡ b)
unfolding gl_get_integerv_soloader gl_bind_buffer_soloader bind_implicit install_implicit bind_vita
gl_get_integerv_soloader-gl_bind_buffer_soloader b v q s small real = (ground arith, ground arith)
