-- ===== src/GlBuffers.antt =====
-- utils/gl_buffers.inc: the compact names of graphics buffers that the game sees, in front of the
-- names of VitaGL. Each function is one step. VitaGL is a log of the calls made to it, newest
-- first, and the names that its glGenBuffers returns are arguments.
pub mod Names
pub mod Reserve
pub mod Bindings
pub mod Deletion
pub mod Methods
mod Tests
use zombie_shooter_ps_vita_p.Prelude.{
  ℕ, zero, suc, ◌+◌, ◌^◌, Bool, true, false, not, ◌&&◌, ◌||◌, Option, none, some, List, [], ◌∷◌,
  ltb, leb, ◌==◌, if◌then◌else◌, u32,
}

pub data Target : Type 0 where
  array_buffer : Target
  element_array_buffer : Target
  other_target : ℕ → Target

-- `forward_gen` and `forward_delete` are the calls without names, which VitaGL gets as they are.
pub data GlCall : Type 0 where
  forward_gen : GlCall
  forward_delete : GlCall
  gen_buffer : ℕ → GlCall
  delete_buffer : ℕ → GlCall
  bind_buffer : Target → ℕ → GlCall
  draw_elements : GlCall

abbrev pub guest_buffer_count : ℕ
guest_buffer_count = 65536

-- `guest_buffers` has the VitaGL name of each guest name, 0 where there is none.
pub record GlState : Type 0 where
  pub guest_buffers : ℕ → ℕ
  pub next_guest_buffer : ℕ
  pub array_guest : ℕ
  pub array_vita : ℕ
  pub element_guest : ℕ
  pub element_vita : ℕ
  pub binds : ℕ
  pub draws : ℕ
  pub rejected : ℕ
  pub calls : List GlCall

abbrev pub call : GlCall → GlState → GlState
call c s = record s { calls = c ∷ s.calls }

unfoldable pub store : ℕ → ℕ → (ℕ → ℕ) → ℕ → ℕ
store g v names h = if g == h then v else names h

-- `next_guest_buffer` after the candidate `c`.
abbrev pub next_candidate : ℕ → ℕ
next_candidate c = if c + 1 == guest_buffer_count then 1 else c + 1

-- The loop of reserve_guest_buffer, with the rounds that are left.
unfoldable pub reserve_from : ℕ → ℕ → GlState → GlState × ℕ
reserve_from zero v s = (s, 0)
reserve_from (suc rounds) v s = elim (s.guest_buffers s.next_guest_buffer == 0) [
  | true ↦ (
    record s {
      guest_buffers = store s.next_guest_buffer v s.guest_buffers;
      next_guest_buffer = next_candidate s.next_guest_buffer;
    },
    s.next_guest_buffer,
  )
  | false ↦
      reserve_from rounds v (record s { next_guest_buffer = next_candidate s.next_guest_buffer })
]

unfoldable pub reserve_guest_buffer : ℕ → GlState → GlState × ℕ
unfolding reserve_from
reserve_guest_buffer v s = reserve_from 65535 v s

abbrev pub settle_reserved : ℕ → GlState × ℕ → GlState × ℕ
settle_reserved v (s, guest) = if guest == 0 then (call (delete_buffer v) s, guest) else (s, guest)

-- One round of gl_gen_buffers_soloader, where VitaGL answers with the name `v`.
unfoldable pub gen_one : ℕ → GlState → GlState × ℕ
gen_one v s =
    if v == 0 then (s, 0) else settle_reserved v (reserve_guest_buffer v (call (gen_buffer v) s))

unfoldable pub gen_names : List ℕ → GlState → GlState × List ℕ
gen_names [] s = (s, [])
gen_names (v ∷ vs) s = let (s1, g) = gen_one v s in let (s2, gs) = gen_names vs s1 in (s2, g ∷ gs)

-- `none` where there are no names to make: n is not positive, or the array is null.
unfoldable pub gl_gen_buffers_soloader : Option (List ℕ) → GlState → GlState × List ℕ
gl_gen_buffers_soloader none s = (call forward_gen s, [])
gl_gen_buffers_soloader (some vs) s = gen_names vs s

-- The second half of an implicit creation: another thread may have been faster.
unfoldable pub install_implicit : ℕ → ℕ → GlState → GlState × ℕ
install_implicit b v s =
    if s.guest_buffers b == 0
    then (record s { guest_buffers = store b v s.guest_buffers }, v)
    else (call (delete_buffer v) s, s.guest_buffers b)

-- The call of VitaGL and the record of what is bound.
unfoldable pub bind_vita : Target → ℕ → ℕ → GlState → GlState
bind_vita array_buffer b v s =
    call (bind_buffer array_buffer v) (record s { array_vita = v; array_guest = b })
bind_vita element_array_buffer b v s =
    call (bind_buffer element_array_buffer v) (record s { element_vita = v; element_guest = b })
bind_vita (other_target t) b v s = call (bind_buffer (other_target t) v) s

-- A name that was never used: `v` is what VitaGL's glGenBuffers answers.
unfoldable pub bind_implicit : Target → ℕ → ℕ → GlState → GlState
bind_implicit t b v s =
    if v == 0
    then s
    else let (s', w) = install_implicit b v (call (gen_buffer v) s) in bind_vita t b w s'

unfoldable pub gl_bind_buffer_soloader : Target → ℕ → ℕ → GlState → GlState
gl_bind_buffer_soloader t b v s =
    let s' = record s { binds = u32 (s.binds + 1) } in
    if b == 0
    then bind_vita t b 0 s'
    else if leb guest_buffer_count b
    then s'
    else if s.guest_buffers b == 0
    then bind_implicit t b v s'
    else bind_vita t b (s.guest_buffers b) s'

unfoldable pub unbind_array : ℕ → GlState → GlState
unbind_array g s =
    if s.array_guest == g
    then call (bind_buffer array_buffer 0) (record s { array_guest = 0; array_vita = 0 })
    else s

unfoldable pub unbind_element : ℕ → GlState → GlState
unbind_element g s =
    if s.element_guest == g
    then call (bind_buffer element_array_buffer 0)
        (record s { element_guest = 0; element_vita = 0 })
    else s

abbrev pub delete_vita : ℕ → GlState → GlState
delete_vita v s = if v == 0 then s else call (delete_buffer v) s

-- One round of gl_delete_buffers_soloader.
unfoldable pub delete_one : ℕ → GlState → GlState
delete_one g s =
    if not (g == 0) && ltb g guest_buffer_count
    then delete_vita (s.guest_buffers g)
        (unbind_element g (unbind_array g (record s { guest_buffers = store g 0 s.guest_buffers })))
    else s

unfoldable pub delete_names : List ℕ → GlState → GlState
delete_names [] s = s
delete_names (g ∷ gs) s = delete_names gs (delete_one g s)

-- `none` as in gl_gen_buffers_soloader.
unfoldable pub gl_delete_buffers_soloader : Option (List ℕ) → GlState → GlState
gl_delete_buffers_soloader none s = call forward_delete s
gl_delete_buffers_soloader (some gs) s = delete_names gs s

-- The binding of a target; `vita` is the answer of VitaGL to every other question.
unfoldable pub gl_get_integerv_soloader : Target → ℕ → GlState → ℕ
gl_get_integerv_soloader array_buffer vita s = s.array_guest
gl_get_integerv_soloader element_array_buffer vita s = s.element_guest
gl_get_integerv_soloader (other_target t) vita s = vita

unfoldable pub gl_draw_elements_soloader : GlState → GlState
gl_draw_elements_soloader s =
    let s' = record s { draws = u32 (s.draws + 1) } in
    if not (s.element_vita == 0) && ltb s.element_vita (2 ^ 31)
    then record s' { rejected = u32 (s.rejected + 1) }
    else call draw_elements s'
