-- ===== src/GlBuffers/Tests.antt =====
-- Runs of the buffer names on a few calls.
use zombie_shooter_ps_vita_p.Prelude.{
  ℕ, zero, suc, ◌<◌, ◌≡◌, ◌≢◌, ◌⊎◌, refl, true, some, [], ◌∷◌, arith,
}
use zombie_shooter_ps_vita_p.GlBuffers.{
  array_buffer, GlState, store, gen_one, gen_names, reserve_from, reserve_guest_buffer,
  gl_gen_buffers_soloader, gl_bind_buffer_soloader, bind_implicit, install_implicit, bind_vita,
  gl_delete_buffers_soloader,
}
use zombie_shooter_ps_vita_p.GlBuffers.Names.{is_live}
use zombie_shooter_ps_vita_p.GlBuffers.Bindings.{bound_array, bound_element}
use zombie_shooter_ps_vita_p.GlBuffers.Reserve.{reserve_guest_buffer-full}
use zombie_shooter_ps_vita_p.GlBuffers.Methods.{
  end, answer, Step, gen, bind, delete, Reaches, here, andthen, first_state, Reaches-live,
  Reaches-unique,
}

-- The game binds a name that it made up, asks for another one and deletes the first.
abbrev bound : GlState
bound = gl_bind_buffer_soloader array_buffer 5 0x80000700 first_state

abbrev made : GlState
made = (gl_gen_buffers_soloader (some (0x80000800 ∷ [])) bound).0

abbrev deleted : GlState
deleted = gl_delete_buffers_soloader (some (5 ∷ [])) made

bound_step : Step first_state bound
unfolding is_live
bound_step = bind array_buffer 5 0x80000700 refl

made_step : Step bound made
unfolding is_live gl_bind_buffer_soloader bind_implicit install_implicit bind_vita
made_step = gen (0x80000800 ∷ []) (answer 0x80000800 [] bound refl end)

made_run : Reaches first_state made
made_run = andthen (andthen here bound_step) made_step

deleted_run : Reaches first_state deleted
deleted_run = andthen made_run (delete (some (5 ∷ [])))

made_live : is_live made.calls 0x80000800 ≡ true
unfolding is_live gl_bind_buffer_soloader bind_implicit install_implicit bind_vita
    gl_gen_buffers_soloader gen_names gen_one reserve_guest_buffer reserve_from store
made_live = refl

Reaches-live_example :
    ((bound_array deleted.calls ≡ 0) ⊎ (is_live deleted.calls (bound_array deleted.calls) ≡ true))
    × ((bound_element deleted.calls ≡ 0)
        ⊎ (is_live deleted.calls (bound_element deleted.calls) ≡ true))
Reaches-live_example = Reaches-live deleted_run

Reaches-unique_example :
    (g : ℕ) × (made.guest_buffers g ≡ 0x80000800)
    × (g < 65536)
    × ((h : ℕ) → made.guest_buffers h ≡ 0x80000800 → h ≡ g)
Reaches-unique_example = Reaches-unique made_run 0x80000800 made_live

-- A table without a free name.
abbrev crowded : ℕ → GlState
crowded n = record first_state { guest_buffers = λ g. 0x80000700; next_guest_buffer = n }

crowded_refuses : (rounds n v : ℕ) → (reserve_from rounds v (crowded n)).1 ≡ 0
unfolding reserve_from
crowded_refuses zero n v = refl
crowded_refuses (suc rounds) n v = crowded_refuses rounds _ v

crowded_full : (reserve_guest_buffer 0x80000900 (crowded 3)).1 ≡ 0
unfolding reserve_guest_buffer
crowded_full = crowded_refuses 65535 3 0x80000900

reserve_guest_buffer-full_example : (crowded 3).guest_buffers 9 ≢ 0
reserve_guest_buffer-full_example =
    reserve_guest_buffer-full 0x80000900 (crowded 3) (omega arith) (omega arith) crowded_full 9
      (omega arith) (omega arith)
