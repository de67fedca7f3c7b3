-- ===== src/GlBuffers/Names.antt =====
-- The names of live buffers: which changes of the table and of VitaGL keep them one to one.
use mathlib.Core.Bool.{false≢true}
use zombie_shooter_ps_vita_p.Prelude.{
  ℕ, ◌<◌, ◌≡◌, ◌≢◌, sym, ◌∙◌, subst, Bool, true, false, not, ◌&&◌, ◌||◌, List, [], ◌∷◌, arith, ◌==◌,
  Bool-cases, if_cases, inl, inr,
}
use zombie_shooter_ps_vita_p.GlBuffers.{
  GlCall, forward_gen, forward_delete, gen_buffer, delete_buffer, bind_buffer, draw_elements, store,
}

-- VitaGL made the buffer `v` and did not delete it since.
unfoldable pub is_live : List GlCall → ℕ → Bool
is_live [] v = false
is_live (forward_gen ∷ cs) v = is_live cs v
is_live (forward_delete ∷ cs) v = is_live cs v
is_live (gen_buffer w ∷ cs) v = v == w || is_live cs v
is_live (delete_buffer w ∷ cs) v = not (v == w) && is_live cs v
is_live (bind_buffer t w ∷ cs) v = is_live cs v
is_live (draw_elements ∷ cs) v = is_live cs v

-- The guest names stand one to one for the live buffers, and 0 stands for none.
pub record IsNames (names : ℕ → ℕ) (live : ℕ → Bool) : Type 0 where
  pub null : names 0 ≡ 0
  pub small : (g : ℕ) → names g ≢ 0 → g < 65536
  pub distinct : (g h : ℕ) → names g ≢ 0 → names g ≡ names h → g ≡ h
  pub sound : (g : ℕ) → names g ≢ 0 → live (names g) ≡ true
  pub complete : (v : ℕ) → live v ≡ true → (g : ℕ) × (names g ≡ v) × (v ≢ 0)

pub same-IsNames :
    {names : ℕ → ℕ} {live now : ℕ → Bool}
    → IsNames names live
    → ((v : ℕ) → now v ≡ live v)
    → IsNames names now
same-IsNames h e = record {
  null = h.null;
  small = h.small;
  distinct = h.distinct;
  sound = λ g k. e _ ∙ h.sound g k;
  complete = λ v k. h.complete v (sym (e v) ∙ k);
}

pub store_self : (g v : ℕ) (names : ℕ → ℕ) → store g v names g ≡ v
unfolding store
store_self g v names = ground arith

pub store_ne : (g v h : ℕ) (names : ℕ → ℕ) → g ≢ h → store g v names h ≡ names h
unfolding store
store_ne g v h names k = ground arith

module _ {names : ℕ → ℕ} {live now : ℕ → Bool} (n : IsNames names live) (g v : ℕ) where
  module _ (ne : g ≢ 0) (low : g < 65536) (free : names g ≡ 0) (real : v ≢ 0)
      (fresh : live v ≡ false) (e : (w : ℕ) → now w ≡ (w == v || live w)) where
    old_ne : (h : ℕ) → names h ≢ 0 → names h ≢ v
    old_ne h k t = false≢true (sym fresh ∙ subst (λ (u : ℕ). live u ≡ true) t (n.sound h k))

    fresh_holds : now v ≡ true
    fresh_holds = e v ∙ ground arith

    old_holds : (h : ℕ) → names h ≢ 0 → now (names h) ≡ true
    old_holds h k = ground (arith, e (names h), n.sound h k)

    pub store-IsNames : IsNames (store g v names) now
    unfolding store
    store-IsNames = record {
      null = ground (arith, n.null);
      small = λ h k. ground (arith, n.small h);
      distinct = λ h k. ground (arith, n.distinct h k, old_ne h, old_ne k);
      sound = λ h.
          if_cases (λ (t : ℕ). t ≢ 0 → now t ≡ true) (g == h) (λ _ _. fresh_holds)
            (λ _ k. old_holds h k);
      complete = λ w k. elim (Bool-cases (w == v)) [
        | inl same ↦ (g, ground arith, ground arith)
        | inr other ↦
            let (h, at, made) = n.complete w (ground (arith, e w)) in (h, ground arith, made)
      ];
    }

  module _ (e : (w : ℕ) → now w ≡ (not (w == names g) && live w)) where
    pub erase-IsNames : IsNames (store g 0 names) now
    unfolding store
    erase-IsNames = record {
      null = ground (arith, n.null);
      small = λ h k. ground (arith, n.small h);
      distinct = λ h k. ground (arith, n.distinct h k);
      sound = λ h k. ground (arith, e (names h), n.sound h, n.distinct h g);
      complete = λ w k.
          let (h, at, real) = n.complete w (ground (arith, e w)) in (h, ground (arith, e w), real);
    }
