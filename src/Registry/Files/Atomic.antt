-- ===== src/Registry/Files/Atomic.antt =====
-- A write of a value replaces it or keeps it; it never loses it.
use mathlib.Core.Bool.{false≢true}
use zombie_shooter_ps_vita_p.Prelude.{
  ℕ, zero, suc, ◌+◌, ◌*◌, ◌≡◌, ◌⊎◌, refl, sym, ap, ◌∙◌, subst, ◌<◌, Bool, true, false, not, ◌&&◌,
  ◌||◌, Option, none, some, [], ◌∷◌, ◌++◌, arith, length, take, if◌then◌else◌, str_eq, str_eq→eq,
  str_eq_refl, str_eq_comm, if_cases, if_both, ltb, Bool-cases, ◌==◌, inl, inr,
}
use zombie_shooter_ps_vita_p.Registry.Table.{Str, max_key}
use zombie_shooter_ps_vita_p.Registry.FileName.{
  dat, tmp, bak, hex_bytes, bytes_of_hex, strip_suffix, pref_path_for_key,
}
use zombie_shooter_ps_vita_p.Registry.FileName.RoundTrip.{
  IsCString, path_shape, bytes_of_hex-hex_bytes, length-hex_bytes, strip-append, strip_other,
}
use zombie_shooter_ps_vita_p.Registry.Files.{
  Files, put_file, exists, remove_file, rename_file, WriteFaults, install_file, rotate_file,
  write_tmp, write_paths, path_size, pref_write_key_value_now,
}

-- What a write may leave behind: the new value, the old one, or the old one in the backup, which
-- takes a second failure, of the rename that puts it back.
abbrev pub WriteResult : WriteFaults → Str → Str → Str → Files → Files × Bool → Type 0
WriteResult f value path bak_path fs r =
    ((r.1 ≡ true) × (r.0 path ≡ some value))
    ⊎ ((r.1 ≡ false) × (r.0 path ≡ fs path))
    ⊎ ((r.1 ≡ false)
        × (f.install ≡ false)
        × (f.restore ≡ false)
        × (r.0 path ≡ none)
        × (r.0 bak_path ≡ fs path))

pub take_all : (value : Str) → take (length value) value ≡ value
take_all [] = refl
take_all (c ∷ value) = ap (◌∷◌ c) (take_all value)

written_all :
    (n : ℕ) (value : Str) → (length value == 0 || n == length value) ≡ true → take n value ≡ value
written_all zero [] h = refl
written_all (suc n) [] h = refl
written_all n (c ∷ value) h =
    let e : n ≡ length (c ∷ value) = ground arith in rw e (take_all (c ∷ value))

pub put_self : (q : Str) (v : Option Str) (fs : Files) → put_file q v fs q ≡ v
unfolding put_file
put_self q v fs = rw (str_eq_refl q)

pub put_other :
    (q r : Str) (v : Option Str) (fs : Files) → str_eq q r ≡ false → put_file q v fs r ≡ fs r
unfolding put_file
put_other q r v fs ne = rw ne

pub remove_other :
    (ok : Bool) (q r : Str) (fs : Files) → str_eq q r ≡ false → remove_file ok q fs r ≡ fs r
unfolding remove_file
remove_other true q r fs ne = put_other q r none fs ne
remove_other false q r fs ne = refl

module _ (f : WriteFaults) (value p t b : Str) (pt : str_eq p t ≡ false) (pb : str_eq p b ≡ false)
    (tb : str_eq t b ≡ false) where
  tp : str_eq t p ≡ false
  tp = str_eq_comm t p ∙ pt

  bp : str_eq b p ≡ false
  bp = str_eq_comm b p ∙ pb

  bt : str_eq b t ≡ false
  bt = str_eq_comm b t ∙ tb

  module _ (fs : Files) where
    install-result :
        (had : Bool) (g : Files)
        → g t ≡ some value
        → (if had then g b else g p) ≡ fs p
        → (had ≡ true → g p ≡ none)
        → WriteResult f value p b fs (install_file f had p t b g)
    unfolding install_file rename_file
    install-result true g new old gone =
        if_cases (WriteResult f value p b fs) f.install
          (λ done. inl (
            refl,
            rw (remove_other f.drop_bak b p _ bp, put_other t p none _ tp, put_self p (g t) g) new,
          ))
          (λ failed. elim (Bool-cases f.restore) [
            | inl back ↦ inr (
                inl (
                  refl,
                  rw
                      (
                        back,
                        remove_other f.remove_tmp t p _ tp,
                        put_other b p none _ bp,
                        put_self p (g b) g,
                      )
                      old,
                ))
            | inr lost ↦ inr (
                inr (
                  refl,
                  failed,
                  lost,
                  rw (lost, remove_other f.remove_tmp t p g tp) (gone refl),
                  rw (lost, remove_other f.remove_tmp t b g tb) old,
                ))
          ])
    install-result false g new old gone =
        if_cases (WriteResult f value p b fs) f.install
          (λ done. inl (refl, rw (put_other t p none _ tp, put_self p (g t) g) new))
          (λ failed. inr (inl (refl, rw (remove_other f.remove_tmp t p g tp) old)))

    rotate-result :
        (g : Files)
        → g t ≡ some value
        → g p ≡ fs p
        → WriteResult f value p b fs (rotate_file f p t b g)
    unfolding rotate_file rename_file
    rotate-result g new old =
        if_cases (WriteResult f value p b fs) (exists (g p))
          (λ there.
            if_cases (WriteResult f value p b fs) f.rotate
              (λ moved.
                install-result true _
                  (rw
                    (
                      put_other p t none _ pt,
                      put_other b t _ _ bt,
                      remove_other f.remove_bak b t g bt,
                    )
                    new)
                  (rw
                    (
                      put_other p b none _ pb,
                      put_self b _ (remove_file f.remove_bak b g),
                      remove_other f.remove_bak b p g bp,
                    )
                    old)
                  (λ _. put_self p none _))
              (λ failed. inr (
                inl (
                  refl,
                  rw (remove_other f.remove_tmp t p _ tp, remove_other f.remove_bak b p g bp) old,
                ))))
          (λ absent. install-result false g new old (λ e. cc))

    write_tmp-result : WriteResult f value p b fs (write_tmp f value p t b fs)
    unfolding write_tmp
    write_tmp-result =
        if_cases (WriteResult f value p b fs) (not f.open_tmp) (λ closed. inr (inl (refl, refl)))
          (λ opened.
            if_cases (WriteResult f value p b fs)
              ((length value == 0 || f.written == length value) && f.flush && f.close)
              (λ complete.
                rotate-result (put_file t (some (take f.written value)) fs)
                  (put_self t _ fs ∙ ap some (written_all f.written value (ground arith)))
                  (put_other t p _ fs tp))
              (λ torn.
                inr (inl (refl, rw (remove_other f.remove_tmp t p _ tp) (put_other t p _ fs tp)))))

    module _ (q : Str) (np : str_eq p q ≡ false) (nt : str_eq t q ≡ false)
        (nb : str_eq b q ≡ false) where
      install_elsewhere :
          (had : Bool) (g : Files) → g q ≡ fs q → (install_file f had p t b g).0 q ≡ fs q
      unfolding install_file rename_file
      install_elsewhere had g h =
          if_both (λ (r : Files × Bool). r.0 q ≡ fs q) f.install
            (if_both (λ (k : Files). k q ≡ fs q) had
              (remove_other f.drop_bak b q _ nb
                ∙ put_other t q none _ nt
                ∙ put_other p q _ g np
                ∙ h)
              (put_other t q none _ nt ∙ put_other p q _ g np ∙ h))
            (remove_other f.remove_tmp t q _ nt
              ∙ if_both (λ (k : Files). k q ≡ fs q) had
                  (if_both (λ (k : Files). k q ≡ fs q) f.restore
                    (put_other b q none _ nb ∙ put_other p q _ g np ∙ h) h)
                  h)

      rotate_elsewhere : (g : Files) → g q ≡ fs q → (rotate_file f p t b g).0 q ≡ fs q
      unfolding rotate_file rename_file
      rotate_elsewhere g h =
          if_both (λ (r : Files × Bool). r.0 q ≡ fs q) (exists (g p))
            (if_both (λ (r : Files × Bool). r.0 q ≡ fs q) f.rotate
              (install_elsewhere true _ (
                put_other p q none _ np
                ∙ put_other b q _ _ nb
                ∙ remove_other f.remove_bak b q g nb
                ∙ h))
              (remove_other f.remove_tmp t q _ nt ∙ remove_other f.remove_bak b q g nb ∙ h))
            (install_elsewhere false g h)

      -- Other files are not touched.
      write_tmp-elsewhere : (write_tmp f value p t b fs).0 q ≡ fs q
      unfolding write_tmp
      write_tmp-elsewhere =
          if_both (λ (r : Files × Bool). r.0 q ≡ fs q) (not f.open_tmp) refl
            (if_both (λ (r : Files × Bool). r.0 q ≡ fs q)
              ((length value == 0 || f.written == length value) && f.flush && f.close)
              (rotate_elsewhere _ (put_other t q _ fs nt))
              (remove_other f.remove_tmp t q _ nt ∙ put_other t q _ fs nt))

-- Names that differ only in their extension.
same_prefix : (xs ys zs : Str) → str_eq (xs ++ ys) (xs ++ zs) ≡ str_eq ys zs
unfolding str_eq
same_prefix [] ys zs = refl
same_prefix (x ∷ xs) ys zs = ground (arith, same_prefix xs ys zs)

pub slash_prefix :
    (dir name name' : Str) → str_eq (dir ++ b'/' ∷ name) (dir ++ b'/' ∷ name') ≡ str_eq name name'
unfolding str_eq
slash_prefix dir name name' = same_prefix dir (b'/' ∷ name) (b'/' ∷ name')

abbrev pub path_of : Str → Str → Str → Str
path_of dir k suffix = dir ++ b'/' ∷ (hex_bytes k ++ suffix)

pub paths_differ :
    (dir k s s' : Str) → str_eq s s' ≡ false → str_eq (path_of dir k s) (path_of dir k s') ≡ false
paths_differ dir k s s' h =
    slash_prefix dir (hex_bytes k ++ s) (hex_bytes k ++ s') ∙ same_prefix (hex_bytes k) s s' ∙ h

-- The three paths of a key fit a buffer together, since their extensions have one length.
paths_cases :
    (dir k : Str)
    → ((suffix : Str) → length suffix ≡ 4 → pref_path_for_key dir path_size k suffix ≡ none)
      ⊎ ((suffix : Str)
          → length suffix ≡ 4
          → pref_path_for_key dir path_size k suffix ≡ some (path_of dir k suffix))
unfolding pref_path_for_key
paths_cases dir k =
    elim (Bool-cases (
      length k == 0
      || ltb max_key (length k)
      || ltb path_size (length dir + 1 + length k * 2 + 4 + 1))) [
        | inl bad ↦ inl (λ suffix e. rw (e, bad))
        | inr good ↦ inr (λ suffix e. rw (e, good))
      ]

write_paths-result :
    (f : WriteFaults) (dir k value : Str) (fs : Files)
    → ((suffix : Str)
        → length suffix ≡ 4
        → pref_path_for_key dir path_size k suffix ≡ some (path_of dir k suffix))
    → WriteResult f value
        (path_of dir k dat)
        (path_of dir k bak)
        fs
        (pref_write_key_value_now f dir k value fs)
unfolding pref_write_key_value_now write_paths str_eq
write_paths-result f dir k value fs e =
    if_both (WriteResult f value (path_of dir k dat) (path_of dir k bak) fs) (not f.dir)
      (inr (inl (refl, refl)))
      (rw (e dat refl, e tmp refl, e bak refl)
        (write_tmp-result f value (path_of dir k dat) (path_of dir k tmp) (path_of dir k bak)
          (paths_differ dir k dat tmp refl) (paths_differ dir k dat bak refl)
          (paths_differ dir k tmp bak refl) fs))

-- Whichever calls fail, a write that returns 1 leaves the new value in the key's file. One that
-- returns 0 leaves the old contents there, or nothing there and the old contents in the backup
-- file; the latter only if the rename of the temporary file fails and the rename of the backup
-- back fails too.
pub pref_write_key_value_now-atomic :
    (f : WriteFaults) (dir k value path bak_path : Str) (fs : Files)
    → pref_path_for_key dir path_size k dat ≡ some path
    → pref_path_for_key dir path_size k bak ≡ some bak_path
    → WriteResult f value path bak_path fs (pref_write_key_value_now f dir k value fs)
pref_write_key_value_now-atomic f dir k value path bak_path fs hp hb = elim (paths_cases dir k) [
  | inl none_fit ↦ cc (none_fit dat refl)
  | inr fit ↦
      let main : path ≡ path_of dir k dat = cc (fit dat refl) in
      let backup : bak_path ≡ path_of dir k bak = cc (fit bak refl) in
      rw (main, backup) (write_paths-result f dir k value fs fit)
]

path_nonempty :
    (dir : Str) (cap : ℕ) (k suffix : Str) {path : Str}
    → pref_path_for_key dir cap k suffix ≡ some path
    → 0 < length (hex_bytes k)
unfolding pref_path_for_key
path_nonempty dir cap k suffix h = ground (arith, length-hex_bytes k)

module _ (k j : Str) (hk : IsCString k) (hj : IsCString j) (ne : str_eq k j ≡ false)
    (lk : 0 < length (hex_bytes k)) (lj : 0 < length (hex_bytes j)) where
  same_hex : ¬ (hex_bytes k ≡ hex_bytes j)
  same_hex e =
      let same : k ≡ j =
        sym (bytes_of_hex-hex_bytes k hk) ∙ ap bytes_of_hex e ∙ bytes_of_hex-hex_bytes j hj in
      let self : str_eq k k ≡ false = subst (λ i. str_eq k i ≡ false) (sym same) ne in
      false≢true (sym self ∙ str_eq_refl k)

  main_names_differ : str_eq (hex_bytes k ++ dat) (hex_bytes j ++ dat) ≡ false
  main_names_differ = elim (Bool-cases (str_eq (hex_bytes k ++ dat) (hex_bytes j ++ dat))) [
    | inl e ↦
        let stripped =
          sym (strip-append (hex_bytes k) dat lk)
          ∙ ap (strip_suffix dat) (str_eq→eq (hex_bytes k ++ dat) (hex_bytes j ++ dat) e)
          ∙ strip-append (hex_bytes j) dat lj in
        absurd (same_hex (cc stripped))
    | inr e ↦ e
  ]

  other_names_differ :
      (s : Str)
      → length dat ≡ length s
      → str_eq s dat ≡ false
      → str_eq (hex_bytes k ++ s) (hex_bytes j ++ dat) ≡ false
  other_names_differ s l d = elim (Bool-cases (str_eq (hex_bytes k ++ s) (hex_bytes j ++ dat))) [
    | inl e ↦
        let stripped =
          sym (strip_other (hex_bytes k) dat s l d)
          ∙ ap (strip_suffix dat) (str_eq→eq (hex_bytes k ++ s) (hex_bytes j ++ dat) e)
          ∙ strip-append (hex_bytes j) dat lj in
        cc stripped
    | inr e ↦ e
  ]

-- No file of one key is the data file of another.
pub paths_apart :
    (dir k j : Str)
    → IsCString k
    → IsCString j
    → str_eq k j ≡ false
    → 0 < length (hex_bytes k)
    → 0 < length (hex_bytes j)
    → (str_eq (path_of dir k dat) (path_of dir j dat) ≡ false)
      × (str_eq (path_of dir k tmp) (path_of dir j dat) ≡ false)
      × (str_eq (path_of dir k bak) (path_of dir j dat) ≡ false)
unfolding str_eq
paths_apart dir k j hk hj ne lk lj = (
  slash_prefix dir (hex_bytes k ++ dat) (hex_bytes j ++ dat) ∙ main_names_differ k j hk hj ne lk lj,
  slash_prefix dir (hex_bytes k ++ tmp) (hex_bytes j ++ dat)
      ∙ other_names_differ k j hk hj ne lk lj tmp refl refl,
  slash_prefix dir (hex_bytes k ++ bak) (hex_bytes j ++ dat)
      ∙ other_names_differ k j hk hj ne lk lj bak refl refl,
)

-- A write for one key leaves the data file of every other key alone.
pub pref_write_key_value_now-elsewhere :
    (f : WriteFaults) (dir k j value other : Str) (fs : Files)
    → IsCString k
    → IsCString j
    → str_eq k j ≡ false
    → pref_path_for_key dir path_size j dat ≡ some other
    → (pref_write_key_value_now f dir k value fs).0 other ≡ fs other
unfolding pref_write_key_value_now write_paths str_eq
pref_write_key_value_now-elsewhere f dir k j value other fs hk hj ne ho =
    if_both (λ (r : Files × Bool). r.0 other ≡ fs other) (not f.dir) refl
      (elim (paths_cases dir k) [
        | inl none_fit ↦ rw (none_fit dat refl)
        | inr fit ↦
            let lk = path_nonempty dir path_size k dat (fit dat refl) in
            let lj = path_nonempty dir path_size j dat ho in
            let (main, temporary, backup) = paths_apart dir k j hk hj ne lk lj in
            rw (fit dat refl, fit tmp refl, fit bak refl, path_shape dir path_size j dat ho)
              (write_tmp-elsewhere f value (path_of dir k dat) (path_of dir k tmp)
                (path_of dir k bak) (paths_differ dir k dat tmp refl)
                (paths_differ dir k dat bak refl) (paths_differ dir k tmp bak refl) fs
                (path_of dir j dat) main temporary backup)
      ])
