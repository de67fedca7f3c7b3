-- ===== src/AssetIndex/Methods.antt =====
-- utils/asset_index.c never answers that a file is missing which is there.
use zombie_shooter_ps_vita_p.Prelude.{
  ℕ, ◌-◌, ◌≡◌, refl, sym, ap, subst, ◌∙◌, Bool, true, false, not, ◌&&◌, ◌||◌, Option, none, some,
  List, [], ◌∷◌, ◌++◌, ◌==◌, ltb, leb, arith, length, get_or, str_eq, str_eq→eq, Bool-cases, inl,
  inr, if_both, if_cases,
}
use zombie_shooter_ps_vita_p.AssetIndex.{
  State, unbuilt, complete, uncertain, DirectoryIndex, Directory, AssetIndex, Stats, enoent,
  find_directory, no_directory, negative_find, record_copy, asset_index_record_missing,
  negative_capacity, asset_index_configure_negative, asset_index_report, ask, build_if,
  ask_directory, look_up, asset_index_missing, bump,
}
use zombie_shooter_ps_vita_p.AssetIndex.Names.{name_hash, strip_prefix}
use zombie_shooter_ps_vita_p.AssetIndex.Search.{is_absent-contains_hash}
use zombie_shooter_ps_vita_p.AssetIndex.Listing.{
  has_name, is_read, IsListed, build_index-IsListed, build_index-prefix,
}
use zombie_shooter_ps_vita_p.AssetIndex.Found.{
  strip_prefix_lem, IsFound, find_directory-IsFound, get_or-set-all, negative_find-append,
}

pub data Event : Type 0 where
  configure : Bool → Event
  record_missing : Option (List ℕ) → ℕ → Bool → Event
  missing : Option (List ℕ) → (ℕ → Bool) → Event
  report : Event

module _ (base : List ℕ) (card : List ℕ → Directory) (exists : List ℕ → Bool) where
  unfoldable pub run_event : Event → AssetIndex → AssetIndex
  run_event (configure b) s = asset_index_configure_negative b s
  run_event (record_missing name error copies) s = asset_index_record_missing name error copies s
  run_event (missing name grows) s = (asset_index_missing grows base card name s).0
  run_event report s = asset_index_report s

  unfoldable pub run_events : List Event → AssetIndex → AssetIndex
  run_events [] s = s
  run_events (e ∷ es) s = run_events es (run_event e s)

  -- A path is recorded as ENOENT only if it is not there.
  abbrev pub IsHonest : Event → Type 0
  IsHonest (configure b) = Unit {0}
  IsHonest (record_missing none error copies) = Unit {0}
  IsHonest (record_missing (some name) error copies) = error ≡ enoent → exists name ≡ false
  IsHonest (missing name grows) = Unit {0}
  IsHonest report = Unit {0}

  abbrev pub AreHonest : List Event → Type 0
  AreHonest [] = Unit {0}
  AreHonest (e ∷ es) = IsHonest e × AreHonest es

  -- A directory that is read whole names each of its files, up to case.
  abbrev pub Lists : Type 0
  Lists =
      (p name : List ℕ) (h : ℕ)
      → is_read (card p) ≡ true
      → name_hash name ≡ some h
      → exists (p ++ name) ≡ true
      → has_name name (card p).names ≡ true

  pub record IsTruthful (s : AssetIndex) : Type 0 where
    pub listed : (j : ℕ) → IsListed card (get_or s.directories j no_directory)
    pub gone : (name : List ℕ) → negative_find name s.negative_paths ≡ true → exists name ≡ false

  build_if-IsListed :
      (grows : ℕ → Bool) (st : State) (d : DirectoryIndex) (t : Stats)
      → IsListed card d
      → IsListed card (build_if grows base card st d t).0
  unfolding build_if
  build_if-IsListed grows unbuilt d t l = build_index-IsListed card grows base d
  build_if-IsListed grows complete d t l = l
  build_if-IsListed grows uncertain d t l = l

  build_if-prefix :
      (grows : ℕ → Bool) (st : State) (d : DirectoryIndex) (t : Stats)
      → (build_if grows base card st d t).0.prefix ≡ d.prefix
  unfolding build_if
  build_if-prefix grows unbuilt d t = build_index-prefix grows base card d
  build_if-prefix grows complete d t = refl
  build_if-prefix grows uncertain d t = refl

  ask-exists :
      Lists
      → (name : List ℕ) (h : ℕ) (st : State) (d : DirectoryIndex) (t : Stats) → d.state ≡ st
      → IsListed card d
      → IsFound name h d
      → exists name ≡ true
      → (ask st h d t).1 ≡ false
  ask-exists lists name h unbuilt d t e l f x = refl
  ask-exists lists name h uncertain d t e l f x = refl
  ask-exists lists name h complete d t e l (rest, s, n) x =
      let whole = strip_prefix_lem d.prefix name rest s in
      let there : exists (d.prefix ++ rest) ≡ true = ap exists (sym whole) ∙ x in
      let here = l.all e rest h n (lists d.prefix rest h (l.read e) n there) in
      is_absent-contains_hash d.hashes h (l.sorted e) ∙ ap not here

  look_up-exists :
      (grows : ℕ → Bool)
      → Lists
      → (name : List ℕ) (o : Option (ℕ × ℕ)) (s : AssetIndex) → IsTruthful s
      → find_directory name s.directories 0 ≡ o
      → exists name ≡ true
      → (look_up grows base card o s).1 ≡ false
  unfolding look_up ask_directory
  look_up-exists grows lists name none s truth e x = refl
  look_up-exists grows lists name (some (i, h)) s truth e x =
      let d = get_or s.directories i no_directory in
      let at : i - 0 ≡ i = omega arith in
      let found : IsFound name h d =
        subst (λ (k : ℕ). IsFound name h (get_or s.directories k no_directory)) at
          (find_directory-IsFound name s.directories 0 i h e).1 in
      let t = s.stats in
      let b = build_if grows base card d.state d (record t { lookups = bump t.lookups }) in
      let same = build_if-prefix grows d.state d (record t { lookups = bump t.lookups }) in
      ask-exists lists name h b.0.state b.0 b.1 refl
        (build_if-IsListed grows d.state d _ (truth.listed i))
        (found.0, (ap (λ (p : List ℕ). strip_prefix p name) same ∙ found.1), found.2) x

  missing-exists :
      (grows : ℕ → Bool)
      → Lists
      → (name : List ℕ) (s : AssetIndex) → IsTruthful s
      → exists name ≡ true
      → (asset_index_missing grows base card (some name) s).1 ≡ false
  unfolding asset_index_missing
  missing-exists grows lists name s truth x =
      if_cases (λ (r : AssetIndex × Bool). r.1 ≡ false)
        (s.negative_enabled && negative_find name s.negative_paths)
        (λ n. let g = truth.gone name (ground arith) in cc)
        (λ n. look_up-exists grows lists name _ s truth refl x)

  look_up-IsTruthful :
      (grows : ℕ → Bool) (o : Option (ℕ × ℕ)) (s : AssetIndex)
      → IsTruthful s
      → IsTruthful (look_up grows base card o s).0
  unfolding look_up ask_directory
  look_up-IsTruthful grows none s truth = record { listed = truth.listed; gone = truth.gone }
  look_up-IsTruthful grows (some (i, h)) s truth =
      let d = get_or s.directories i no_directory in
      record {
        listed =
            get_or-set-all (IsListed card) s.directories i _
              (build_if-IsListed grows d.state d _ (truth.listed i)) truth.listed;
        gone = truth.gone;
      }

  missing-IsTruthful :
      (grows : ℕ → Bool) (name : Option (List ℕ)) (s : AssetIndex)
      → IsTruthful s
      → IsTruthful (asset_index_missing grows base card name s).0
  unfolding asset_index_missing
  missing-IsTruthful grows none s truth = look_up-IsTruthful grows none s truth
  missing-IsTruthful grows (some name) s truth =
      if_both (λ (r : AssetIndex × Bool). IsTruthful r.0)
        (s.negative_enabled && negative_find name s.negative_paths)
        (record { listed = truth.listed; gone = truth.gone }) (look_up-IsTruthful grows _ s truth)

  record_copy-IsTruthful :
      (name : List ℕ) (s : AssetIndex)
      → exists name ≡ false
      → IsTruthful s
      → IsTruthful (record_copy name s)
  unfolding record_copy
  record_copy-IsTruthful name s gone truth = record {
    listed = truth.listed;
    gone = λ x f. elim (Bool-cases (str_eq x name)) [
      | inl same ↦ ap exists (str_eq→eq x name same) ∙ gone
      | inr other ↦
          let split = negative_find-append x name s.negative_paths in truth.gone x (ground arith)
    ];
  }

  run_event-IsTruthful :
      (e : Event) (s : AssetIndex) → IsHonest e → IsTruthful s → IsTruthful (run_event e s)
  unfolding run_event asset_index_configure_negative negative_find asset_index_record_missing
      asset_index_report
  run_event-IsTruthful (configure b) s ok truth = record {
    listed = truth.listed;
    gone = λ name f. cc;
  }
  run_event-IsTruthful (record_missing none error copies) s ok truth = truth
  run_event-IsTruthful (record_missing (some name) error copies) s ok truth =
      if_cases IsTruthful (not (error == enoent) || length name == 0 || leb 256 (length name))
        (λ h. truth)
        (λ h.
          if_both IsTruthful
            (s.negative_enabled
              && ltb (length s.negative_paths) negative_capacity
              && not (negative_find name s.negative_paths)
              && copies)
            (record_copy-IsTruthful name s (ok (ground arith)) truth) truth)
  run_event-IsTruthful (missing name grows) s ok truth = missing-IsTruthful grows name s truth
  run_event-IsTruthful report s ok truth = record { listed = truth.listed; gone = truth.gone }

  pub run_events-IsTruthful :
      (es : List Event) (s : AssetIndex)
      → AreHonest es
      → IsTruthful s
      → IsTruthful (run_events es s)
  unfolding run_events
  run_events-IsTruthful [] s ok truth = truth
  run_events-IsTruthful (e ∷ es) s (honest, ok) truth =
      run_events-IsTruthful es (run_event e s) ok (run_event-IsTruthful e s honest truth)

  -- After any calls, asset_index_missing does not answer that a file is missing which is there,
  -- whatever hashes collide, builds fail and copies run out of memory. It is assumed that a
  -- directory that is read whole names each of its files up to case, and that no path is recorded
  -- as ENOENT that is there.
  pub asset_index_missing-exists :
      (es : List Event) (s : AssetIndex) (grows : ℕ → Bool) (name : List ℕ)
      → Lists
      → IsTruthful s
      → AreHonest es
      → exists name ≡ true
      → (asset_index_missing grows base card (some name) (run_events es s)).1 ≡ false
  asset_index_missing-exists es s grows name lists truth honest x =
      missing-exists grows lists name (run_events es s) (run_events-IsTruthful es s honest truth) x
