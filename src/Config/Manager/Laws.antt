-- ===== src/Config/Manager/Laws.antt =====
-- Saving is atomic, and the live configuration stays valid.
use ai_engineering_productiv.Prelude.{
  ℕ, String, ◌≡◌, ◌≢◌, refl, sym, ap, ◌∙◌, ◌⊎◌, inl, inr, Bool, Option, none, some, List, [], ◌∷◌,
  arith, Option-cases,
}
use ai_engineering_productiv.Config.{Config}
use ai_engineering_productiv.Config.Validate.{validate}
use ai_engineering_productiv.Config.Manager.{
  Disk, Faults, SaveError, Managed, Save, fill_and_rename, atomic_write, publish, write_encoded,
  save_locked, next_config, save, run, new_manager,
}

-- A write either fails and leaves the file as it was, or puts the whole contents there.
abbrev Written : String → Disk → Option SaveError × Disk → Type 0
Written contents d r =
    ((r.0 ≢ none) × (r.1.target ≡ d.target))
    ⊎ ((r.0 ≡ none) × (r.1.target ≡ some contents) × (r.1.temporary ≡ none))

atomic_write-Written :
    (f : Faults) (contents : String) (d : Disk) → Written contents d (atomic_write f contents d)
unfolding atomic_write fill_and_rename
atomic_write-Written f contents d = ground arith

module _ (compiles : String → Bool) (lower : ℕ → ℕ) (marshal : Config → Option String) where
  abbrev pub Unchanged : Managed → Option SaveError × Managed → Type 0
  Unchanged m r = (r.0 ≢ none) × (r.1.cfg ≡ m.cfg) × (r.1.disk.target ≡ m.disk.target)

  abbrev pub Replaced : Config → Option SaveError × Managed → Type 0
  Replaced next r =
      (r.0 ≡ none)
      × (r.1.cfg ≡ next)
      × (validate compiles next ≡ none)
      × (r.1.disk.target ≡ marshal next)
      × (r.1.disk.target ≢ none)

  publish_cases :
      (m : Managed) (next : Config) (contents : String) (r : Option SaveError × Disk)
      → Written contents m.disk r
      → validate compiles next ≡ none
      → marshal next ≡ some contents
      → Unchanged m (publish m next r) ⊎ Replaced next (publish m next r)
  publish_cases m next contents (none, d) w v e = ground arith
  publish_cases m next contents (some x, d) w v e = ground arith

  save_locked_written :
      (m : Managed) (next : Config) (f : Faults) (contents : String)
      → validate compiles next ≡ none
      → marshal next ≡ some contents
      → save_locked compiles marshal m next f ≡ publish m next (atomic_write f contents m.disk)
  unfolding save_locked
  save_locked_written m next f contents e g = rw (e, save_locked) (rw (g, write_encoded))

  save_locked_cases :
      (m : Managed) (next : Config) (f : Faults)
      → Unchanged m (save_locked compiles marshal m next f)
        ⊎ Replaced next (save_locked compiles marshal m next f)
  unfolding save_locked
  save_locked_cases m next f = elim (Option-cases (validate compiles next)) [
    | inr (x, e) ↦ inl (rw (e, save_locked) ((λ y. cc), refl, refl))
    | inl e ↦ elim (Option-cases (marshal next)) [
      | inl g ↦ inl (rw (e, save_locked) (rw (g, write_encoded) ((λ y. cc), refl, refl)))
      | inr (contents, g) ↦ rw (save_locked_written m next f contents e g) (
          publish_cases m next contents (atomic_write f contents m.disk)
            (atomic_write-Written f contents m.disk) e g)
    ]
  ]

  -- Every save, whichever call of it fails, either reports an error and changes neither the live
  -- configuration nor the file, or reports none, publishes the new configuration, which is valid,
  -- and leaves its complete encoding in the file.
  pub save_atomic :
      (m : Managed) (s : Save) (f : Faults)
      → Unchanged m (save compiles lower marshal m s f)
        ⊎ Replaced (next_config lower m.cfg s) (save compiles lower marshal m s f)
  unfolding save
  save_atomic m s f = save_locked_cases m (next_config lower m.cfg s) f

  -- The live configuration is valid, and the file holds it or was never written.
  abbrev pub IsSound : Managed → Managed → Type 0
  IsSound start m =
      (validate compiles m.cfg ≡ none)
      × (((m.cfg ≡ start.cfg) × (m.disk.target ≡ start.disk.target))
          ⊎ (m.disk.target ≡ marshal m.cfg))

  save-IsSound :
      (start m : Managed) (s : Save) (f : Faults)
      → IsSound start m
      → IsSound start (save compiles lower marshal m s f).1
  save-IsSound start m s f h = elim (save_atomic m s f) [
    | inl (x, c, t) ↦ rw (c, t) h
    | inr (x, c, v, t, y) ↦ (rw c v, inr (t ∙ ap marshal (sym c)))
  ]

  run-IsSound :
      (start m : Managed) (calls : List (Save × Faults))
      → IsSound start m
      → IsSound start (run compiles lower marshal m calls)
  unfolding run
  run-IsSound start m [] h = h
  run-IsSound start m ((s, f) ∷ calls) h =
      run-IsSound start (save compiles lower marshal m s f).1 calls (save-IsSound start m s f h)

  new_manager-valid :
      (path : String) (cfg : Config) (disk : Disk) (m : Managed)
      → new_manager compiles path cfg disk ≡ some m
      → validate compiles m.cfg ≡ none
  unfolding new_manager
  new_manager-valid path cfg disk m h = ground arith

  -- From a manager that was created, after any saves with any failures, the live configuration is
  -- valid, and the file is untouched beside the initial configuration or holds the encoding of the
  -- live one.
  pub run-IsSound_created :
      (path : String) (cfg : Config) (disk : Disk) (m : Managed) (calls : List (Save × Faults))
      → new_manager compiles path cfg disk ≡ some m
      → IsSound m (run compiles lower marshal m calls)
  run-IsSound_created path cfg disk m calls h =
      run-IsSound m m calls (new_manager-valid path cfg disk m h, inl (refl, refl))
