-- ===== src/Store/Persist.antt =====
-- `persistLocked`: the state file is replaced as a whole.
use dra_linux_networks.Prelude.{
  ◌≡◌, refl, ◌==◌, eq_iff, ok, err, some, none, ◌∷◌, Bool-cases, inl, inr, ◌⊎◌,
}
use dra_linux_networks.Store.{
  Store, Faults, whole, put_file, StoreError, mkdir_failed, write_failed, rename_failed,
  persist_locked, write_file, rename_file,
}

module _ (io : Faults) (s : Store) where
  -- If `persistLocked` reports no error, then the store has no path and the disk is unchanged, or
  -- the state file holds the new state, no temporary file is left, and the new state as a whole is
  -- all that the file has held since. If it reports an error, the state file holds what it held,
  -- and has held nothing else since: also when a write fails halfway, no reader finds a part.
  pub persist_locked_atomic :
      (((persist_locked io s).0 ≡ ok tt)
        × (((s.path ≡ "") × ((persist_locked io s).1.disk ≡ s.disk))
            ⊎ ((persist_locked io s).1.disk ≡ record {
              file = some (whole s.state);
              tmp = none;
              held = some (whole s.state) ∷ s.disk.held;
            })))
      ⊎ ((e : StoreError) × ((persist_locked io s).0 ≡ err e)
          × ((persist_locked io s).1.disk.file ≡ s.disk.file)
          × ((persist_locked io s).1.disk.held ≡ s.disk.held))
  unfolding persist_locked write_file rename_file put_file
  persist_locked_atomic = elim (Bool-cases (s.path == "")) [
    | inl memory ↦ rw memory (inl (refl, inl ((eq_iff s.path "").0 memory, refl)))
    | inr file ↦ rw file (elim (Bool-cases io.mkdir) [
      | inl fails ↦ rw fails (inr (mkdir_failed, refl, refl, refl))
      | inr made ↦ rw made (elim (Bool-cases io.open_file) [
        | inl fails ↦ rw fails (inr (write_failed, refl, refl, refl))
        | inr opened ↦ rw opened (elim (Bool-cases io.write) [
          | inl fails ↦ rw fails (inr (write_failed, refl, refl, refl))
          | inr wrote ↦ rw wrote (elim (Bool-cases io.rename) [
            | inl fails ↦ rw fails (inr (rename_failed, refl, refl, refl))
            | inr renamed ↦ rw renamed (inl (refl, inr refl))
          ])
        ])
      ])
    ])
  ]
