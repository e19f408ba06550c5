-- ===== src/Config/Store/Persist.antt =====
-- What a persisting method leaves in memory and on disk.
use mcmon.Prelude.{◌≡◌, refl, sym, ◌⊎◌, inl, inr, String, none, some, Option-cases}
use mathlib.Core.Path.{subst}
use mcmon.Config.Disk.{Bytes, Disk, Done, done, failed, crashed, atomic_write_file}
use mcmon.Config.Disk.Atomic.{Survives, atomic_write_file-Survives}
use mcmon.Config.Store.{
  Config, Json, Reply, saved, rejected, not_written, stopped, reply_of, write_config, persist,
}

module _ (json : Json) (path : String) where
  -- The file holds the configuration that `json` writes.
  abbrev pub Holds : Config → Disk → Type 0
  Holds cfg d = (b : Bytes) × (json.marshal cfg ≡ some b) × (d.content path ≡ some b)

  -- What the file holds after an attempt to replace what it had on `d` by `cfg`.
  abbrev pub Persisted {ℓ} : {A : Type ℓ} → Reply A → Disk → Config → Disk → Type 0
  Persisted (saved a) d cfg d' = Holds cfg d'
  Persisted (rejected e) d cfg d' = d'.content path ≡ d.content path
  Persisted not_written d cfg d' = d'.content path ≡ d.content path
  Persisted stopped d cfg d' = (d'.content path ≡ d.content path) ⊎ Holds cfg d'

  -- In memory the new configuration always stands.
  pub cfg-persist :
      {B : Type 0} (b : B) (cfg : Config) (d : Disk) → (persist json path b cfg d).1.cfg ≡ cfg
  unfolding persist
  cfg-persist b cfg d = refl

  Survives-Persisted :
      {B : Type 0} (b : B) (cfg : Config) (bytes : Bytes) (d d' : Disk) (r : Done (Unit {0}))
      → json.marshal cfg ≡ some bytes
      → Survives r (d.content path) bytes (d'.content path)
      → Persisted (reply_of b r) d cfg d'
  Survives-Persisted b cfg bytes d d' (done a) e h = (bytes, e, h)
  Survives-Persisted b cfg bytes d d' failed e h = h
  Survives-Persisted b cfg bytes d d' crashed e (inl h) = inl h
  Survives-Persisted b cfg bytes d d' crashed e (inr h) = inr (bytes, e, h)

  write_config-some :
      (cfg : Config) (bytes : Bytes) (d : Disk)
      → json.marshal cfg ≡ some bytes
      → write_config json path cfg d ≡ atomic_write_file path bytes d
  unfolding write_config
  write_config-some cfg bytes d e = rw (e, write_config)

  write_config-none :
      (cfg : Config) (d : Disk)
      → json.marshal cfg ≡ none
      → write_config json path cfg d ≡ (failed, d)
  unfolding write_config
  write_config-none cfg d e = rw (e, write_config)

  -- Each persisting method goes through this: the file holds the whole new configuration if the
  -- method returned nil, its old content if it returned an error, and one of the two if the process
  -- stopped.
  pub persist-Persisted :
      {B : Type 0} (b : B) (cfg : Config) (d : Disk)
      → Persisted (persist json path b cfg d).0 d cfg (persist json path b cfg d).1.disk
  unfolding persist
  persist-Persisted b cfg d = elim (Option-cases (json.marshal cfg)) [
    | inl unwritable ↦
        subst (λ o. Persisted (reply_of b o.0) d cfg o.1) (sym (write_config-none cfg d unwritable))
          refl
    | inr (bytes, e) ↦
        subst (λ o. Persisted (reply_of b o.0) d cfg o.1) (sym (write_config-some cfg bytes d e))
          (Survives-Persisted b cfg bytes d (atomic_write_file path bytes d).1
            (atomic_write_file path bytes d).0 e (atomic_write_file-Survives path bytes d))
  ]
