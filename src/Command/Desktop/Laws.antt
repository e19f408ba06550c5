-- ===== src/Command/Desktop/Laws.antt =====
-- What ensureDesktopConfig leaves in the file.
use mcmon.Prelude.{
  leb_str, leb_str_antisym, Bool, ◌&&◌, ◌≡◌, refl, sym, ◌∙◌, ◌⊎◌, inl, inr, String, str_eq, eq_iff,
  true, false, Option, none, some, if◌then◌else◌, Bool-cases, Option-cases, arith,
}
use mathlib.Core.Path.{subst}
use mcmon.Config.Disk.{
  Bytes, Disk, Done, done, failed, crashed, fate_of, passed, write_file, handle, return_error,
}
use mcmon.Config.Store.{got, missing, read_file}
use mcmon.Service.Install.Steps.{Fate-cases, write_file-done}
use mcmon.Command.Desktop.{
  Paths, Maps, Value, text, Fields, starts_after, is_json, is_map, no_fields, field, lookup, assign,
  as_text, desktop_defaults, ensured, desktop_db_path, write_map, write_desktop_config,
  ensure_db_path, ensure_read, ensure_result, ensure_desktop_config,
}

lookup-assign :
    (key : String) (new : Value) (fields : Fields) (other : String)
    → lookup other (assign key new fields)
      ≡ (if str_eq key other then some new else lookup other fields)
unfolding lookup assign
lookup-assign key new no_fields other = refl
lookup-assign key new (field k v fields) other =
    ground
      (arith, eq_iff k key, eq_iff k other, eq_iff key other, lookup-assign key new fields other)

-- Another value under a key leaves the fields in order.
starts_after-assign :
    (l key : String) (new : Value) (fields : Fields)
    → leb_str key l ≡ false
    → starts_after l fields ≡ true
    → starts_after l (assign key new fields) ≡ true
unfolding assign
starts_after-assign l key new no_fields h k = rw h refl
starts_after-assign l key new (field m v rest) h k = elim (Bool-cases (str_eq m key)) [
  | inl same ↦ rw same (rw h refl)
  | inr apart ↦ elim (Bool-cases (leb_str key m)) [
    | inl before ↦ rw (apart, before) (rw h refl)
    | inr later ↦ rw (apart, later) k
  ]
]

both : (a b : Bool) → (a && b) ≡ true → (a ≡ true) × (b ≡ true)
both true b h = (refl, h)
both false b h = absurd (cc h)

is_map-field :
    (k : String) (v : Value) (fields : Fields)
    → is_map (field k v fields) ≡ true
    → (is_json v ≡ true) × (starts_after k fields ≡ true) × (is_map fields ≡ true)
unfolding is_map
is_map-field k v fields h =
    let (first, rest) = both (is_json v && starts_after k fields) (is_map fields) h in
    let (fine, starts) = both (is_json v) (starts_after k fields) first in (fine, starts, rest)

is_map-assign :
    (key : String) (new : Value) (fields : Fields)
    → is_json new ≡ true
    → is_map fields ≡ true
    → is_map (assign key new fields) ≡ true
unfolding is_map assign
is_map-assign key new no_fields good h = rw good refl
is_map-assign key new (field k v fields) good h =
    let (fine, starts, rest) = is_map-field k v fields h in
    elim (Bool-cases (str_eq k key)) [
      | inl same ↦
          let e : k ≡ key = (eq_iff k key).0 same in
          rw (same, good, subst (λ l. starts_after l fields ≡ true) e starts, rest) refl
      | inr apart ↦ elim (Bool-cases (leb_str key k)) [
        | inl before ↦ rw (apart, before, good, not_before before apart, fine, starts, rest) refl
        | inr later ↦
            rw (apart, later)
              (rw
                (
                  fine,
                  starts_after-assign k key new fields later starts,
                  is_map-assign key new fields good rest,
                )
                refl)
      ]
    ]
  where
    not_before : leb_str key k ≡ true → str_eq k key ≡ false → leb_str k key ≡ false
    not_before before apart = elim (Bool-cases (leb_str k key)) [
      | inr fine ↦ fine
      | inl back ↦ absurd (cc (apart, (eq_iff k key).1 (leb_str_antisym k key back before)))
    ]

read_file-cases :
    (path : String) (d : Disk)
    → (read_file path d ≡ (failed, passed d))
      ⊎ (read_file path d ≡ (crashed, passed d))
      ⊎ ((d.content path ≡ none) × (read_file path d ≡ (done missing, passed d)))
      ⊎ ((b : Bytes) × (d.content path ≡ some b) × (read_file path d ≡ (done (got b), passed d)))
unfolding read_file
read_file-cases path d = elim (Fate-cases (fate_of d.fates)) [
  | inr (inl bad) ↦ inl (rw (bad, read_file) refl)
  | inr (inr (inl (n, bad))) ↦ inl (rw (bad, read_file) refl)
  | inr (inr (inr (n, bad))) ↦ inr (inl (rw (bad, read_file) refl))
  | inl good ↦ elim (Option-cases (d.content path)) [
    | inl absent ↦ inr (inr (inl (absent, rw (good, absent, read_file) refl)))
    | inr (b, there) ↦ inr (inr (inr (b, there, rw (good, there, read_file) refl)))
  ]
]

-- What encoding/json and path/filepath are relied on for: a map is read back as it was written, what is read
-- is a map, the empty path is not absolute, and a file beside the configuration has an absolute path.
pub record IsFitting (paths : Paths) (maps : Maps) (config_path : String) : Type 0 where
  pub unmarshal-marshal :
      (raw : Fields) (b : Bytes)
      → is_map raw ≡ true
      → maps.marshal raw ≡ some b
      → maps.unmarshal b ≡ some (some raw)
  pub unmarshal-is_map :
      (b : Bytes) (raw : Fields) → maps.unmarshal b ≡ some (some raw) → is_map raw ≡ true
  pub empty_relative : paths.is_abs "" ≡ false
  pub absolute : paths.is_abs (desktop_db_path paths maps config_path) ≡ true

module _ (paths : Paths) (maps : Maps) (config_path : String) where
  -- Where the new map comes from: from nothing, or from the map of the old file, in which at most the
  -- path of the database is new.
  abbrev pub ComesFrom : Option Bytes → Fields → Type 0
  ComesFrom none raw' = raw' ≡ desktop_defaults (desktop_db_path paths maps config_path)
  ComesFrom (some b) raw' =
      (raw : Fields) × (maps.unmarshal b ≡ some (some raw))
      × ((key : String)
          → (lookup key raw' ≡ lookup key raw)
            ⊎ ((key ≡ "db_path")
                × (lookup key raw' ≡ some (text (desktop_db_path paths maps config_path)))))

  -- The file has a map with an absolute path of the database.
  pub record IsEnsured (old : Option Bytes) (d' : Disk) : Type 0 where
    pub bytes : Bytes
    pub there : d'.content config_path ≡ some bytes
    pub raw : Fields
    pub readable : maps.unmarshal bytes ≡ some (some raw)
    pub absolute : paths.is_abs (as_text (lookup "db_path" raw)) ≡ true
    pub origin : ComesFrom old raw

  handled :
      (r : Done (Unit {0}) × Disk)
      → (handle r (λ _ d'. (done ensured, d')) return_error).0 ≡ done ensured
      → (r.0 ≡ done tt) × ((handle r (λ _ d'. (done ensured, d')) return_error).1 ≡ r.1)
  handled (done a, d) e = (refl, refl)
  handled (failed, d) e = absurd (cc e)
  handled (crashed, d) e = absurd (cc e)

  write_map-done :
      (raw : Fields) (d : Disk)
      → (write_map paths maps config_path raw d).0 ≡ done ensured
      → (b : Bytes) × (maps.marshal raw ≡ some b)
        × ((write_map paths maps config_path raw d).1.content config_path ≡ some b)
  unfolding write_map
  write_map-done raw d e = elim (Option-cases (maps.marshal raw)) [
    | inl bad ↦ absurd (cc (rw (bad, write_map) at e))
    | inr (b, good) ↦
        let (ok, same) = handled (write_file config_path b d) (rw (good, write_map) at e) in
        (
          b,
          good,
          rw (good, write_map)
              (subst (λ (x : Disk). x.content config_path ≡ some b) (sym same)
                (write_file-done config_path b d ok)),
        )
  ]

  module _ (fits : IsFitting paths maps config_path) where
    write_map-IsEnsured :
        (old : Option Bytes) (raw : Fields) (d : Disk)
        → is_map raw ≡ true
        → (write_map paths maps config_path raw d).0 ≡ done ensured
        → lookup "db_path" raw ≡ some (text (desktop_db_path paths maps config_path))
        → ComesFrom old raw
        → IsEnsured old (write_map paths maps config_path raw d).1
    unfolding as_text
    write_map-IsEnsured old raw d ordered e db origin =
        let (b, written, there) = write_map-done raw d e in
        record {
          bytes = b;
          there = there;
          raw = raw;
          readable = fits.unmarshal-marshal raw b ordered written;
          absolute = rw (db, as_text) (fits.absolute);
          origin = origin;
        }

    ensure_db_path-IsEnsured :
        (b : Bytes) (o : Option Fields) (d : Disk)
        → d.content config_path ≡ some b
        → maps.unmarshal b ≡ some o
        → (ensure_db_path paths maps config_path o d).0 ≡ done ensured
        → IsEnsured (some b) (ensure_db_path paths maps config_path o d).1
    unfolding ensure_db_path
    ensure_db_path-IsEnsured b none d there read e = absurd (cc (rw (fits.empty_relative) at e))
    ensure_db_path-IsEnsured b (some raw) d there read e =
        elim (Bool-cases (paths.is_abs (as_text (lookup "db_path" raw)))) [
          | inl absolute ↦ rw absolute (record {
            bytes = b;
            there = there;
            raw = raw;
            readable = read;
            absolute = absolute;
            origin = (raw, read, λ key. inl refl);
          })
          | inr relative ↦
              let db = text (desktop_db_path paths maps config_path) in
              rw relative (
                write_map-IsEnsured (some b) (assign "db_path" db raw) d
                  (is_map-assign "db_path" db raw (unfold is_json in refl)
                    (fits.unmarshal-is_map b raw read))
                  (rw relative at e) (lookup-assign "db_path" db raw "db_path")
                  (raw, read, λ key. assigned db raw key))
        ]
      where
        assigned :
            (db : Value) (raw : Fields) (key : String)
            → (lookup key (assign "db_path" db raw) ≡ lookup key raw)
              ⊎ ((key ≡ "db_path") × (lookup key (assign "db_path" db raw) ≡ some db))
        assigned db raw key = elim (Bool-cases (str_eq "db_path" key)) [
          | inl same ↦ inr (
            sym ((eq_iff "db_path" key).0 same),
            lookup-assign "db_path" db raw key ∙ rw same refl,
          )
          | inr other ↦ inl (lookup-assign "db_path" db raw key ∙ rw other refl)
        ]

    ensure_read-IsEnsured :
        (b : Bytes) (d : Disk)
        → d.content config_path ≡ some b
        → (ensure_read paths maps config_path b d).0 ≡ done ensured
        → IsEnsured (some b) (ensure_read paths maps config_path b d).1
    unfolding ensure_read
    ensure_read-IsEnsured b d there e = elim (Option-cases (maps.unmarshal b)) [
      | inl bad ↦ absurd (cc (rw (bad, ensure_read) at e))
      | inr (o, read) ↦
          rw (read, ensure_read)
            (ensure_db_path-IsEnsured b o d there read (rw (read, ensure_read) at e))
    ]

    write_desktop_config-IsEnsured :
        (d : Disk)
        → (ensure_result paths maps config_path missing d).0 ≡ done ensured
        → IsEnsured none (ensure_result paths maps config_path missing d).1
    unfolding ensure_result write_desktop_config desktop_defaults lookup is_map
    write_desktop_config-IsEnsured d e =
        write_map-IsEnsured none (desktop_defaults (desktop_db_path paths maps config_path)) d refl
          e refl refl

    -- Where ensureDesktopConfig returns, the file of the configuration has a map with an absolute path of
    -- the database. It is the map of the old file, in which at most the path of the database is new, or the
    -- defaults where there was no file. encoding/json must read maps, and read back a map that it wrote; the
    -- empty path must not be absolute, and the file beside the configuration must have an absolute path.
    pub ensure_desktop_config-IsEnsured :
        (d : Disk)
        → (ensure_desktop_config paths maps config_path d).0 ≡ done ensured
        → IsEnsured (d.content config_path) (ensure_desktop_config paths maps config_path d).1
    unfolding ensure_desktop_config ensure_result
    ensure_desktop_config-IsEnsured d e = elim (read_file-cases config_path d) [
      | inl bad ↦ absurd (cc (rw bad at e))
      | inr (inl bad) ↦ absurd (cc (rw bad at e))
      | inr (inr (inl (absent, read))) ↦
          rw (absent, read) (write_desktop_config-IsEnsured (passed d) (rw read at e))
      | inr (inr (inr (b, there, read))) ↦
          rw (there, read) (ensure_read-IsEnsured b (passed d) there (rw read at e))
    ]
