-- ===== src/Service/Install/Steps.antt =====
-- What the steps of an installation have done where they returned nil.
use mcmon.Prelude.{
  ℕ, ◌≡◌, refl, sym, ap, ◌∙◌, ◌⊎◌, inl, inr, String, eq_refl, true, Option, none, some, [], ◌∷◌,
  utf8, Bool-cases,
}
use mathlib.Core.Path.{subst}
use mcmon.Config.Disk.{
  Bytes, Disk, Done, done, Fate, succeeds, refused, fails, crashes, fate_of, write_file, remove,
  put_file, update,
}
use mcmon.Service.Files.{systemd_unit, launchd_plist}
use mcmon.Service.System.{
  Command, Host, System, Op, found, on_disk, ignored, ◌>>=◌, ◌>>◌, bind-done, bind_assoc, make_dirs,
  run,
}
use mcmon.Service.Install.{
  launchd_plist_path, systemd_unit_path, write_service_file, install_launchd, uninstall_launchd,
  install_systemd, uninstall_systemd,
}

pub Fate-cases :
    (f : Fate)
    → (f ≡ succeeds) ⊎ (f ≡ refused) ⊎ ((n : ℕ) × (f ≡ fails n)) ⊎ ((n : ℕ) × (f ≡ crashes n))
Fate-cases succeeds = inl refl
Fate-cases refused = inr (inl refl)
Fate-cases (fails n) = inr (inr (inl (n, refl)))
Fate-cases (crashes n) = inr (inr (inr (n, refl)))

pub write_file-done :
    (path : String) (bytes : Bytes) (d : Disk)
    → (write_file path bytes d).0 ≡ done tt
    → (write_file path bytes d).1.content path ≡ some bytes
unfolding write_file put_file update
write_file-done path bytes d e = elim (Fate-cases (fate_of d.fates)) [
  | inl good ↦ rw (good, write_file, eq_refl path) refl
  | inr (inl bad) ↦ absurd (cc (rw (bad, write_file) at e))
  | inr (inr (inl (n, bad))) ↦ absurd (cc (rw (bad, write_file) at e))
  | inr (inr (inr (n, bad))) ↦ absurd (cc (rw (bad, write_file) at e))
]

pub remove-done :
    (path : String) (d : Disk) → (remove path d).0 ≡ done tt → (remove path d).1.content path ≡ none
unfolding remove put_file update
remove-done path d e = elim (Fate-cases (fate_of d.fates)) [
  | inl good ↦ rw (good, remove, eq_refl path) refl
  | inr (inl bad) ↦ absurd (cc (rw (bad, remove) at e))
  | inr (inr (inl (n, bad))) ↦ absurd (cc (rw (bad, remove) at e))
  | inr (inr (inr (n, bad))) ↦ absurd (cc (rw (bad, remove) at e))
]

-- The system once a command has run.
abbrev pub after_command : Command → System → System
after_command command sys = record sys { ran = command ∷ sys.ran }

module _ (host : Host) (command : Command) (sys : System) where
  pub run-done :
      (s' : System)
      → run host command sys ≡ (done tt, s')
      → (host.works sys.ran command ≡ true) × (s' ≡ after_command command sys)
  unfolding run
  run-done s' e = elim (Bool-cases (host.works sys.ran command)) [
    | inl works ↦ (works, cc (rw works at e))
    | inr broken ↦ absurd (cc (rw broken at e))
  ]

module _ {B : Type 0} (sys s' : System) (b : B) where
  pub found-bind :
      {A : Type 0} (o : Option A) (next : A → Op B)
      → (found o >>= next) sys ≡ (done b, s')
      → (a : A) × (o ≡ some a) × (next a sys ≡ (done b, s'))
  found-bind none next e = absurd (cc e)
  found-bind (some a) next e = (a, refl, e)

  pub run-bind :
      (host : Host) (command : Command) (next : Op B)
      → (run host command >> next) sys ≡ (done b, s')
      → (host.works sys.ran command ≡ true) × (next (after_command command sys) ≡ (done b, s'))
  unfolding run
  run-bind host command next e = elim (Bool-cases (host.works sys.ran command)) [
    | inl works ↦ (works, rw works at e)
    | inr broken ↦ absurd (cc (rw broken at e))
  ]

  -- A command whose error is dropped.
  pub ignored-bind :
      (host : Host) (command : Command) (next : Op B)
      → (ignored (run host command) >> next) sys ≡ next (after_command command sys)
  unfolding run
  ignored-bind host command next = elim (Bool-cases (host.works sys.ran command)) [
    | inl works ↦ rw works refl
    | inr broken ↦ rw broken refl
  ]

  pub write_service_file-bind :
      (host : Host) (path content : String) (next : Op B)
      → (write_service_file host path content >> next) sys ≡ (done b, s')
      → (d : Disk) × (d.content path ≡ some (utf8 content))
        × (next (record sys { disk = d }) ≡ (done b, s'))
  unfolding write_service_file
  write_service_file-bind host path content next e =
      let write = on_disk (write_file path (utf8 content)) in
      let d = (make_dirs sys.disk).1 in
      let (_, _, e1) =
        bind-done (on_disk make_dirs) (λ _. write >> next) sys s' b
          (sym (bind_assoc (on_disk make_dirs) (λ _. write) (λ _. next) sys) ∙ e) in
      let (_, written, e2) = bind-done write (λ _. next) (record sys { disk = d }) s' b e1 in
      ((write_file path (utf8 content) d).1, write_file-done path (utf8 content) d written, e2)

abbrev pub enable : Command
enable = "systemctl" ∷ "--user" ∷ "enable" ∷ "--now" ∷ "mcmon.service" ∷ []

abbrev pub disable : Command
disable = "systemctl" ∷ "--user" ∷ "disable" ∷ "--now" ∷ "mcmon.service" ∷ []

abbrev pub reload : Command
reload = "systemctl" ∷ "--user" ∷ "daemon-reload" ∷ []

abbrev pub unload : String → Command
unload path = "launchctl" ∷ "unload" ∷ path ∷ []

abbrev pub load : String → Command
load path = "launchctl" ∷ "load" ∷ path ∷ []

module _ (host : Host) (exe wd config_path : String) (sys s' : System) where
  -- On Linux: the unit stands in its file, and the unit was enabled after systemd had read it.
  pub install_systemd-done :
      install_systemd host exe wd config_path sys ≡ (done tt, s')
      → (path : String) × (systemd_unit_path host ≡ some path)
        × (s'.disk.content path ≡ some (utf8 (systemd_unit exe wd config_path)))
        × (s'.ran ≡ enable ∷ reload ∷ sys.ran)
        × (host.works sys.ran reload ≡ true)
        × (host.works (reload ∷ sys.ran) enable ≡ true)
  unfolding install_systemd
  install_systemd-done e =
      let unit = systemd_unit exe wd config_path in
      let (path, there, e1) = found-bind sys s' tt (systemd_unit_path host) _ e in
      let (d, written, e2) = write_service_file-bind sys s' tt host path unit _ e1 in
      let (reloaded, e3) = run-bind (record sys { disk = d }) s' tt host reload _ e2 in
      let (enabled, last) =
        run-done host enable (after_command reload (record sys { disk = d })) s' e3 in
      (path, there, rw last written, rw last refl, reloaded, enabled)

  -- On macOS: the property list stands in its file, and the agent was loaded.
  pub install_launchd-done :
      install_launchd host exe wd config_path sys ≡ (done tt, s')
      → (path : String) × (launchd_plist_path host ≡ some path)
        × (s'.disk.content path ≡ some (utf8 (launchd_plist exe wd config_path)))
        × (s'.ran ≡ load path ∷ unload path ∷ sys.ran)
        × (host.works (unload path ∷ sys.ran) (load path) ≡ true)
  unfolding install_launchd
  install_launchd-done e =
      let plist = launchd_plist exe wd config_path in
      let (path, there, e1) = found-bind sys s' tt (launchd_plist_path host) _ e in
      let (d, written, e2) = write_service_file-bind sys s' tt host path plist _ e1 in
      let e3 = sym (ignored-bind (record sys { disk = d }) s' tt host (unload path) _) ∙ e2 in
      let (loaded, last) =
        run-done host (load path) (after_command (unload path) (record sys { disk = d })) s' e3 in
      (path, there, rw last written, rw last refl, loaded)

-- The last step of a block, where it is one of the disk.
removed :
    (path : String) (sys s' : System)
    → on_disk (remove path) sys ≡ (done tt, s')
    → s'.disk.content path ≡ none
removed path sys s' e =
    let ok : (remove path sys.disk).0 ≡ done tt = ap (λ (o : Done (Unit {0}) × System). o.0) e in
    let same : (remove path sys.disk).1 ≡ s'.disk =
      ap (λ (o : Done (Unit {0}) × System). o.1.disk) e in
    subst (λ (d : Disk). d.content path ≡ none) same (remove-done path sys.disk ok)

-- A command whose error is dropped leaves the disk as it is.
ignored-disk :
    (host : Host) (command : Command) (sys s' : System)
    → ignored (run host command) sys ≡ (done tt, s')
    → sys.disk ≡ s'.disk
unfolding run
ignored-disk host command sys s' e = elim (Bool-cases (host.works sys.ran command)) [
  | inl works ↦ ap (λ (o : Done (Unit {0}) × System). o.1.disk) (rw works at e)
  | inr broken ↦ ap (λ (o : Done (Unit {0}) × System). o.1.disk) (rw broken at e)
]

module _ (host : Host) (sys s' : System) where
  pub uninstall_launchd-done :
      uninstall_launchd host sys ≡ (done tt, s')
      → (path : String) × (launchd_plist_path host ≡ some path) × (s'.disk.content path ≡ none)
  unfolding uninstall_launchd
  uninstall_launchd-done e =
      let (path, there, e1) = found-bind sys s' tt (launchd_plist_path host) _ e in
      let e2 = sym (ignored-bind sys s' tt host (unload path) (on_disk (remove path))) ∙ e1 in
      (path, there, removed path (after_command (unload path) sys) s' e2)

  pub uninstall_systemd-done :
      uninstall_systemd host sys ≡ (done tt, s')
      → (path : String) × (systemd_unit_path host ≡ some path) × (s'.disk.content path ≡ none)
  unfolding uninstall_systemd
  uninstall_systemd-done e =
      let sys1 = after_command disable sys in
      let (path, there, e2) =
        found-bind sys1 s' tt (systemd_unit_path host) _
          (sym (ignored-bind sys s' tt host disable _) ∙ e) in
      let (_, gone, e3) =
        bind-done (on_disk (remove path)) (λ _. ignored (run host reload)) sys1 s' tt e2 in
      let same : (remove path sys.disk).1 ≡ s'.disk =
        ignored-disk host reload (record sys1 { disk = (remove path sys.disk).1 }) s' e3 in
      (
        path,
        there,
        subst (λ (d : Disk). d.content path ≡ none) same (remove-done path sys.disk gone),
      )
