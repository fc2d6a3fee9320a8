-- ===== src/Driver.antt =====
-- kernel/driver.c: the registry of drivers, and the search for a driver and a device that work.
pub mod Probe
mod Tests
use funny_os.Common.{
  ℕ, Bool, true, false, not, ◌||◌, List, [], ◌∷◌, ◌++◌, Option, some, none, length, leb, ltb, ◌==◌,
  if◌then◌else◌,
}

abbrev pub driver_max_registered : ℕ
driver_max_registered = 16

-- `DriverOps` for devices of a type; a probe changes the world.
pub record DriverOps (Device World : Type 0) : Type 0 where
  pub match_device : Device → Bool
  pub probe : Device → World → Bool × World

module _ {Device World : Type 0} where
  -- `g_registered` up to its count; the driver is not NULL and has both functions.
  unfoldable pub driver_core_register :
      DriverOps Device World → List (DriverOps Device World) → Bool × List (DriverOps Device World)
  driver_core_register driver registered =
      if leb driver_max_registered (length registered)
      then (false, registered)
      else (true, registered ++ (driver ∷ []))

  -- The inner loop: the drivers for one device.
  unfoldable pub probe_device :
      Device
      → List (DriverOps Device World)
      → World
      → Option (DriverOps Device World × Device) × World
  probe_device device [] w = (none, w)
  probe_device device (driver ∷ drivers) w =
      let r = driver.probe device w in
      let skipped = probe_device device drivers w in
      let failed = probe_device device drivers r.1 in
      if not (driver.match_device device)
      then skipped
      else if not r.0
      then failed
      else (some (driver, device), r.1)

  -- The result is `true` with the driver and the device, or `false` with both NULL.
  unfoldable pub driver_core_probe :
      (devices : List Device) (registered : List (DriverOps Device World)) (w : World)
      → Option (DriverOps Device World × Device) × World
  driver_core_probe [] registered w = (none, w)
  driver_core_probe (device ∷ devices) registered w =
      let r = probe_device device registered w in
      let rest = driver_core_probe devices registered r.1 in
      elim r.0 [ none ↦ rest | some bound ↦ (some bound, r.1) ]
