-- ===== src/Driver/Probe.antt =====
-- The search probes the matching pairs in order, until one works.
use funny_os.Common.{
  ◌≡◌, refl, sym, ap, ◌∙◌, List, [], ◌∷◌, ◌++◌, Option, some, none, if◌then◌else◌, inl, inr,
  Bool-cases,
}
use funny_os.Driver.{DriverOps, probe_device, driver_core_probe}

module _ {Device World : Type 0} where
  -- The drivers that match a device, and all matching pairs, device by device.
  abbrev pub matching :
      Device → List (DriverOps Device World) → List (DriverOps Device World × Device)
  matching device [] = []
  matching device (driver ∷ drivers) =
      if driver.match_device device
      then (driver, device) ∷ matching device drivers
      else matching device drivers

  abbrev pub candidates :
      List Device → List (DriverOps Device World) → List (DriverOps Device World × Device)
  candidates [] drivers = []
  candidates (device ∷ devices) drivers = matching device drivers ++ candidates devices drivers

  -- The first pair whose probe succeeds, each probe in the world that the one before has left.
  abbrev pub first_working :
      List (DriverOps Device World × Device)
      → World
      → Option (DriverOps Device World × Device) × World
  first_working [] w = (none, w)
  first_working ((driver, device) ∷ pairs) w =
      let r = driver.probe device w in
      let rest = first_working pairs r.1 in if r.0 then (some (driver, device), r.1) else rest

  abbrev after :
      Option (DriverOps Device World × Device) × World
      → List (DriverOps Device World × Device)
      → Option (DriverOps Device World × Device) × World
  after (none, w) pairs = first_working pairs w
  after (some bound, w) pairs = (some bound, w)

  first_working-append :
      (xs ys : List (DriverOps Device World × Device)) (w : World)
      → first_working (xs ++ ys) w ≡ after (first_working xs w) ys
  first_working-append [] ys w = refl
  first_working-append ((driver, device) ∷ xs) ys w = elim (Bool-cases (driver.probe device w).0) [
    | inl t ↦ rw t refl
    | inr t ↦ rw t (first_working-append xs ys (driver.probe device w).1)
  ]

  probe_device_lem :
      (device : Device) (drivers : List (DriverOps Device World)) (w : World)
      → probe_device device drivers w ≡ first_working (matching device drivers) w
  unfolding probe_device
  probe_device_lem device [] w = refl
  probe_device_lem device (driver ∷ drivers) w = elim (Bool-cases (driver.match_device device)) [
    | inr t ↦ rw t (probe_device_lem device drivers w)
    | inl t ↦ elim (Bool-cases (driver.probe device w).0) [
      | inl u ↦ rw (t, u) refl
      | inr u ↦ rw (t, u) (probe_device_lem device drivers (driver.probe device w).1)
    ]
  ]

  after_lem :
      (r : Option (DriverOps Device World × Device) × World) (devices : List Device)
      (drivers : List (DriverOps Device World))
      → ((w : World)
          → driver_core_probe devices drivers w ≡ first_working (candidates devices drivers) w)
      → elim r.0 [ none ↦ driver_core_probe devices drivers r.1 | some bound ↦ (some bound, r.1) ]
        ≡ after r (candidates devices drivers)
  after_lem (none, w) devices drivers h = h w
  after_lem (some bound, w) devices drivers h = refl

  -- The search finds what probing all matching pairs of a device and a driver finds, in the order of
  -- the devices and for each device in the order of registration, up to the first that works.
  pub driver_core_probe_lem :
      (devices : List Device) (drivers : List (DriverOps Device World)) (w : World)
      → driver_core_probe devices drivers w ≡ first_working (candidates devices drivers) w
  unfolding driver_core_probe
  driver_core_probe_lem [] drivers w = refl
  driver_core_probe_lem (device ∷ devices) drivers w =
      after_lem (probe_device device drivers w) devices drivers
        (driver_core_probe_lem devices drivers)
      ∙ ap (λ r. after r (candidates devices drivers)) (probe_device_lem device drivers w)
      ∙ sym (first_working-append (matching device drivers) (candidates devices drivers) w)
