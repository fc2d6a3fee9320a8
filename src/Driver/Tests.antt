-- ===== src/Driver/Tests.antt =====
-- Two devices and a driver that works for the second.
use funny_os.Common.{ℕ, suc, ◌≡◌, refl, true, List, [], ◌∷◌, ◌==◌}
use funny_os.Driver.{DriverOps, driver_core_probe, driver_core_register, probe_device}
use funny_os.Driver.Probe.{candidates, first_working, driver_core_probe_lem}

-- The world counts the probes.
abbrev second_only : DriverOps ℕ ℕ
second_only = record { match_device = λ d. true; probe = λ d w. (d == 2, suc w) }

abbrev registry : List (DriverOps ℕ ℕ)
registry = second_only ∷ []

registers : driver_core_register second_only [] ≡ (true, registry)
unfolding driver_core_register
registers = refl

probes_two : (driver_core_probe (1 ∷ 2 ∷ []) registry 0).1 ≡ 2
unfolding driver_core_probe probe_device
probes_two = refl

driver_core_probe_lem_example :
    driver_core_probe (1 ∷ 2 ∷ []) registry 0 ≡ first_working (candidates (1 ∷ 2 ∷ []) registry) 0
driver_core_probe_lem_example = driver_core_probe_lem (1 ∷ 2 ∷ []) registry 0
