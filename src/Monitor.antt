-- ===== src/Monitor.antt =====
-- skynet-dist/skynet-src/skynet_monitor.c: the watch on a worker thread that handles a message.
use game_server.Common.{
  ℕ, ◌+◌, ◌%◌, ◌^◌, ◌<◌, ◌≡◌, ◌≢◌, Option, none, some, List, [], ◌∷◌, length, ◌==◌, if◌then◌else◌,
  arith,
}

-- `struct skynet_monitor`; the versions are 32-bit counters.
pub record Monitor : Type 0 where
  pub version : ℕ
  pub check_version : ℕ
  pub source : ℕ
  pub destination : ℕ

-- The report of an endless loop: from which service, to which, at what version.
pub record Report : Type 0 where
  pub source : ℕ
  pub destination : ℕ
  pub version : ℕ

-- `skynet_monitor_new`
pub new : Monitor
new = record { version = 0; check_version = 0; source = 0; destination = 0 }

-- `skynet_monitor_trigger`
pub trigger : Monitor → ℕ × ℕ → Monitor
trigger sm (source, destination) = record sm {
  source = source;
  destination = destination;
  version = (sm.version + 1) % 2 ^ 32;
}

-- `skynet_monitor_check`: the report, if any, and the monitor.
pub check : Monitor → Option Report × Monitor
check sm =
    if sm.version == sm.check_version
    then (if sm.destination == 0 then (none, sm) else (
      some (record { source = sm.source; destination = sm.destination; version = sm.version }),
      sm,
    ))
    else (none, record sm { check_version = sm.version })

-- the triggers of a worker between two checks
pub triggers : Monitor → List (ℕ × ℕ) → Monitor
triggers sm [] = sm
triggers sm (t ∷ ts) = triggers (trigger sm t) ts

version_triggers :
    (sm : Monitor) (ts : List (ℕ × ℕ))
    → sm.version < 2 ^ 32
    → ((triggers sm ts).version ≡ (sm.version + length ts) % 2 ^ 32)
      × ((triggers sm ts).check_version ≡ sm.check_version)
unfolding triggers trigger
version_triggers sm [] h = omega arith
version_triggers sm (t ∷ ts) h =
    let (a, b) = version_triggers (trigger sm t) ts (omega arith) in (omega arith, b)

-- A worker that has begun or ended a message since the last check, less than `2 ^ 32` times, is not
-- reported, and the check takes note of where it is.
pub check_busy :
    (sm : Monitor) (ts : List (ℕ × ℕ))
    → sm.version < 2 ^ 32
    → sm.check_version ≡ sm.version
    → 0 < length ts
    → length ts < 2 ^ 32
    → let (report, sm') = check (triggers sm ts) in
      (report ≡ none) × (sm'.check_version ≡ sm'.version)
unfolding check
check_busy sm ts h e lo hi = ground (arith, version_triggers sm ts h)

-- A worker that has done nothing between two checks is reported by the second exactly if it was in
-- a message, with the service that the message was for.
check_stuck :
    (sm : Monitor)
    → let sm1 = (check sm).1 in
      ((check sm1).1 ≡ sm1)
      × (sm.destination ≡ 0 → (check sm1).0 ≡ none)
      × (sm.destination ≢ 0
          → (check sm1).0
            ≡ some
                (record { source = sm.source; destination = sm.destination; version = sm.version }))
unfolding check
check_stuck sm = (ground arith, λ h. ground arith, λ h. ground arith)
