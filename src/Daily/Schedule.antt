-- ===== src/Daily/Schedule.antt =====
-- When the scheduler of the summary wakes.
use wiseorder.Prelude.{ℕ, ◌+◌, ◌*◌, ◌/◌, ◌%◌, ◌≤◌, ◌<◌, ◌≡◌, leb, arith, if◌then◌else◌, ap, ◌∙◌}
use wiseorder.Exec.{ok}
use wiseorder.Daily.{next_fire}

-- The next firing, where the hour is one of a day.
abbrev pub fire_at : ℕ → ℕ → ℕ
fire_at hour now =
    let fire = now / 86400 * 86400 + hour * 3600 in if leb fire now then fire + 86400 else fire

next_fire-fire_at : (hour now : ℕ) → hour < 24 → next_fire hour now ≡ ok (fire_at hour now)
unfolding next_fire
next_fire-fire_at hour now h = ground arith

fire_at-later : (hour now : ℕ) → hour < 24 → now < fire_at hour now
fire_at-later hour now h = ground arith

fire_at-le : (hour now : ℕ) → hour < 24 → fire_at hour now ≤ now + 86400
fire_at-le hour now h = ground arith

fire_at-hour : (hour now : ℕ) → hour < 24 → fire_at hour now % 86400 ≡ hour * 3600
fire_at-hour hour now h = ground arith

-- From the target hour of a day, at most a day late, the next firing is a day later.
fire_at-again :
    (hour fire late : ℕ)
    → hour < 24
    → fire % 86400 ≡ hour * 3600
    → late < 86400
    → fire_at hour (fire + late) ≡ fire + 86400
fire_at-again hour fire late h e l = ground arith

-- The scheduler sleeps for more than nothing and for a day at most, until the target hour; and if it
-- plans again less than a day after it woke, the next firing is one day after this one.
pub next_fire-daily :
    (hour now : ℕ)
    → hour < 24
    → (fire : ℕ) × (next_fire hour now ≡ ok fire)
      × (now < fire)
      × (fire ≤ now + 86400)
      × (fire % 86400 ≡ hour * 3600)
      × ((late : ℕ) → late < 86400 → next_fire hour (fire + late) ≡ ok (fire + 86400))
next_fire-daily hour now h =
    let fire = fire_at hour now in
    (
      fire,
      next_fire-fire_at hour now h,
      fire_at-later hour now h,
      fire_at-le hour now h,
      fire_at-hour hour now h,
      λ late l.
          next_fire-fire_at hour (fire + late) h
          ∙ ap ok (fire_at-again hour fire late h (fire_at-hour hour now h) l),
    )
