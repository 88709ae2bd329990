-- ===== src/Install/Epochs.antt =====
-- link/install.go: the epoch in the name of a stream entry or a session status, and when it has
-- expired. Unix times are int64 and epochs uint64.
use khala_network.Common.{
  ℕ, ◌+◌, ◌-◌, ◌*◌, ◌/◌, ◌%◌, ◌^◌, ◌<◌, ◌≤◌, ◌≡◌, refl, Str, lit, str_eq, [], Option, none, some,
  if◌then◌else◌, Bool, true, false, ◌||◌, arith, ltb, leb, length,
}
use khala_network.Text.Strings.{cut, trim_prefix, trim_space}
use khala_network.Text.Numbers.{parse_uint, parse_int, is_negative, Int64}
use khala_network.Names.{valid_generation}

-- An int64 number of seconds: from 1970 on, or (as n + 1) before it.
pub data UnixTime : Type 0 where
  since before : ℕ → UnixTime

abbrev first_part : Option (Str × Str) → Option Str
first_part (some (a, b)) = some a
first_part none = none

abbrev then_uint : Option Str → Option ℕ
then_uint (some s) = parse_uint s
then_uint none = none

unfoldable pub stream_epoch : Str → Option ℕ
unfolding cut parse_uint
stream_epoch id = then_uint (first_part (cut 46 id))

-- `epoch, _, _ := strings.Cut(…)`: without a separator the whole text.
unfoldable pub status_epoch : Str → Option ℕ
unfolding cut parse_uint
status_epoch generation =
    if valid_generation generation
    then (elim (cut 46 generation) [ some (a, b) ↦ parse_uint a | none ↦ parse_uint generation ])
    else none

unfoldable pub offer_epoch : Str → Str → Option ℕ
offer_epoch class basename =
    if str_eq class (lit "stream")
    then stream_epoch basename
    else if str_eq class (lit "mind")
    then status_epoch basename
    else none

abbrev pub u64_max : ℕ
u64_max = 2 ^ 64 - 1

-- The tests guard the sum and the product against wrapping.
unfoldable pub epoch_expired : ℕ → ℕ → ℕ → ℕ → Bool
epoch_expired epoch retain slack now =
    if leb now epoch || ltb (u64_max - slack) retain
    then false
    else if ltb (u64_max / 86400) (retain + slack)
    then false
    else ltb ((retain + slack) * 86400) (now - epoch)

abbrev expired_at : ℕ → ℕ → ℕ → UnixTime → Bool
expired_at epoch retain slack (before n) = false
expired_at epoch retain slack (since now) = epoch_expired epoch retain slack now

-- `none` is the error of an epoch that cannot be read.
unfoldable pub offer_expired : Str → Str → ℕ → ℕ → UnixTime → Option Bool
unfolding epoch_expired
offer_expired class basename retain slack now = elim (offer_epoch class basename) [
  | none ↦ none
  | some epoch ↦ some (expired_at epoch retain slack now)
]

-- For every clock that an int64 shows, the guards change nothing: an epoch has expired exactly when
-- more than `retain + slack` days have passed since, in unbounded arithmetic.
pub epoch_expired_exact :
    (epoch retain slack now : ℕ)
    → now < 2 ^ 63
    → slack ≤ u64_max
    → epoch_expired epoch retain slack now ≡ ltb (epoch + (retain + slack) * 86400) now
unfolding epoch_expired
epoch_expired_exact epoch retain slack now h k = ground arith

-- `uint64(now.Unix() + 86400)`.
unfoldable pub future_limit : UnixTime → ℕ
future_limit (since now) = (now + 86400) % 2 ^ 64
future_limit (before n) = if ltb n 86400 then 86399 - n else 2 ^ 64 + 86399 - n

-- `epochErr != nil || epoch > uint64(time.Now().Unix()+86400)`.
unfoldable pub is_future : Str → Str → UnixTime → Bool
unfolding future_limit
is_future class basename now = elim (offer_epoch class basename) [
  | none ↦ true
  | some epoch ↦ ltb (future_limit now) epoch
]

abbrev non_negative : Option Int64 → Option ℕ
non_negative none = none
non_negative (some i) = if is_negative i then none else some i.magnitude

abbrev first_line : Str → Option (Str × Str) → Str
first_line bytes none = bytes
first_line bytes (some (line, rest)) = line

-- `watchdogEpoch`: the declared epoch on the first line of a `.watcher` marker.
unfoldable pub watchdog_epoch : Str → Option ℕ
unfolding cut trim_space trim_prefix parse_int
watchdog_epoch bytes =
    let line = first_line bytes (cut 10 bytes) in
    let text = trim_space (trim_prefix (lit "retired ") (trim_space line)) in
    if str_eq text [] || ltb 18 (length text) then none else non_negative (parse_int text)

watchdog_test : watchdog_epoch (lit "retired 1700000000") ≡ some 1700000000
unfolding watchdog_epoch
watchdog_test = refl
