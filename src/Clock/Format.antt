-- ===== src/Clock/Format.antt =====
-- The layouts of Time.Format that the program prints times in, up to the year 9999.
use datasaver.Base.{
  ℕ, ◌+◌, ◌/◌, ◌%◌, ◌==◌, Str, bytes, [], ◌∷◌, ◌++◌, if◌then◌else◌, ltb, ◌≡◌, refl,
}
use datasaver.Clock.{Time, local_seconds, local_days}
use datasaver.Clock.Civil.{date_of}

-- The decimal digits of a number below 100.
abbrev pub two_digits : ℕ → Str
two_digits n = (b'0' + n / 10 % 10) ∷ (b'0' + n % 10) ∷ []

-- The time of the day in seconds.
unfoldable pub day_second : Time → ℕ
day_second t = local_seconds t % 86400

-- Format("2006-01-02")
unfoldable pub date_text : Time → Str
date_text t =
    let d = date_of (local_days t) in
    two_digits (d.year / 100)
    ++ (two_digits (d.year % 100)
        ++ (bytes "-" ++ (two_digits d.month ++ (bytes "-" ++ two_digits d.day))))

-- Format("15:04")
unfoldable pub minute_text : Time → Str
unfolding day_second
minute_text t =
    let s = day_second t in two_digits (s / 3600) ++ (bytes ":" ++ two_digits (s / 60 % 60))

-- Format("15:04:05")
unfoldable pub second_text : Time → Str
unfolding minute_text
second_text t = minute_text t ++ (bytes ":" ++ two_digits (day_second t % 60))

-- Hours and minutes of an offset.
abbrev offset : ℕ → Str
offset s = two_digits (s / 3600) ++ (bytes ":" ++ two_digits (s / 60 % 60))

-- The zone of RFC 3339: Z for UTC.
unfoldable pub zone_text : Time → Str
zone_text t =
    if t.ahead == t.behind
    then bytes "Z"
    else if ltb t.behind t.ahead
    then bytes "+" ++ offset t.ahead
    else bytes "-" ++ offset t.behind

-- Format(time.RFC3339)
unfoldable pub rfc3339 : Time → Str
unfolding date_text second_text zone_text
rfc3339 t = date_text t ++ (bytes "T" ++ (second_text t ++ zone_text t))

rfc3339_2024 :
    rfc3339 (record { nanos = 63840103445000000000; ahead = 3600; behind = 0 })
    ≡ bytes "2024-01-06T03:04:05+01:00"
unfolding rfc3339 local_seconds local_days date_of day_second
rfc3339_2024 = refl
