-- ===== src/Dump/Times.antt =====
-- The time that rpcserver/xpubxsub.cpp prints can be read back.
use zeromq_rpc_test.Prelude.{
  ℕ, zero, suc, ◌+◌, ◌-◌, ◌*◌, ◌/◌, ◌%◌, ◌≤◌, ◌<◌, ◌≡◌, refl, ap, ◌∙◌, true, false, [], ◌∷◌, ◌++◌,
  Option, some, Bytes, cstr, has_nul, length, take, take-all, replicate, ltb, Bool-cases, inl, inr,
  append_assoc, length-append, and_then, arith,
}
use zeromq_rpc_test.Dump.{Tm, decimal, int_digits, two_digits, time_text, monitor_get_time}
use zeromq_rpc_test.Dump.Numbers.{
  value_of, read_number, all_digits, is_digit, value_of-append, all_digits-append,
  read_number-append, decimal-all_digits, value_of-decimal,
}

-- What `localtime_s` gives: fields in their ranges, in years whose number an `int` holds.
abbrev pub IsTime : Tm → Type 0
IsTime t =
    (1900 + t.tm_year < 2147483648)
    × (t.tm_mon < 12)
    × (t.tm_mday < 32)
    × (t.tm_hour < 24)
    × (t.tm_min < 60)
    × (t.tm_sec ≤ 60)

-- The fields by the number of the date, as year, month and day, and the clock.
abbrev fields_of : ℕ → ℕ → ℕ → ℕ → Tm
fields_of date hour minute second = record {
  tm_year = date / 10000 - 1900;
  tm_mon = date / 100 % 100 - 1;
  tm_mday = date % 100;
  tm_hour = hour;
  tm_min = minute;
  tm_sec = second;
}

-- Reads the date up to a space, the hour and the minute up to colons, and the second up to `stop`.
abbrev pub read_time : ℕ → Bytes → Option (Tm × Bytes)
read_time stop text = and_then (read_number 32 0 text) λ (date, text).
    and_then (read_number 58 0 text) λ (hour, text).
      and_then (read_number 58 0 text) λ (minute, text).
        and_then (read_number stop 0 text)
          λ (second, text). some (fields_of date hour minute second, text)

read_time-digits :
    (stop : ℕ) (date hour minute second rest : Bytes)
    → is_digit stop ≡ false
    → all_digits date ≡ true
    → all_digits hour ≡ true
    → all_digits minute ≡ true
    → all_digits second ≡ true
    → read_time stop (date ++ (32 ∷ (hour ++ (58 ∷ (minute ++ (58 ∷ (second ++ (stop ∷ rest))))))))
      ≡ some (
        fields_of (value_of 0 date) (value_of 0 hour) (value_of 0 minute) (value_of 0 second),
        rest,
      )
read_time-digits stop date hour minute second rest outside d h m s = rw (
  read_number-append 32 0 date (hour ++ (58 ∷ (minute ++ (58 ∷ (second ++ (stop ∷ rest)))))) refl d,
  read_number-append 58 0 hour (minute ++ (58 ∷ (second ++ (stop ∷ rest)))) refl h,
  read_number-append 58 0 minute (second ++ (stop ∷ rest)) refl m,
  read_number-append stop 0 second rest outside s,
)

-- The two characters of a number below 100.
abbrev two : ℕ → Bytes
two n = (48 + n / 10) ∷ (48 + n % 10) ∷ []

two_digits-two : (n : ℕ) → n < 100 → two_digits n ≡ two n
unfolding decimal
two_digits-two n lt = elim (Bool-cases (ltb n 10)) [
  | inl small ↦
      let below : n < 10 = ground arith in
      let tens : n / 10 ≡ 0 = omega (arith, below) in
      let ones : n % 10 ≡ n = omega (arith, below) in rw (small, tens, ones)
  | inr big ↦ let tens : ltb (n / 10) 10 ≡ true = ground arith in rw (big, tens)
]

two-all_digits : (n : ℕ) → n < 100 → all_digits (two n) ≡ true
two-all_digits n lt = ground arith

value_of-two : (acc n : ℕ) → n < 100 → value_of acc (two n) ≡ acc * 100 + n
value_of-two acc n lt = omega (arith, lt)

-- A text of digits has no NUL.
digits-no_nul :
    (s rest : Bytes) → all_digits s ≡ true → has_nul rest ≡ false → has_nul (s ++ rest) ≡ false
digits-no_nul [] rest h clean = clean
digits-no_nul (c ∷ s) rest h clean = ground (arith, digits-no_nul s rest)

length-decimal : (digits n : ℕ) → length (decimal digits n) ≤ digits
unfolding decimal
length-decimal zero n = omega arith
length-decimal (suc digits) n = elim (Bool-cases (ltb n 10)) [
  | inl small ↦ rw small (omega arith)
  | inr big ↦
      rw (big, length-append (decimal digits (n / 10)) ((48 + n % 10) ∷ []))
        (omega (arith, length-decimal digits (n / 10)))
]

-- A text that leaves room for a NUL in a buffer of zeros is the buffer's string.
cstr-take :
    (s : Bytes) (n k : ℕ)
    → has_nul s ≡ false
    → length s < n
    → cstr (take n (s ++ replicate (suc k) 0)) ≡ s
cstr-take s zero k clean h = absurd (omega (arith, h))
cstr-take [] (suc n) k clean h = refl
cstr-take (c ∷ s) (suc n) k clean h = ground (arith, cstr-take s n k)

module _ (now : Tm) (ok : IsTime now) where
  -- The year, the month and the day, in front of the space.
  abbrev date_text : Bytes
  date_text = decimal int_digits (1900 + now.tm_year) ++ (two (now.tm_mon + 1) ++ two now.tm_mday)

  abbrev clock_text : Bytes → Bytes
  clock_text rest = two now.tm_hour ++ (58 ∷ (two now.tm_min ++ (58 ∷ (two now.tm_sec ++ rest))))

  time_text-whole : time_text now ≡ date_text ++ (32 ∷ clock_text [])
  time_text-whole =
      let (year, mon, mday, hour, min, sec) = ok in
      rw (
        two_digits-two (now.tm_mon + 1) (omega (arith, mon)),
        two_digits-two now.tm_mday (omega (arith, mday)),
        two_digits-two now.tm_hour (omega (arith, hour)),
        two_digits-two now.tm_min (omega (arith, min)),
        two_digits-two now.tm_sec (omega (arith, sec)),
        append_assoc,
      )

  time_text-parts : (rest : Bytes) → time_text now ++ rest ≡ date_text ++ (32 ∷ clock_text rest)
  time_text-parts rest = rw time_text-whole (append_assoc date_text (32 ∷ clock_text []) rest)

  date-all_digits : all_digits date_text ≡ true
  date-all_digits =
      let (year, mon, mday, hour, min, sec) = ok in
      rw (
        all_digits-append,
        decimal-all_digits int_digits (1900 + now.tm_year),
        all_digits-append,
        two-all_digits (now.tm_mon + 1) (omega (arith, mon)),
        two-all_digits now.tm_mday (omega (arith, mday)),
      )

  date-value :
      value_of 0 date_text ≡ ((1900 + now.tm_year) * 100 + (now.tm_mon + 1)) * 100 + now.tm_mday
  date-value =
      let (year, mon, mday, hour, min, sec) = ok in
      rw (value_of-append, value_of-decimal int_digits (1900 + now.tm_year) (omega (arith, year)))
        (omega (arith, mon, mday))

  pub read_time-time_text :
      (stop : ℕ) (rest : Bytes)
      → is_digit stop ≡ false
      → read_time stop (time_text now ++ (stop ∷ rest)) ≡ some (now, rest)
  read_time-time_text stop rest outside =
      let (year, mon, mday, hour, min, sec) = ok in
      let fields : fields_of (value_of 0 date_text) (value_of 0 (two now.tm_hour))
            (value_of 0 (two now.tm_min)) (value_of 0 (two now.tm_sec))
          ≡ now =
        let year_read : value_of 0 date_text / 10000 - 1900 ≡ now.tm_year =
          rw date-value (omega (arith, mon, mday)) in
        let mon_read : value_of 0 date_text / 100 % 100 - 1 ≡ now.tm_mon =
          rw date-value (omega (arith, mon, mday)) in
        let mday_read : value_of 0 date_text % 100 ≡ now.tm_mday =
          rw date-value (omega (arith, mday)) in
        let hour_read : value_of 0 (two now.tm_hour) ≡ now.tm_hour = omega (arith, hour) in
        let min_read : value_of 0 (two now.tm_min) ≡ now.tm_min = omega (arith, min) in
        let sec_read : value_of 0 (two now.tm_sec) ≡ now.tm_sec = omega (arith, sec) in
        rw (year_read, mon_read, mday_read, hour_read, min_read, sec_read) in
      ap (read_time stop) (time_text-parts (stop ∷ rest))
      ∙ read_time-digits stop date_text (two now.tm_hour) (two now.tm_min) (two now.tm_sec) rest
          outside date-all_digits (two-all_digits now.tm_hour (omega (arith, hour)))
          (two-all_digits now.tm_min (omega (arith, min)))
          (two-all_digits now.tm_sec (omega (arith, sec)))
      ∙ ap (λ (t : Tm). some (t, rest)) fields

  -- The buffer of `monitor_get_time` holds the whole time.
  pub cstr-monitor_get_time : cstr (monitor_get_time now 128) ≡ time_text now
  unfolding monitor_get_time
  cstr-monitor_get_time =
      let (year, mon, mday, hour, min, sec) = ok in
      let text = date_text ++ (32 ∷ clock_text []) in
      let clock : has_nul (clock_text []) ≡ false =
        digits-no_nul (two now.tm_hour) (58 ∷ (two now.tm_min ++ (58 ∷ (two now.tm_sec ++ []))))
          (two-all_digits now.tm_hour (omega (arith, hour)))
          (digits-no_nul (two now.tm_min) (58 ∷ (two now.tm_sec ++ []))
            (two-all_digits now.tm_min (omega (arith, min)))
            (digits-no_nul (two now.tm_sec) [] (two-all_digits now.tm_sec (omega (arith, sec)))
              refl)) in
      let clean : has_nul text ≡ false =
        digits-no_nul date_text (32 ∷ clock_text []) date-all_digits clock in
      let short : length text ≤ 127 = omega (
        arith,
        length-append date_text (32 ∷ clock_text []),
        length-append (decimal int_digits (1900 + now.tm_year))
            (two (now.tm_mon + 1) ++ two now.tm_mday),
        length-decimal int_digits (1900 + now.tm_year),
      ) in
      rw time_text-whole (
        rw (monitor_get_time, take-all 127 text short)
          (cstr-take text 128 127 clean (omega (arith, short))))
