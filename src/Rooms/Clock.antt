-- ===== src/Rooms/Clock.antt =====
-- apps/api/src/common/time/zoned-time.ts: what `parseClock` accepts.
use project_atrium.Base.{
  ℕ, ◌+◌, ◌*◌, ◌/◌, ◌%◌, ◌<◌, ◌≤◌, ◌≡◌, true, ◌&&◌, ◌==◌, some, List, [], ◌∷◌, Bool-cases, inl, inr,
  arith, le→leb,
}
use project_atrium.Rooms.Zones.{is_digit, two_digits, clock_minutes, parse_clock}

clock_minutes-le : (hours minutes m : ℕ) → clock_minutes hours minutes ≡ some m → m ≤ 1440
clock_minutes-le hours minutes m h = ground (arith, h)

-- What `parseClock` accepts is at most 1440 minutes, the end of the day.
parse_clock-le : (text : List ℕ) (m : ℕ) → parse_clock text ≡ some m → m ≤ 1440
unfolding parse_clock
parse_clock-le [] m h = ground (arith, h)
parse_clock-le (a ∷ []) m h = ground (arith, h)
parse_clock-le (a ∷ b ∷ []) m h = ground (arith, h)
parse_clock-le (a ∷ b ∷ c ∷ []) m h = ground (arith, h)
parse_clock-le (a ∷ b ∷ c ∷ d ∷ []) m h = ground (arith, h)
parse_clock-le (a ∷ b ∷ c ∷ d ∷ e ∷ []) m h =
    elim (Bool-cases (is_digit a && is_digit b && (c == 58) && is_digit d && is_digit e)) [
      | inl fine ↦ clock_minutes-le (two_digits a b) (two_digits d e) m (ground (arith, h, fine))
      | inr bad ↦ ground (arith, h, bad)
    ]
parse_clock-le (a ∷ b ∷ c ∷ d ∷ e ∷ f ∷ rest) m h = ground (arith, h)

-- `hh:mm`, two digits each
abbrev pub print_clock : ℕ → ℕ → List ℕ
print_clock hours minutes =
    (48 + hours / 10) ∷ (48 + hours % 10) ∷ 58 ∷ (48 + minutes / 10) ∷ (48 + minutes % 10) ∷ []

tens-is_digit : (n : ℕ) → n < 60 → is_digit (48 + n / 10) ≡ true
tens-is_digit n h =
    ground
      (arith, le→leb 48 (48 + n / 10) (omega arith), le→leb (48 + n / 10) 57 (omega (arith, h)))

ones-is_digit : (n : ℕ) → is_digit (48 + n % 10) ≡ true
ones-is_digit n =
    ground (arith, le→leb 48 (48 + n % 10) (omega arith), le→leb (48 + n % 10) 57 (omega arith))

two_digits-print : (n : ℕ) → two_digits (48 + n / 10) (48 + n % 10) ≡ n
two_digits-print n = omega arith

clock_minutes-fits :
    (hours minutes : ℕ)
    → hours < 24
    → minutes < 60
    → clock_minutes hours minutes ≡ some (hours * 60 + minutes)
clock_minutes-fits hours minutes h m = ground (arith, h, m)

-- Every time of day from 00:00 to 23:59, written with two digits each, is read as its minutes.
parse_clock-print_clock :
    (hours minutes : ℕ)
    → hours < 24
    → minutes < 60
    → parse_clock (print_clock hours minutes) ≡ some (hours * 60 + minutes)
unfolding parse_clock
parse_clock-print_clock hours minutes h m =
    rw
      (
        tens-is_digit hours (omega (arith, h)),
        ones-is_digit hours,
        tens-is_digit minutes m,
        ones-is_digit minutes,
        two_digits-print hours,
        two_digits-print minutes,
      )
      (clock_minutes-fits hours minutes h m)
