-- ===== src/Curator/Scheduler/Window.antt =====
-- curator/scheduler.py: `IdleWindow` and `parse_idle_window`. Texts are lists of code points; the
-- digits that `int` reads are the ASCII ones.
use oc_piloci.Prelude.{
  ℕ, ◌+◌, ◌-◌, ◌*◌, ◌/◌, ◌%◌, ◌<◌, ◌≡◌, refl, inr, ◌∙◌, Option, none, some, List, [], ◌∷◌, ◌++◌,
  Bool, not, ◌&&◌, ◌||◌, arith, ltb, leb, ◌=?◌, if◌then◌else◌,
}
use oc_piloci.Text.{◌>>=◌, split_once, strip, int_of, strip_digits, int_two, split_once_after_two}

-- Microseconds since midnight.
pub record IdleWindow : Type 0 where
  pub start : ℕ
  pub end : ℕ

unfoldable pub contains : IdleWindow → ℕ → Bool
contains w now =
    if leb w.start w.end then leb w.start now && ltb now w.end else leb w.start now || ltb now w.end

-- An argument of `time`, which raises outside of its range.
in_range : ℕ → Bool × ℕ → Option ℕ
in_range bound (negative, n) = if ltb n bound && (not negative || (n =? 0)) then some n else none

-- `time(h, m)` of "h:m".
clock : List ℕ → Option ℕ
unfolding in_range
clock s = do
  hm ← split_once b':' (strip s)
  h ← int_of (strip hm.0)
  m ← int_of (strip hm.1)
  hour ← in_range 24 h
  minute ← in_range 60 m
  some ((hour * 60 + minute) * 60_000_000)

unfoldable pub parse_idle_window : Option (List ℕ) → Option IdleWindow
unfolding clock
parse_idle_window none = none
parse_idle_window (some []) = none
parse_idle_window (some (c ∷ s)) = do
  parts ← split_once b'-' (c ∷ s)
  start ← clock parts.0
  end ← clock parts.1
  some (record { start = start; end = end })

abbrev day : ℕ
day = 86_400_000_000

-- For times within a day, `now` lies in the window exactly if it comes less far after the start,
-- round the clock, than the end does; with equal ends the window is empty.
pub contains_cyclic :
    (w : IdleWindow) (now : ℕ)
    → w.start < day
    → w.end < day
    → now < day
    → contains w now ≡ ltb ((now + day - w.start) % day) ((w.end + day - w.start) % day)
unfolding contains
contains_cyclic w now hs he hn = ground arith

-- A window that is parsed has both ends within a day.
pub parse_bounds :
    (s : Option (List ℕ)) (w : IdleWindow)
    → parse_idle_window s ≡ some w
    → (w.start < day) × (w.end < day)
unfolding parse_idle_window
parse_bounds none w h = absurd (cc h)
parse_bounds (some []) w h = absurd (cc h)
parse_bounds (some (c ∷ s)) w h = ground (arith)

-- "HH:MM" with the digits a b c d.
abbrev written : ℕ → ℕ → ℕ → ℕ → List ℕ
written a b c d = (b'0' + a) ∷ (b'0' + b) ∷ b':' ∷ (b'0' + c) ∷ (b'0' + d) ∷ []

clock-written :
    (a b c d : ℕ)
    → a < 10
    → b < 10
    → c < 10
    → d < 10
    → a * 10 + b < 24
    → c * 10 + d < 60
    → clock (written a b c d) ≡ some (((a * 10 + b) * 60 + (c * 10 + d)) * 60_000_000)
unfolding clock
clock-written a b c d ha hb hc hd h m =
    rw
      (
        strip_digits a d _ _ ha hd refl refl,
        split_once_after_two a b b':' _ ha hb (inr (omega arith)),
        strip_digits a b _ _ ha hb refl refl,
        strip_digits c d _ _ hc hd refl refl,
        int_two a b ha hb,
        int_two c d hc hd,
      )
      (ground arith)

split_window :
    (a b c d : ℕ) (t : List ℕ)
    → a < 10
    → b < 10
    → c < 10
    → d < 10
    → split_once b'-' (written a b c d ++ b'-' ∷ t) ≡ some (written a b c d, t)
unfolding split_once
split_window a b c d t ha hb hc hd = ground arith

parse-written :
    (a b c d e f g h : ℕ)
    → a < 10
    → b < 10
    → c < 10
    → d < 10
    → e < 10
    → f < 10
    → g < 10
    → h < 10
    → a * 10 + b < 24
    → c * 10 + d < 60
    → e * 10 + f < 24
    → g * 10 + h < 60
    → parse_idle_window (some (written a b c d ++ b'-' ∷ written e f g h))
      ≡ some (record {
        start = ((a * 10 + b) * 60 + (c * 10 + d)) * 60_000_000;
        end = ((e * 10 + f) * 60 + (g * 10 + h)) * 60_000_000;
      })
unfolding parse_idle_window
parse-written a b c d e f g h ha hb hc hd he hf hg hh h1 m1 h2 m2 = rw (
  split_window a b c d _ ha hb hc hd,
  clock-written a b c d ha hb hc hd h1 m1,
  clock-written e f g h he hf hg hh h2 m2,
)

-- "HH:MM", with two digits each.
abbrev pub clock_text : ℕ → ℕ → List ℕ
clock_text h m = written (h / 10) (h % 10) (m / 10) (m % 10)

-- A window that is written as two times of the day, "HH:MM-HH:MM", is parsed to those times.
pub parse-clock_text :
    (h m h' m' : ℕ)
    → h < 24
    → m < 60
    → h' < 24
    → m' < 60
    → parse_idle_window (some (clock_text h m ++ b'-' ∷ clock_text h' m'))
      ≡ some (record { start = (h * 60 + m) * 60_000_000; end = (h' * 60 + m') * 60_000_000 })
parse-clock_text h m h' m' hh hm hh' hm' =
    parse-written (h / 10) (h % 10) (m / 10) (m % 10) (h' / 10) (h' % 10) (m' / 10) (m' % 10)
      (omega arith) (omega arith) (omega arith) (omega arith) (omega arith) (omega arith)
      (omega arith) (omega arith) (omega arith) (omega arith) (omega arith) (omega arith)
    ∙ ground arith
